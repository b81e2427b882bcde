-- ===== src/Config/Tests.antt =====
-- Runs of the model of internal/config/config.go at concrete inputs. The toy file system has one
-- file, and the toy decoder gives the configuration that it is to fill.
use agent_ssh.Base.{◌≡◌, refl, true, false, Option, some, [], ◌∷◌, ◌++◌, arith}
use agent_ssh.Base.Result.{ok}
use agent_ssh.Base.Text.{Text, codes, text_eq}
use agent_ssh.Config.Types.{Config, default_config}
use agent_ssh.Config.Load.{Environment, load_file, load}
use agent_ssh.Base.Printing.{digits_of, decimal}
use agent_ssh.Config.Listen.{listen_addr, load-listens}
use agent_ssh.Config.Valid.{IsValid, load-IsValid, load-id}

abbrev read_file : Text → Option Text
read_file _ = some []

abbrev unmarshal : Text → Config → Option Config
unmarshal _ c = some c

abbrev file : Text
file = codes "agent.yaml"

-- Only SERVER_PORT is set.
abbrev env : Environment
env v = elim (text_eq v (codes "SERVER_PORT")) [ true ↦ codes "9000" | false ↦ [] ]

decoded : load_file read_file unmarshal file ≡ ok default_config
unfolding load_file
decoded = refl

default_config-IsValid : IsValid default_config
default_config-IsValid = record {
  port = omega arith;
  token_length = omega arith;
  default_timeout = omega arith;
  max_timeout = omega arith;
  max_output_size_mb = omega arith;
  max_upload_size_mb = omega arith;
  max_running_tasks = omega arith;
  retention_minutes = omega arith;
  log_file = λ e. cc;
  signature_algo = λ e. cc;
  mq_topic = λ e. cc;
}

reloaded : load read_file unmarshal (λ _. []) file ≡ ok default_config
reloaded = load-id read_file unmarshal file default_config decoded default_config-IsValid

load-IsValid_example : IsValid default_config
load-IsValid_example = load-IsValid read_file unmarshal (λ _. []) file default_config reloaded

port_set : env (codes "SERVER_PORT") ≡ codes "9000"
unfolding text_eq
port_set = refl

port_printed : env (codes "SERVER_PORT") ≡ decimal 9000
unfolding decimal digits_of text_eq
port_printed = refl

load-listens_example :
    (d : Config) × (load read_file unmarshal env file ≡ ok d)
    × (listen_addr d.server ≡ d.server.host ++ (b':' ∷ env (codes "SERVER_PORT")))
load-listens_example =
    load-listens read_file unmarshal env file default_config 8999 decoded port_printed (omega arith)
