-- ===== src/Config/Types.antt =====
-- The structs of internal/config/config.go and DefaultConfig. A Go string is a list of bytes, an
-- int a signed integer.
use agent_ssh.Base.{Bool, true, false, List, [], ◌∷◌}
use agent_ssh.Base.Int.{ℤ, pos}
use agent_ssh.Base.Text.{Text, codes}

pub record ServerConfig : Type 0 where
  pub host : Text
  pub port : ℤ

pub record AuthConfig : Type 0 where
  pub token_file : Text
  pub rotation_hour : ℤ
  pub token_length : ℤ

pub record ExecutorConfig : Type 0 where
  pub default_timeout : ℤ
  pub max_timeout : ℤ
  pub max_output_size_mb : ℤ
  pub allowed_commands : List Text
  pub blocked_keywords : List Text
  pub work_dir : Text
  pub upload_dir : Text
  pub max_upload_size_mb : ℤ
  pub allowed_extensions : List Text

pub record TaskManagerConfig : Type 0 where
  pub max_running_tasks : ℤ
  pub retention_minutes : ℤ

pub record FileMqConfig : Type 0 where
  pub dir : Text

pub record RedisMqConfig : Type 0 where
  pub addr : Text
  pub password : Text
  pub db : ℤ
  pub stream : Text

pub record KafkaMqConfig : Type 0 where
  pub brokers : List Text
  pub topic : Text

pub record MqConfig : Type 0 where
  pub kind : Text
  pub topic : Text
  pub file : FileMqConfig
  pub redis : RedisMqConfig
  pub kafka : KafkaMqConfig

pub record LogConfig : Type 0 where
  pub enabled : Bool
  pub file : Text
  pub sign_key_file : Text
  pub verify_pub_file : Text
  pub signature_algo : Text
  pub console_output : Bool
  pub auto_generate_keys : Bool
  pub mq : MqConfig

pub record Config : Type 0 where
  pub server : ServerConfig
  pub auth : AuthConfig
  pub executor : ExecutorConfig
  pub task_manager : TaskManagerConfig
  pub log : LogConfig

abbrev pub default_config : Config
default_config = record {
  server = record { host = codes "0.0.0.0"; port = pos 8080 };
  auth = record {
    token_file = codes "/var/run/agent/.api_token";
    rotation_hour = pos 0;
    token_length = pos 32;
  };
  executor = record {
    default_timeout = pos 30;
    max_timeout = pos 300;
    max_output_size_mb = pos 10;
    allowed_commands = [];
    blocked_keywords =
        codes "rm -rf /"
        ∷ codes "mkfs"
        ∷ codes "dd if=/dev/zero"
        ∷ codes "shutdown"
        ∷ codes ":(){ :|:& };:"
        ∷ [];
    work_dir = codes "/tmp/agent_workspace";
    upload_dir = [];
    max_upload_size_mb = pos 64;
    allowed_extensions = [];
  };
  task_manager = record { max_running_tasks = pos 50; retention_minutes = pos 60 };
  log = record {
    enabled = true;
    file = codes "/var/log/agent/agent.log";
    sign_key_file = codes "/etc/agent/agent-sign.key";
    verify_pub_file = codes "/etc/agent/agent-sign.pub";
    signature_algo = codes "ed25519";
    console_output = false;
    auto_generate_keys = true;
    mq = record {
      kind = codes "file";
      topic = codes "agent-logs";
      file = record { dir = codes "/var/spool/agent/mq" };
      redis = record { addr = []; password = []; db = pos 0; stream = [] };
      kafka = record { brokers = []; topic = [] };
    };
  };
}
