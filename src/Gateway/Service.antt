-- ===== src/Gateway/Service.antt =====
-- The agent while it serves: the requests of internal/gateway/gateway.go in any order with the
-- rounds of rotationLoop, the goroutines of tasks, the timers of their contexts, cleanups and the
-- CancelAll of main, and with what other programs do to files, the commands that the agent runs among
-- them: these run on beside all requests, so that each of their writes is an event of its own.
use agent_ssh.Base.{ℕ, Bool, Option, if◌then◌else◌, List, [], ◌∷◌, ◌++◌}
use agent_ssh.Base.Files.{Files, put}
use agent_ssh.Base.Int.{ℤ}
use agent_ssh.Base.Text.{Text, text_eq}
use agent_ssh.Executor.Types.{ExecResult}
use agent_ssh.Executor.Filter.{Regexp, Executor}
use agent_ssh.Auth.Model.{TokenFile, TokenManager, Io, Wake, generate_token, rotation_round}
use agent_ssh.Auth.History.{token_of, contents}
use agent_ssh.TaskManager.Model.{TaskManager}
use agent_ssh.TaskManager.Events as Tasks
use agent_ssh.Gateway.Types.{Server}
use agent_ssh.Gateway.Routes.{Context, Request, call}

-- What goes on in the task manager beside requests.
pub data Work : Type 0 where
  begins expires : ℤ → ℕ → Work
  finishes : ℤ → ExecResult → ℕ → Work
  cleans cancels_all : ℤ → Work

unfoldable pub task_event : Work → Tasks.Event
task_event (begins now p) = Tasks.begins now p
task_event (expires now p) = Tasks.expires now p
task_event (finishes now result p) = Tasks.finishes now result p
task_event (cleans now) = Tasks.cleans now
task_event (cancels_all now) = Tasks.cancels_all now

-- New: the server over the managers, and over the files that uploads see.
unfoldable pub new : TokenManager → TaskManager → Files → Server
new auth tm files = record { auth = auth; tm = tm; started = []; files = files }

module _ (re : Regexp) (e : Executor re) (mkdir_all : Text → Bool) where
  -- A call has the 16 random bytes for an identifier and the headers Authorization and X-Request-ID. By
  -- `intrudes` another program leaves the token file and its temporary file as given, and by `writes`
  -- it writes or removes a file that uploads see.
  pub data Event : Type 0 where
    calls : Io → List ℕ → Text → Text → (Context → Request re e mkdir_all) → Event
    wakes : Io → Wake → Event
    works : Work → Event
    intrudes : Option TokenFile → Option TokenFile → Event
    writes : Text → Option Text → Event

  unfoldable pub step : Server → Event → Server
  unfolding task_event put
  step s (calls io bytes authorization request_id r) =
      (call re e mkdir_all io bytes authorization request_id r s).0
  step s (wakes io w) = record s { auth = (rotation_round io w s.auth).0 }
  step s (works w) = record s { tm = Tasks.step s.tm (task_event w) }
  step s (intrudes file temp) = record s { auth = record s.auth { file = file; temp = temp } }
  step s (writes path content) = record s { files = put path content s.files }

  unfoldable pub run : Server → List Event → Server
  unfolding step
  run s [] = s
  run s (x ∷ xs) = run (step s x) xs

  -- The tokens that the rounds of the loop draw.
  unfoldable pub drawn : List Event → List Text
  drawn [] = []
  drawn (wakes io w ∷ xs) = token_of (generate_token io) ++ drawn xs
  drawn (calls io bytes authorization request_id r ∷ xs) = drawn xs
  drawn (works w ∷ xs) = drawn xs
  drawn (intrudes file temp ∷ xs) = drawn xs
  drawn (writes path content ∷ xs) = drawn xs

  -- The contents that other programs put into the token file.
  unfoldable pub placed : List Event → List Text
  placed [] = []
  placed (intrudes file temp ∷ xs) = contents file ++ placed xs
  placed (wakes io w ∷ xs) = placed xs
  placed (calls io bytes authorization request_id r ∷ xs) = placed xs
  placed (works w ∷ xs) = placed xs
  placed (writes path content ∷ xs) = placed xs

  -- What the last write of another program leaves under a path, or else what was there.
  unfoldable pub last_write : Text → Option Text → List Event → Option Text
  last_write q o [] = o
  last_write q o (writes path content ∷ xs) =
      last_write q (if text_eq q path then content else o) xs
  last_write q o (calls io bytes authorization request_id r ∷ xs) = last_write q o xs
  last_write q o (wakes io w ∷ xs) = last_write q o xs
  last_write q o (works w ∷ xs) = last_write q o xs
  last_write q o (intrudes file temp ∷ xs) = last_write q o xs
