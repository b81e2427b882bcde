-- ===== src/Logger/Lifecycle.antt =====
-- New, Enabled and Close of internal/logger/logger.go, and the loop of dispatchLoop, as sequences of
-- calls. What the system answers to New is an input.
use agent_ssh.Base.{
  ℕ, zero, suc, Bool, not, Option, none, some, List, [], ◌∷◌, ◌++◌, true, false, leb, if◌then◌else◌,
}
use agent_ssh.Base.Files.{Files}
use agent_ssh.Base.Path.{dir}
use agent_ssh.Base.Result.{Result, ok, err}
use agent_ssh.Base.Text.{Text}
use agent_ssh.Config.Types.{LogConfig}
use agent_ssh.Logger.Entry.{Entry, Crypto}
use agent_ssh.Logger.Handler.{Record, Logger, recover, handle, dispatch}
use agent_ssh.Logger.Keys.{KeyOps, KeyError, Signer, load_signer}
use agent_ssh.Logger.Signing.{crypto_with}
use agent_ssh.Mq.Sender
use agent_ssh.Mq.Sender.{Sender, NewIo}

-- slog.LevelInfo is 0; a level is taken as its distance to slog.LevelDebug, which is -4.
abbrev pub level_info : ℕ
level_info = 4

unfoldable pub is_enabled : ℕ → Bool
is_enabled level = leb level_info level

pub data NewError : Type 0 where
  signer_failed : KeyError → NewError
  sender_failed : Sender.NewError → NewError
  directory_failed open_failed recover_failed : NewError

module _ (o : KeyOps) (c : Crypto) (k : o.PublicKey) where
  -- The lines of the log file when it is opened; `reads` is that Stat and ReadFile work.
  pub record OpenIo : Type 0 where
    pub readable : Bool
    pub mq : NewIo
    pub mkdir_all : Text → Bool
    pub opens : Bool
    pub reads : Bool
    pub lines : List (Option (Entry c.Attrs))

  -- A running logger: what it signs with, where it sends to, and its state.
  pub record Running : Type 0 where
    pub signer : Signer o
    pub sender : Sender
    pub logger : Logger (crypto_with o c signer k)

  unfoldable pub start :
      (s : Signer o)
      → Sender
      → Option (Logger (crypto_with o c s k))
      → Result NewError (Option Running)
  start s q none = err recover_failed
  start s q (some t) = ok (some (record { signer = s; sender = q; logger = t }))

  unfoldable pub open_log :
      OpenIo → LogConfig → Signer o → Sender → Result NewError (Option Running)
  unfolding start
  open_log io cfg s q =
      if not (io.mkdir_all (dir cfg.file))
      then err directory_failed
      else if not io.opens
      then err open_failed
      else if not io.reads
      then err recover_failed
      else start s q (recover (crypto_with o c s k) io.lines)

  -- A logger that is not enabled is none.
  unfoldable pub new : OpenIo → LogConfig → Files → Result NewError (Option Running)
  unfolding open_log
  new io cfg files =
      if not cfg.enabled
      then ok none
      else elim (load_signer o io.readable cfg.signature_algo cfg.sign_key_file files) [
        | err x ↦ err (signer_failed x)
        | ok s ↦ elim (Sender.new io.mq cfg.mq) [
          | err x ↦ err (sender_failed x)
          | ok q ↦ open_log io cfg s q
        ]
      ]

module _ (c : Crypto) where
  -- Calls of Handle, each of which the file takes or not, and rounds of dispatchLoop.
  pub data Event : Type 0 where
    handled : Bool → Record c.Attrs → Event
    dispatched : Event

  unfoldable pub step : Event → Logger c → Logger c
  step (handled writes r) t = (handle c writes r t).0
  step dispatched t = dispatch c t

  unfoldable pub run : List Event → Logger c → Logger c
  unfolding step
  run [] t = t
  run (e ∷ es) t = run es (step e t)

  -- Rounds that hand entries of the queue to Send, each with whether its context is live.
  unfoldable pub drain : Bool → ℕ → Logger c → Logger c × List (Bool × Entry c.Attrs)
  unfolding dispatch
  drain live zero t = (t, [])
  drain live (suc rounds) t = elim t.queue [
    | [] ↦ (t, [])
    | e ∷ _ ↦ let (t', sends) = drain live rounds (dispatch c t) in (t', (live, e) ∷ sends)
  ]

  -- Close: it cancels the context of dispatchLoop, whose select may still take waiting entries as
  -- long as it does not take the end, `raced` of them, for which Send gets a cancelled context. Then
  -- it drains the queue itself; `budget` is how many sends come to an end in its 3 seconds.
  unfoldable pub close : ℕ → ℕ → Logger c → Logger c × List (Bool × Entry c.Attrs)
  unfolding drain
  close raced budget t =
      let (t', a) = drain false raced t in let (t'', b) = drain true budget t' in (t'', a ++ b)
