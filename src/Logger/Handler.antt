-- ===== src/Logger/Handler.antt =====
-- Handle, appendEntry, recoverLastHash and the queue of internal/logger/logger.go. A line of the log
-- file is `some` entry, or `none` if it is not the JSON of one. Handle takes the mutex twice, once to
-- seal an entry and once to write it, so the two are functions of their own.
use agent_ssh.Base.{
  ℕ, ◌+◌, ◌%◌, Bool, Option, none, some, List, [], ◌∷◌, ◌++◌, ltb, if◌then◌else◌, length,
}
use agent_ssh.Base.Hex
use agent_ssh.Base.Int.{int64_mod}
use agent_ssh.Base.Result.{Result, ok, err}
use agent_ssh.Base.Text.{Text}
use agent_ssh.Logger.Entry.{Body, Entry, Crypto, hash, decoded}

-- slog.Record, as far as Handle reads it.
pub record Record (Attrs : Type 0) : Type 0 where
  pub time : ℕ
  pub level : Text
  pub message : Text
  pub attrs : Attrs

pub data HandleError : Type 0 where
  canonicalize_failed sign_failed write_failed : HandleError

abbrev pub queue_size : ℕ
queue_size = 4096

module _ (c : Crypto) where
  open c use {Attrs, marshal, sign, algorithm}

  pub record Logger : Type 0 where
    pub seq : ℕ
    pub last_hash : Text
    pub file : List (Option (Entry Attrs))
    pub queue : List (Entry Attrs)
    pub sent : List (Entry Attrs)

  unfoldable pub last_line : List (Option (Entry Attrs)) → Option (Entry Attrs)
  last_line [] = none
  last_line (l ∷ []) = l
  last_line (l ∷ m ∷ ls) = last_line (m ∷ ls)

  -- recoverLastHash: none if the last line is no entry.
  unfoldable pub recover : List (Option (Entry Attrs)) → Option Logger
  unfolding last_line
  recover [] = some (record { seq = 0; last_hash = []; file = []; queue = []; sent = [] })
  recover (l ∷ ls) = elim (last_line (l ∷ ls)) [
    | none ↦ none
    | some e ↦
        some (record { seq = e.seq; last_hash = hash c e; file = l ∷ ls; queue = []; sent = [] })
  ]

  unfoldable pub next_body : Record Attrs → Logger → Body Attrs
  next_body r t = record {
    seq = (t.seq + 1) % int64_mod;
    timestamp = r.time;
    level = r.level;
    message = r.message;
    attrs = r.attrs;
    prev_hash = Hex.encode t.last_hash;
    algo = algorithm;
  }

  unfoldable pub sign_body : Body Attrs → Option Text → Result HandleError (Entry Attrs)
  sign_body b none = err canonicalize_failed
  sign_body b (some canonical) = elim (sign canonical) [
    | none ↦ err sign_failed
    | some sig ↦ ok (record { body = b; signature = Hex.encode sig })
  ]

  -- The first critical section of Handle: the number is taken also when signing fails.
  unfoldable pub seal : Record Attrs → Logger → Logger × Result HandleError (Entry Attrs)
  unfolding next_body sign_body
  seal r t =
      let b = next_body r t in
      let numbered = record t { seq = b.seq } in
      elim (sign_body b (marshal b)) [
        | err x ↦ (numbered, err x)
        | ok e ↦ (record numbered { last_hash = hash c e }, ok e)
      ]

  -- The second critical section: `writes` says whether the file takes the line; a
  -- Write that fails is taken to have written nothing.
  unfoldable pub append : Bool → Entry Attrs → Logger → Logger × Result HandleError (Unit {0})
  unfolding decoded
  append writes e t =
      if writes
      then (record t { file = t.file ++ some (decoded c e) ∷ [] }, ok tt)
      else (t, err write_failed)

  -- A full queue drops the replica.
  unfoldable pub enqueue : Entry Attrs → Logger → Logger
  enqueue e t =
      if ltb (length t.queue) queue_size then record t { queue = t.queue ++ e ∷ [] } else t

  -- Handle without another call in between.
  unfoldable pub handle : Bool → Record Attrs → Logger → Logger × Result HandleError (Unit {0})
  handle writes r t =
      let (t', sealed) = seal r t in
      elim sealed [
        | err x ↦ (t', err x)
        | ok e ↦
            let (t'', written) = append writes e t' in
            elim written [ err x ↦ (t'', err x) | ok _ ↦ (enqueue e t'', ok tt) ]
      ]

  -- One round of dispatchLoop: the head of the queue goes to the sender.
  unfoldable pub dispatch : Logger → Logger
  dispatch t = elim t.queue [
    | [] ↦ t
    | e ∷ rest ↦ record t { queue = rest; sent = t.sent ++ e ∷ [] }
  ]
