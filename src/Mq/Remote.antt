-- ===== src/Mq/Remote.antt =====
-- Send of internal/mq/mq.go for every sender, with that of internal/mq/redis.go and kafka.go. The
-- servers are their streams and topics; what becomes of a call of XAdd or WriteMessages is an
-- input.
use agent_ssh.Base.{ℕ, zero, suc, Bool, ◌==◌, none, some, List, [], ◌∷◌, ◌++◌, if◌then◌else◌}
use agent_ssh.Base.Decimal.{padded}
use agent_ssh.Base.Files.{Files}
use agent_ssh.Base.Result.{Result, ok, err}
use agent_ssh.Base.Text.{Text, codes, text_eq}
use agent_ssh.Logger.Entry.{Entry}
use agent_ssh.Mq.Sender.{Sender, noop, file_sender, redis_sender, kafka_sender}
use agent_ssh.Mq.Spool as Spool
use agent_ssh.Mq.Spool.{Encoding, SendIo}

-- What becomes of a call of a client. It retries, so that the message may get to the server any number
-- of times, whether the call fails or not. LeastBytes chooses the partition of a Kafka message.
pub record Outcome : Type 0 where
  pub acknowledged : Bool
  pub copies : ℕ
  pub partition : ℕ

-- kafka.Message.
pub record Message : Type 0 where
  pub key : Text
  pub value : Text

pub record Queues : Type 0 where
  pub spool : Files
  pub streams : Text → List (List (Text × Text))
  pub topics : Text → ℕ → List Message

pub data SendError : Type 0 where
  marshal_failed client_failed : SendError
  spool_failed : Spool.SendError → SendError

-- What the calls of one Send answer.
pub record RemoteIo : Type 0 where
  pub files : SendIo
  pub client : Outcome

-- A change of what stands under the name.
unfoldable pub push : {A : Type 0} → Text → (A → A) → (Text → A) → Text → A
push name change queues other = if text_eq other name then change (queues other) else queues other

unfoldable pub push_copies : {A : Type 0} → ℕ → A → List A → List A
push_copies zero x xs = xs
push_copies (suc n) x xs = push_copies n x (xs ++ x ∷ [])

abbrev pub answer_of : Outcome → Result SendError (Unit {0})
answer_of client = if client.acknowledged then ok tt else err client_failed

unfoldable pub x_add : Outcome → Text → List (Text × Text) → Queues → Queues
unfolding push push_copies
x_add client stream values q = record q {
  streams = push stream (push_copies client.copies values) q.streams;
}

unfoldable pub write_message : Outcome → Text → Message → Queues → Queues
unfolding push push_copies
write_message client topic m q = record q {
  topics =
      push topic
        (λ parts n.
          if n == client.partition then push_copies client.copies m (parts n) else parts n)
        q.topics;
}

spool_answer : Result Spool.SendError (Unit {0}) → Result SendError (Unit {0})
spool_answer (ok x) = ok tt
spool_answer (err x) = err (spool_failed x)

module _ (c : Encoding) where
  open c use {Attrs, marshal}

  unfoldable pub send_redis :
      Outcome → Text → Entry Attrs → Queues → Queues × Result SendError (Unit {0})
  unfolding x_add
  send_redis client stream e q = elim (marshal e) [
    | none ↦ (q, err marshal_failed)
    | some t ↦ (x_add client stream ((codes "payload", t) ∷ []) q, answer_of client)
  ]

  unfoldable pub send_kafka :
      Outcome → Text → Entry Attrs → Queues → Queues × Result SendError (Unit {0})
  unfolding write_message
  send_kafka client topic e q = elim (marshal e) [
    | none ↦ (q, err marshal_failed)
    | some t ↦ (
      write_message client topic (record { key = padded 20 e.seq; value = t }) q,
      answer_of client,
    )
  ]

  unfoldable pub send_over :
      RemoteIo → Sender → Entry Attrs → Queues → Queues × Result SendError (Unit {0})
  unfolding send_redis send_kafka spool_answer
  send_over io noop e q = (q, ok tt)
  send_over io (file_sender dir topic) e q =
      let (files, answer) = Spool.send c io.files dir e q.spool in
      (record q { spool = files }, spool_answer answer)
  send_over io (redis_sender addr stream) e q = send_redis io.client stream e q
  send_over io (kafka_sender brokers topic) e q = send_kafka io.client topic e q

  -- Calls of Send, one after the other.
  unfoldable pub send_all : Sender → List (RemoteIo × Entry Attrs) → Queues → Queues
  unfolding send_over
  send_all s [] q = q
  send_all s ((io, e) ∷ calls) q = send_all s calls (send_over io s e q).0
