-- ===== src/Mq/Tests.antt =====
-- Runs of the model of internal/mq at concrete inputs.
use agent_ssh.Base.{◌≡◌, refl, inl, inr, true, false, map, some, none, List, [], ◌∷◌, arith}
use agent_ssh.Base.Files.{Files, complete, refused}
use agent_ssh.Base.Text.{codes, text_eq}
use agent_ssh.Logger.Entry.{Entry}
use agent_ssh.Mq.Spool.{path_of, SendIo, Encoding}
use agent_ssh.Mq.Sender.{kafka_sender}
use agent_ssh.Mq.Remote.{Message, Queues, RemoteIo, push, push_copies, send_all}
use agent_ssh.Mq.Mailbox.{Mailbox, posts, deliver-posts}
use agent_ssh.Mq.Delivery.{Delivery, deliver}

abbrev messages : Encoding
messages = record { Attrs = Unit {0}; stamp = λ t. codes "t"; marshal = λ e. some e.message }

abbrev numbered : Entry (Unit {0}) → Entry (Unit {0}) → List (Delivery messages)
numbered a b =
    record { io = record { write = complete; rename = true; remove = true }; entry = a }
    ∷ record { io = record { write = refused; rename = true; remove = true }; entry = b }
    ∷ []

abbrev up : Entry (Unit {0})
up = record {
  body = record {
    seq = 1;
    timestamp = 7;
    level = codes "INFO";
    message = codes "up";
    attrs = tt;
    prev_hash = [];
    algo = [];
  };
  signature = [];
}

abbrev on : Entry (Unit {0})
on = record {
  body = record {
    seq = 2;
    timestamp = 7;
    level = codes "INFO";
    message = codes "on";
    attrs = tt;
    prev_hash = [];
    algo = [];
  };
  signature = [];
}

abbrev empty_spool : Files
empty_spool p = none

abbrev no_messages : Mailbox
no_messages n = none

deliver-posts_example :
    deliver messages (codes "/q") (numbered up on) empty_spool (path_of messages (codes "/q") up)
    ≡ posts messages (numbered up on) no_messages 1
deliver-posts_example =
    deliver-posts messages (λ t. (λ q. omega arith, tt)) (codes "/q") (λ q. cc) up (numbered up on)
      empty_spool no_messages (omega arith)
      ((omega arith, inl refl), ((omega arith, inr (λ q. omega arith)), tt)) refl

abbrev working : SendIo
working = record { write = complete; rename = true; remove = true }

-- The first message is acknowledged after a retry that has put it there twice, and the second one does
-- not get there.
abbrev remote : List (RemoteIo × Entry (Unit {0}))
remote =
    (
      record {
        files = working;
        client = record { acknowledged = true; copies = 2; partition = 0 };
      },
      up,
    )
    ∷ (
      record {
        files = working;
        client = record { acknowledged = false; copies = 0; partition = 1 };
      },
      on,
    )
    ∷ []

abbrev empty_queues : Queues
empty_queues = record { spool = empty_spool; streams = λ _. []; topics = λ _ _. [] }

abbrev kafka_twice : Queues
kafka_twice =
    send_all messages (kafka_sender (codes "k:9092" ∷ []) (codes "agent-logs")) remote empty_queues

arrives_twice :
    map (λ (m : Message). m.value) (kafka_twice.topics (codes "agent-logs") 0)
    ≡ codes "up" ∷ codes "up" ∷ []
unfolding send_all push push_copies text_eq
arrives_twice = refl

other_partition : kafka_twice.topics (codes "agent-logs") 1 ≡ []
unfolding send_all push push_copies text_eq
other_partition = refl
