-- ===== src/Mq/Topics.antt =====
-- What New of internal/mq/mq.go makes.
use agent_ssh.Base.{◌≡◌, ◌≢◌, refl, subst, ◌++◌, ◌⊎◌, inl, inr, Bool-cases, List, [], ◌∷◌}
use agent_ssh.Base.Clean.{clean-ne-nil}
use agent_ssh.Base.Normal.{text_ne}
use agent_ssh.Base.Path.{join}
use agent_ssh.Base.Result.{ok, ok_inj}
use agent_ssh.Base.Text.{Text, codes, text_eq}
use agent_ssh.Config.Types.{FileMqConfig, RedisMqConfig, KafkaMqConfig, MqConfig}
use agent_ssh.Mq.Sender.{
  Sender, noop, file_sender, redis_sender, kafka_sender, NewIo, topic_or_default, new_file_sender,
  stream_of, new_redis_sender, kafka_topic, new_kafka_sender, is_noop, new,
}

-- A sender knows where to deliver.
abbrev pub HasTarget : Sender → Type 0
HasTarget noop = Unit
HasTarget (file_sender dir topic) = (dir ≢ []) × (topic ≢ [])
HasTarget (redis_sender addr stream) = (addr ≢ []) × (stream ≢ [])
HasTarget (kafka_sender brokers topic) = (brokers ≢ []) × (topic ≢ [])

topic-filled : (t : Text) → topic_or_default t ≢ []
unfolding topic_or_default
topic-filled t h = elim (Bool-cases (text_eq t [])) [
  | inl e ↦ let k = rw (topic_or_default, e) at h in cc
  | inr e ↦ text_ne e (rw (topic_or_default, e) at h)
]

stream-filled : (cfg : RedisMqConfig) (t : Text) → stream_of cfg t ≢ []
unfolding stream_of
stream-filled cfg t h = elim (Bool-cases (text_eq cfg.stream [])) [
  | inl e ↦ topic-filled t (rw (stream_of, e) at h)
  | inr e ↦ text_ne e (rw (stream_of, e) at h)
]

kafka_topic-filled : (cfg : KafkaMqConfig) (t : Text) → kafka_topic cfg t ≢ []
unfolding kafka_topic
kafka_topic-filled cfg t h = elim (Bool-cases (text_eq cfg.topic [])) [
  | inl e ↦ topic-filled t (rw (kafka_topic, e) at h)
  | inr e ↦ text_ne e (rw (kafka_topic, e) at h)
]

join-ne-nil : (d t : Text) → d ≢ [] → join d t ≢ []
unfolding join
join-ne-nil [] t h q = h refl
join-ne-nil (c ∷ d) t h q = clean-ne-nil ((c ∷ d) ++ (b'/' ∷ t)) q

file-HasTarget :
    (io : NewIo) (cfg : FileMqConfig) (t : Text) (s : Sender)
    → new_file_sender io cfg t ≡ ok s
    → HasTarget s
unfolding new_file_sender
file-HasTarget io cfg t s h = elim (Bool-cases (text_eq cfg.dir [])) [
  | inl e ↦ let k = rw (new_file_sender, e) at h in cc
  | inr e ↦ elim (Bool-cases (io.mkdir_all (join cfg.dir (topic_or_default t)))) [
    | inr f ↦ let k = rw (new_file_sender, e, f) at h in cc
    | inl f ↦
        let k = ok_inj (rw (new_file_sender, e, f) at h) in
        subst HasTarget k (join-ne-nil cfg.dir (topic_or_default t) (text_ne e), topic-filled t)
  ]
]

redis-HasTarget :
    (io : NewIo) (cfg : RedisMqConfig) (t : Text) (s : Sender)
    → new_redis_sender io cfg t ≡ ok s
    → HasTarget s
unfolding new_redis_sender
redis-HasTarget io cfg t s h = elim (Bool-cases (text_eq cfg.addr [])) [
  | inl e ↦ let k = rw (new_redis_sender, e) at h in cc
  | inr e ↦ elim (Bool-cases (io.ping cfg.addr)) [
    | inr f ↦ let k = rw (new_redis_sender, e, f) at h in cc
    | inl f ↦
        let k = ok_inj (rw (new_redis_sender, e, f) at h) in
        subst HasTarget k (text_ne e, stream-filled cfg t)
  ]
]

List-cases : (bs : List Text) → (bs ≡ []) ⊎ ((b : Text) × (r : List Text) × (bs ≡ b ∷ r))
List-cases [] = inl refl
List-cases (b ∷ r) = inr (b, r, refl)

kafka-HasTarget :
    (cfg : KafkaMqConfig) (t : Text) (s : Sender) → new_kafka_sender cfg t ≡ ok s → HasTarget s
unfolding new_kafka_sender
kafka-HasTarget cfg t s h = elim (List-cases cfg.brokers) [
  | inl e ↦ let k = rw (new_kafka_sender, e) at h in cc
  | inr (b, r, e) ↦
      let k = ok_inj (rw (new_kafka_sender, e) at h) in
      subst HasTarget k (λ q. cc, kafka_topic-filled cfg t)
]

-- A sender that New makes has a target: a directory, an address or brokers, and a topic or a stream
-- that is not empty, whatever of these the configuration leaves out.
pub new-HasTarget : (io : NewIo) (cfg : MqConfig) (s : Sender) → new io cfg ≡ ok s → HasTarget s
unfolding new
new-HasTarget io cfg s h = elim (Bool-cases (is_noop cfg.kind)) [
  | inl a ↦ subst HasTarget (ok_inj (rw (new, a) at h)) tt
  | inr a ↦ elim (Bool-cases (text_eq cfg.kind (codes "file"))) [
    | inl b ↦ file-HasTarget io cfg.file cfg.topic s (rw (new, a, b) at h)
    | inr b ↦ elim (Bool-cases (text_eq cfg.kind (codes "redis"))) [
      | inl d ↦ redis-HasTarget io cfg.redis cfg.topic s (rw (new, a, b, d) at h)
      | inr d ↦ elim (Bool-cases (text_eq cfg.kind (codes "kafka"))) [
        | inl e ↦ kafka-HasTarget cfg.kafka cfg.topic s (rw (new, a, b, d, e) at h)
        | inr e ↦ let k = rw (new, a, b, d, e) at h in cc
      ]
    ]
  ]
]
