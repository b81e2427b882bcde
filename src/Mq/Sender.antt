-- ===== src/Mq/Sender.antt =====
-- internal/mq/mq.go and the constructors of internal/mq/file.go, redis.go and kafka.go. The clients of
-- Redis and Kafka are parameters: what Ping, XAdd and WriteMessages answer is an input.
use agent_ssh.Base.{Bool, not, ◌||◌, List, [], ◌∷◌, if◌then◌else◌}
use agent_ssh.Base.Path.{join}
use agent_ssh.Base.Result.{Result, ok, err}
use agent_ssh.Base.Text.{Text, codes, text_eq}
use agent_ssh.Config.Types.{FileMqConfig, RedisMqConfig, KafkaMqConfig, MqConfig}

-- noopSender, fileSender, redisSender and kafkaSender, with what Send needs of them.
pub data Sender : Type 0 where
  noop : Sender
  file_sender : (dir topic : Text) → Sender
  redis_sender : (addr stream : Text) → Sender
  kafka_sender : (brokers : List Text) (topic : Text) → Sender

pub data NewError : Type 0 where
  unsupported_type dir_required mkdir_failed addr_required ping_failed brokers_required : NewError

-- What the file system and the Redis server answer.
pub record NewIo : Type 0 where
  pub mkdir_all : Text → Bool
  pub ping : Text → Bool

abbrev pub default_topic : Text
default_topic = codes "agent-logs"

unfoldable pub topic_or_default : Text → Text
topic_or_default topic = if text_eq topic [] then default_topic else topic

unfoldable pub new_file_sender : NewIo → FileMqConfig → Text → Result NewError Sender
unfolding topic_or_default
new_file_sender io cfg topic =
    let dir = join cfg.dir (topic_or_default topic) in
    if text_eq cfg.dir []
    then err dir_required
    else if not (io.mkdir_all dir)
    then err mkdir_failed
    else ok (file_sender dir (topic_or_default topic))

-- The stream of the configuration, else the topic, else the default.
unfoldable pub stream_of : RedisMqConfig → Text → Text
unfolding topic_or_default
stream_of cfg topic = if text_eq cfg.stream [] then topic_or_default topic else cfg.stream

unfoldable pub new_redis_sender : NewIo → RedisMqConfig → Text → Result NewError Sender
unfolding stream_of
new_redis_sender io cfg topic =
    if text_eq cfg.addr []
    then err addr_required
    else if not (io.ping cfg.addr)
    then err ping_failed
    else ok (redis_sender cfg.addr (stream_of cfg topic))

-- The topic of the Kafka section comes before the common one.
unfoldable pub kafka_topic : KafkaMqConfig → Text → Text
unfolding topic_or_default
kafka_topic cfg topic = if text_eq cfg.topic [] then topic_or_default topic else cfg.topic

unfoldable pub new_kafka_sender : KafkaMqConfig → Text → Result NewError Sender
unfolding kafka_topic
new_kafka_sender cfg topic = elim cfg.brokers [
  | [] ↦ err brokers_required
  | b ∷ bs ↦ ok (kafka_sender (b ∷ bs) (kafka_topic cfg topic))
]

unfoldable pub is_noop : Text → Bool
is_noop kind = text_eq kind [] || text_eq kind (codes "noop") || text_eq kind (codes "none")

unfoldable pub new : NewIo → MqConfig → Result NewError Sender
unfolding is_noop new_file_sender new_redis_sender new_kafka_sender
new io cfg =
    if is_noop cfg.kind
    then ok noop
    else if text_eq cfg.kind (codes "file")
    then new_file_sender io cfg.file cfg.topic
    else if text_eq cfg.kind (codes "redis")
    then new_redis_sender io cfg.redis cfg.topic
    else if text_eq cfg.kind (codes "kafka")
    then new_kafka_sender cfg.kafka cfg.topic
    else err unsupported_type
