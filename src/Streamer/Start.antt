-- ===== src/Streamer/Start.antt =====
-- apps/rust-structured-streamer/src/main.rs and the constructors that it calls: those of app.rs,
-- ingest/consumer.rs, storage/minio.rs, transport/producer.rs and worker/dynamic_pool.rs. What the
-- client libraries answer is a parameter; logging is left out.
pub mod Started
use fps_anticheat_data_platf.Prelude.{
  ℕ, Bool, true, String, Option, none, some, List, [], ◌∷◌, ltb, if◌then◌else◌,
}
use fps_anticheat_data_platf.Prelude.Float.{Arithmetic}
use fps_anticheat_data_platf.Prelude.Text.{concat, show_ℕ}
use fps_anticheat_data_platf.Prelude.Result.{Result, ok, err, ◌>>=◌}
use fps_anticheat_data_platf.Streamer.Action.{AppError, kafka, storage, World}
use fps_anticheat_data_platf.Streamer.Accumulator
use fps_anticheat_data_platf.Streamer.Accumulator.{BatchAccumulator, Poll}
use fps_anticheat_data_platf.Streamer.Breaker.{ResourceCircuitBreaker, default_limits}
use fps_anticheat_data_platf.Streamer.Config.{Config, from_env, accumulator_config}
use fps_anticheat_data_platf.Streamer.Producer.{KafkaEventProducer}
use fps_anticheat_data_platf.Streamer.App.{Services, run}

-- the settings of a librdkafka client, in the order in which they are set
abbrev pub ClientConfig : Type 0
ClientConfig = List (String × String)

-- the settings of an `AmazonS3Builder`
pub record AmazonS3Builder : Type 0 where
  pub endpoint : String
  pub bucket_name : String
  pub access_key_id : String
  pub secret_access_key : String
  pub region : String
  pub allow_http : Bool

-- The client libraries: a consumer `K`, an object store `O` and a producer `P` are made of settings.
pub record Clients (K O P : Type 0) : Type 0 where
  pub create_consumer : ClientConfig → Result String K
  pub subscribe : K → String → Option String
  pub build_store : AmazonS3Builder → Result String O
  pub create_producer : ClientConfig → Result String P

abbrev pub consumer_config : Config → ClientConfig
consumer_config c =
    ("bootstrap.servers", c.kafka_brokers)
    ∷ ("group.id", c.kafka_group_id)
    ∷ ("enable.auto.commit", "false")
    ∷ ("enable.auto.offset.store", "false")
    ∷ ("auto.offset.reset", "earliest")
    ∷ ("session.timeout.ms", "45000")
    ∷ ("fetch.message.max.bytes", show_ℕ c.max_message_bytes)
    ∷ []

abbrev pub producer_config : Config → ClientConfig
producer_config c =
    ("bootstrap.servers", c.kafka_brokers)
    ∷ ("enable.idempotence", "true")
    ∷ ("acks", "all")
    ∷ ("compression.type", "none")
    ∷ ("message.timeout.ms", "30000")
    ∷ []

abbrev pub store_config : Config → AmazonS3Builder
store_config c = record {
  endpoint = c.minio_endpoint;
  bucket_name = c.minio_bucket;
  access_key_id = c.minio_access_key;
  secret_access_key = c.minio_secret_key;
  region = "us-east-1";
  allow_http = true;
}

pub record KafkaConsumer (K : Type 0) : Type 0 where
  pub consumer : K
  pub topic : String
  pub max_payload_bytes : ℕ

pub record MinioWriter (O : Type 0) : Type 0 where
  pub store : O
  pub bucket : String

-- the permits of the spawner's semaphore, and the breaker
pub record DynamicWorkerPool : Type 0 where
  pub capacity : ℕ
  pub circuit_breaker : ResourceCircuitBreaker

pub record StreamProcessorApp (K O P : Type 0) : Type 0 where
  pub config : Config
  pub consumer : KafkaConsumer K
  pub accumulator : BatchAccumulator
  pub writer : MinioWriter O
  pub worker_pool : DynamicWorkerPool
  pub event_producer : P × KafkaEventProducer

abbrev made {ℓ} : {A : Type ℓ} → (String → AppError) → String → Result String A → Result AppError A
made wrap what (ok a) = ok a
made wrap what (err e) = err (wrap (concat (what ∷ e ∷ [])))

abbrev subscribed : String → Option String → Result AppError (Unit {0})
subscribed topic none = ok tt
subscribed topic (some e) =
    err (kafka (concat ("Subscribe topic " ∷ topic ∷ " thất bại: " ∷ e ∷ [])))

-- `max_capacity.max(1)`
abbrev at_least_1 : ℕ → ℕ
at_least_1 n = if ltb 0 n then n else 1

unfoldable pub new_pool : Arithmetic → ℕ → DynamicWorkerPool
new_pool f32 max_capacity = record {
  capacity = at_least_1 max_capacity;
  circuit_breaker = default_limits f32;
}

module _ {K O P : Type 0} (clients : Clients K O P) where
  unfoldable pub new_consumer : Config → Result AppError (KafkaConsumer K)
  new_consumer config = do
    consumer ←
        made kafka "Tạo Kafka StreamConsumer thất bại: "
          (clients.create_consumer (consumer_config config))
    _ ← subscribed config.kafka_raw_topic (clients.subscribe consumer config.kafka_raw_topic)
    ok (record {
      consumer = consumer;
      topic = config.kafka_raw_topic;
      max_payload_bytes = config.max_message_bytes;
    })

  unfoldable pub new_writer : Config → Result AppError (MinioWriter O)
  new_writer config = do
    store ←
        made storage "Khởi tạo AmazonS3 ObjectStore thất bại: "
          (clients.build_store (store_config config))
    ok (record { store = store; bucket = config.minio_bucket })

  unfoldable pub new_producer : Config → Result AppError (P × KafkaEventProducer)
  new_producer config = do
    producer ←
        made kafka "Tạo Kafka event producer thất bại: "
          (clients.create_producer (producer_config config))
    ok (
      producer,
      record { gold_ready_topic = config.kafka_gold_ready_topic; bucket = config.minio_bucket },
    )

  -- `StreamProcessorApp::new`, at a time of the clock
  unfoldable pub new : Arithmetic → ℕ → Config → Result AppError (StreamProcessorApp K O P)
  unfolding new_consumer new_writer new_producer new_pool Accumulator.new accumulator_config
  new f32 clock config = do
    consumer ← new_consumer config
    writer ← new_writer config
    event_producer ← new_producer config
    ok (record {
      config = config;
      consumer = consumer;
      accumulator = Accumulator.new (accumulator_config config) clock;
      writer = writer;
      worker_pool = new_pool f32 config.r_max_workers;
      event_producer = event_producer;
    })

-- what an app calls: the services that its consumer, its store and its producer connect it to, with
-- the topics and the bucket that it was made with
abbrev pub services_of :
    {B W R K O P : Type 0}
    → (K → O → P → Services B W R)
    → StreamProcessorApp K O P
    → Services B W R
services_of connect app =
    record (connect app.consumer.consumer app.writer.store app.event_producer.0) {
      raw_topic = app.consumer.topic;
      producer = app.event_producer.1;
    }

abbrev pub world_of : {K O P : Type 0} → StreamProcessorApp K O P → World
world_of app = record { log = []; breaker = app.worker_pool.circuit_breaker }

module _ {B W R K O P : Type 0} (clients : Clients K O P) (connect : K → O → P → Services B W R)
    (f32 : Arithmetic) where
  abbrev run_app :
      List Poll
      → Result AppError (StreamProcessorApp K O P)
      → Result AppError BatchAccumulator × World
  run_app polls (ok app) = run (services_of connect app) polls app.accumulator (world_of app)
  run_app polls (err e) = (err e, record { log = []; breaker = default_limits f32 })

  -- `main`, for the rounds of the loop that follow
  unfoldable pub main :
      (String → Option String) → Option ℕ → ℕ → List Poll → Result AppError BatchAccumulator × World
  unfolding from_env new run
  main env cpus clock polls = run_app polls (from_env env cpus >>= new clients f32 clock)
