-- ===== src/Streamer/Start/Started.antt =====
-- What the streamer has done when it starts, and when it does not.
use mathlib.Core.Path.{subst}
use fps_anticheat_data_platf.Prelude.{
  ℕ, ◌<◌, ◌≡◌, ◌⊎◌, inl, inr, refl, sym, String, Option, none, some, List, [], ◌∷◌, arith,
  Option-cases, str_eq, if◌then◌else◌,
}
use fps_anticheat_data_platf.Prelude.Float.{Arithmetic}
use fps_anticheat_data_platf.Prelude.Result.{Result, ok, err, Result-cases, ok_injective}
use fps_anticheat_data_platf.Streamer.Action.{AppError, World}
use fps_anticheat_data_platf.Streamer.Accumulator
use fps_anticheat_data_platf.Streamer.Accumulator.{BatchAccumulator, Poll}
use fps_anticheat_data_platf.Streamer.Accumulator.Stream.{outcomes_of}
use fps_anticheat_data_platf.Streamer.Config.{Config, from_env, accumulator_config}
use fps_anticheat_data_platf.Streamer.Config.FailClosed.{IsConfig, from_env-ok}
use fps_anticheat_data_platf.Streamer.App.{Services}
use fps_anticheat_data_platf.Streamer.App.Delivery.{Ends, run-Ends}
use fps_anticheat_data_platf.Streamer.Start.{
  ClientConfig, Clients, consumer_config, producer_config, store_config, StreamProcessorApp,
  new_consumer, new_writer, new_producer, new_pool, new, services_of, world_of, main,
}

-- the value that a client has for a setting: the one set last
abbrev pub setting : String → ClientConfig → Option String
setting key [] = none
setting key ((k, v) ∷ rest) =
    let later = setting key rest in
    elim later [ some x ↦ some x | none ↦ if str_eq k key then some v else none ]

module _ {K O P : Type 0} (clients : Clients K O P) where
  -- the clients of an app, made of the settings of a configuration
  pub record IsBuilt (c : Config) (app : StreamProcessorApp K O P) : Type 0 where
    pub config : app.config ≡ c
    pub consumer : clients.create_consumer (consumer_config c) ≡ ok app.consumer.consumer
    pub subscribed : clients.subscribe app.consumer.consumer c.kafka_raw_topic ≡ none
    pub topic : app.consumer.topic ≡ c.kafka_raw_topic
    pub payloads : app.consumer.max_payload_bytes ≡ c.max_message_bytes
    pub store : clients.build_store (store_config c) ≡ ok app.writer.store
    pub producer : clients.create_producer (producer_config c) ≡ ok app.event_producer.0
    pub gold_topic : app.event_producer.1.gold_ready_topic ≡ c.kafka_gold_ready_topic
    pub bucket : app.event_producer.1.bucket ≡ c.minio_bucket
    pub workers : 0 < c.r_max_workers → app.worker_pool.capacity ≡ c.r_max_workers

  capacity-new_pool : (f32 : Arithmetic) (n : ℕ) → 0 < n → (new_pool f32 n).capacity ≡ n
  unfolding new_pool
  capacity-new_pool f32 n h = ground arith

  new-IsBuilt :
      (f32 : Arithmetic) (clock : ℕ) (c : Config) (app : StreamProcessorApp K O P)
      → new clients f32 clock c ≡ ok app
      → IsBuilt c app × (app.accumulator ≡ Accumulator.new (accumulator_config c) clock)
  unfolding new new_consumer new_writer new_producer
  new-IsBuilt f32 clock c app h =
      elim (Result-cases (clients.create_consumer (consumer_config c))) [
        | inr (e, k) ↦ absurd (cc (rw k at h))
        | inl (consumer, k) ↦ elim (Option-cases (clients.subscribe consumer c.kafka_raw_topic)) [
          | inr (e, t) ↦ absurd (cc (rw (k, t) at h))
          | inl t ↦ elim (Result-cases (clients.build_store (store_config c))) [
            | inr (e, o) ↦ absurd (cc (rw (k, t, o) at h))
            | inl (store, o) ↦ elim (Result-cases (clients.create_producer (producer_config c))) [
              | inr (e, p) ↦ absurd (cc (rw (k, t, o, p) at h))
              | inl (producer, p) ↦
                  subst
                    (λ a.
                      IsBuilt c a × (a.accumulator ≡ Accumulator.new (accumulator_config c) clock))
                    (ok_injective (rw (k, t, o, p) at h))
                    (
                      record {
                        config = refl;
                        consumer = k;
                        subscribed = t;
                        topic = refl;
                        payloads = refl;
                        store = o;
                        producer = p;
                        gold_topic = refl;
                        bucket = refl;
                        workers = capacity-new_pool f32 c.r_max_workers;
                      },
                      refl,
                    )
            ]
          ]
        ]
      ]

module _ {B W R K O P : Type 0} (clients : Clients K O P) (connect : K → O → P → Services B W R)
    (f32 : Arithmetic) (env : String → Option String) (cpus : Option ℕ) (clock : ℕ)
    (polls : List Poll) where
  -- a start that was refused
  pub record IsRefused (r : Result AppError BatchAccumulator × World) : Type 0 where
    pub error : AppError
    pub refuses : r.0 ≡ err error
    pub nothing_done : r.1.log ≡ []

  -- an app that runs, from the environment and through its clients
  pub record IsRunning (r : Result AppError BatchAccumulator × World) : Type 0 where
    pub app : StreamProcessorApp K O P
    pub configured : IsConfig env cpus app.config
    pub built : IsBuilt clients app.config app
    pub manual : setting "enable.auto.commit" (consumer_config app.config) ≡ some "false"
    pub unstored : setting "enable.auto.offset.store" (consumer_config app.config) ≡ some "false"
    pub acknowledged : setting "acks" (producer_config app.config) ≡ some "all"
    pub idempotent : setting "enable.idempotence" (producer_config app.config) ≡ some "true"
    pub delivers : Ends (services_of connect app) (outcomes_of polls) (world_of app) r

  -- Whatever the environment, the client libraries and the services answer, the streamer either does
  -- not start, and then nothing is written, sent or committed; or it runs on the settings of the
  -- environment with clients made of them, whose consumer commits no offset by itself and whose
  -- producer waits for all replicas; and its loop, over the services that those clients connect it
  -- to, commits a segment of the messages only after it has stored and announced the segment's batch,
  -- or left no event of it after validation and deduplication, and commits nothing from the first
  -- batch on that fails.
  pub main_lem : let r = main clients connect f32 env cpus clock polls in IsRefused r ⊎ IsRunning r
  unfolding main
  main_lem = elim (Result-cases (from_env env cpus)) [
    | inr (e, k) ↦ inl (record { error = e; refuses = rw k refl; nothing_done = rw k refl })
    | inl (c, k) ↦ elim (Result-cases (new clients f32 clock c)) [
      | inr (e, n) ↦
          inl (record { error = e; refuses = rw (k, n) refl; nothing_done = rw (k, n) refl })
      | inl (app, n) ↦
          let (built, buffer) = new-IsBuilt clients f32 clock c app n in
          rw (k, n)
            (inr (record {
              app = app;
              configured = rw built.config (from_env-ok env cpus c k);
              built = subst (λ d. IsBuilt clients d app) (sym built.config) built;
              manual = refl;
              unstored = refl;
              acknowledged = refl;
              idempotent = refl;
              delivers = rw buffer (
                  run-Ends (services_of connect app) (accumulator_config c) clock polls
                    (world_of app));
            }))
    ]
  ]
