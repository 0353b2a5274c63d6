-- ===== src/Streamer/Config/FailClosed.antt =====
-- The settings that the streamer starts with.
use fps_anticheat_data_platf.Prelude.{
  ℕ, ◌<◌, ◌≡◌, ◌⊎◌, inl, inr, true, false, ◌||◌, String, Option, none, some, unwrap_or, arith,
  Option-cases,
}
use fps_anticheat_data_platf.Prelude.Text.{is_blank, trim, parse_u64}
use fps_anticheat_data_platf.Prelude.Result.{ok, bind-ok}
use fps_anticheat_data_platf.Streamer.Accumulator.Bounds.{IsUsable}
use fps_anticheat_data_platf.Streamer.Config.{
  Config, get_required_env, parse_optional, check_endpoint, check_numbers, from_env,
  accumulator_config,
}
use text.Mathlib.Text.{starts_with}

-- the variable is set, and its trimmed text is `v`, which is not empty
abbrev pub HasText : (String → Option String) → String → String → Type 0
HasText env key v =
    (value : String) × (env key ≡ some value) × (trim value ≡ v) × (is_blank v ≡ false)

-- the variable is unset or blank and `n` is the default, or its trimmed text reads as `n`
abbrev pub IsNumber : (String → Option String) → String → ℕ → ℕ → Type 0
IsNumber env key default n =
    ((env key ≡ none) × (n ≡ default))
    ⊎ ((value : String) × (env key ≡ some value)
        × (((is_blank (trim value) ≡ true) × (n ≡ default))
            ⊎ ((is_blank (trim value) ≡ false) × (parse_u64 (trim value) ≡ some n))))

get_required_env-HasText :
    (env : String → Option String) (key v : String)
    → get_required_env env key ≡ ok v
    → HasText env key v
unfolding get_required_env
get_required_env-HasText env key v h = elim (Option-cases (env key)) [
  | inl e ↦ absurd (ground (arith, e, h))
  | inr (value, e) ↦ (value, e, ground (arith, e, h), ground (arith, e, h))
]

parse_optional-IsNumber :
    (env : String → Option String) (key : String) (default n : ℕ)
    → parse_optional env key default ≡ ok n
    → IsNumber env key default n
unfolding parse_optional
parse_optional-IsNumber env key default n h = elim (Option-cases (env key)) [
  | inl e ↦ inl (e, ground (arith, e, h))
  | inr (value, e) ↦ inr (
    value,
    e,
    elim (Option-cases (parse_u64 (trim value))) [
      | inl k ↦ ground (arith, e, k, h)
      | inr (m, k) ↦ ground (arith, e, k, h)
    ],
  )
]

pub record IsConfig (env : String → Option String) (cpus : Option ℕ) (c : Config) : Type 0 where
  pub brokers : HasText env "KAFKA_BROKERS" c.kafka_brokers
  pub raw_topic : HasText env "KAFKA_RAW_TOPIC" c.kafka_raw_topic
  pub gold_topic : HasText env "KAFKA_GOLD_READY_TOPIC" c.kafka_gold_ready_topic
  pub group : HasText env "KAFKA_GROUP_ID" c.kafka_group_id
  pub endpoint : HasText env "MINIO_ENDPOINT" c.minio_endpoint
  pub bucket : HasText env "MINIO_BUCKET" c.minio_bucket
  pub access_key : HasText env "MINIO_ACCESS_KEY" c.minio_access_key
  pub secret_key : HasText env "MINIO_SECRET_KEY" c.minio_secret_key
  pub scheme :
      (starts_with c.minio_endpoint "http://" || starts_with c.minio_endpoint "https://") ≡ true
  pub batch_size : IsNumber env "BATCH_SIZE" 1000 c.batch_size
  pub flush_interval : IsNumber env "FLUSH_INTERVAL_MS" 1000 c.flush_interval_ms
  pub workers : IsNumber env "R_MAX_WORKERS" (unwrap_or cpus 4) c.r_max_workers
  pub timeout : IsNumber env "R_WORKER_TIMEOUT_SECONDS" 900 c.r_worker_timeout_seconds
  pub message_bytes : IsNumber env "KAFKA_MAX_MESSAGE_BYTES" 1048576 c.max_message_bytes
  pub usable : IsUsable (accumulator_config c)
  pub flushes : 0 < c.flush_interval_ms
  pub has_worker : 0 < c.r_max_workers

check_endpoint-ok :
    (s : String) (u : Unit {0})
    → check_endpoint s ≡ ok u
    → (starts_with s "http://" || starts_with s "https://") ≡ true
unfolding check_endpoint
check_endpoint-ok s u h = ground (arith, h)

check_numbers-ok :
    (c d : Config)
    → check_numbers c ≡ ok d
    → (d ≡ c) × (0 < c.batch_size) × (0 < c.flush_interval_ms) × (0 < c.r_max_workers)
unfolding check_numbers
check_numbers-ok c d h = ground (arith, h)

accumulator_config-IsUsable : (c : Config) → 0 < c.batch_size → IsUsable (accumulator_config c)
unfolding accumulator_config
accumulator_config-IsUsable c h = record { records = h; bytes = omega arith }

-- The streamer starts only with settings from the environment: every required variable is set and
-- not blank, the endpoint is an HTTP address, an optional number is the default only where the
-- variable is unset or blank and otherwise parses, and no limit of the buffer, of the timer or of
-- the workers is 0.
pub from_env-ok :
    (env : String → Option String) (cpus : Option ℕ) (c : Config)
    → from_env env cpus ≡ ok c
    → IsConfig env cpus c
unfolding from_env
from_env-ok env cpus c h0 =
    let (a1, e1, h1) = bind-ok _ _ h0 in
    let (a2, e2, h2) = bind-ok _ _ h1 in
    let (a3, e3, h3) = bind-ok _ _ h2 in
    let (a4, e4, h4) = bind-ok _ _ h3 in
    let (a5, e5, h5) = bind-ok _ _ h4 in
    let (a6, e6, h6) = bind-ok _ _ h5 in
    let (a7, e7, h7) = bind-ok _ _ h6 in
    let (a8, e8, h8) = bind-ok _ _ h7 in
    let (u, e9, h9) = bind-ok _ _ h8 in
    let (n1, k1, i1) = bind-ok _ _ h9 in
    let (n2, k2, i2) = bind-ok _ _ i1 in
    let (n3, k3, i3) = bind-ok _ _ i2 in
    let (n4, k4, i4) = bind-ok _ _ i3 in
    let (n5, k5, i5) = bind-ok _ _ i4 in
    let (same, size, flush, workers) = check_numbers-ok _ c i5 in
    rw same (record {
      brokers = get_required_env-HasText env "KAFKA_BROKERS" a1 e1;
      raw_topic = get_required_env-HasText env "KAFKA_RAW_TOPIC" a2 e2;
      gold_topic = get_required_env-HasText env "KAFKA_GOLD_READY_TOPIC" a3 e3;
      group = get_required_env-HasText env "KAFKA_GROUP_ID" a4 e4;
      endpoint = get_required_env-HasText env "MINIO_ENDPOINT" a5 e5;
      bucket = get_required_env-HasText env "MINIO_BUCKET" a6 e6;
      access_key = get_required_env-HasText env "MINIO_ACCESS_KEY" a7 e7;
      secret_key = get_required_env-HasText env "MINIO_SECRET_KEY" a8 e8;
      scheme = check_endpoint-ok a5 u e9;
      batch_size = parse_optional-IsNumber env "BATCH_SIZE" 1000 n1 k1;
      flush_interval = parse_optional-IsNumber env "FLUSH_INTERVAL_MS" 1000 n2 k2;
      workers = parse_optional-IsNumber env "R_MAX_WORKERS" (unwrap_or cpus 4) n3 k3;
      timeout = parse_optional-IsNumber env "R_WORKER_TIMEOUT_SECONDS" 900 n4 k4;
      message_bytes = parse_optional-IsNumber env "KAFKA_MAX_MESSAGE_BYTES" 1048576 n5 k5;
      usable = accumulator_config-IsUsable _ size;
      flushes = flush;
      has_worker = workers;
    })
