-- ===== src/Streamer/Config.antt =====
-- apps/rust-structured-streamer/src/config.rs: the settings that the environment gives, and the
-- limits that app.rs makes of them. `env` answers `none` for a variable that is not set or is no
-- text; `cpus` is what `available_parallelism` answers.
pub mod FailClosed
use fps_anticheat_data_platf.Prelude.{
  ℕ, ◌*◌, Bool, true, false, not, ◌&&◌, ◌||◌, String, Option, none, some, List, [], ◌∷◌, unwrap_or,
  ◌==◌, if◌then◌else◌,
}
use fps_anticheat_data_platf.Prelude.Text.{is_blank, concat, trim, parse_u64}
use fps_anticheat_data_platf.Prelude.Result.{Result, ok, err, ◌>>=◌}
use fps_anticheat_data_platf.Streamer.Accumulator.{BatchAccumulatorConfig}
use fps_anticheat_data_platf.Streamer.Action.{AppError, config}
use text.Mathlib.Text.{starts_with}

pub record Config : Type 0 where
  pub kafka_brokers : String
  pub kafka_raw_topic : String
  pub kafka_gold_ready_topic : String
  pub kafka_group_id : String
  pub minio_endpoint : String
  pub minio_bucket : String
  pub minio_access_key : String
  pub minio_secret_key : String
  pub batch_size : ℕ
  pub flush_interval_ms : ℕ
  pub r_max_workers : ℕ
  pub r_worker_timeout_seconds : ℕ
  pub max_message_bytes : ℕ

abbrev pub nonblank : String → String → Result AppError String
nonblank key value =
    if is_blank (trim value)
    then err (
        config (
          concat (
            "Biến môi trường bắt buộc '" ∷ key ∷ "' không được để trống (Fail-Close Triggered)"
            ∷ [])))
    else ok (trim value)

abbrev required : String → Option String → Result AppError String
required key none =
    err
      (config (concat ("Thiếu biến môi trường bắt buộc '" ∷ key ∷ "' (Fail-Close Triggered)" ∷ [])))
required key (some value) = nonblank key value

unfoldable pub get_required_env : (String → Option String) → String → Result AppError String
unfolding trim
get_required_env env key = required key (env key)

abbrev number_or : String → String → Option ℕ → Result AppError ℕ
number_or key value (some n) = ok n
number_or key value none = err (
    config (
      concat (
        "Biến '"
        ∷ key
        ∷ "' có giá trị '"
        ∷ trim value
        ∷ "' không hợp lệ — phải là số nguyên dương (Fail-Close Triggered)"
        ∷ [])))

abbrev optional : String → ℕ → Option String → Result AppError ℕ
optional key default none = ok default
optional key default (some value) =
    if is_blank (trim value) then ok default else number_or key value (parse_u64 (trim value))

-- `parse_optional_usize` and `parse_optional_u64`, which differ in the type's name only
unfoldable pub parse_optional : (String → Option String) → String → ℕ → Result AppError ℕ
unfolding trim parse_u64
parse_optional env key default = optional key default (env key)

unfoldable pub check_endpoint : String → Result AppError (Unit {0})
check_endpoint minio_endpoint =
    if not (starts_with minio_endpoint "http://") && not (starts_with minio_endpoint "https://")
    then err (
        config (
          concat (
            "MINIO_ENDPOINT không hợp lệ: '" ∷ minio_endpoint
            ∷ "' — phải bắt đầu bằng 'http://' hoặc 'https://' (Fail-Close Triggered)" ∷ [])))
    else ok tt

unfoldable pub check_numbers : Config → Result AppError Config
check_numbers c =
    if c.batch_size == 0 || c.flush_interval_ms == 0 || c.r_max_workers == 0
    then err (config "BATCH_SIZE, FLUSH_INTERVAL_MS và R_MAX_WORKERS phải lớn hơn 0")
    else ok c

unfoldable pub from_env : (String → Option String) → Option ℕ → Result AppError Config
from_env env cpus = do
  kafka_brokers ← get_required_env env "KAFKA_BROKERS"
  kafka_raw_topic ← get_required_env env "KAFKA_RAW_TOPIC"
  kafka_gold_ready_topic ← get_required_env env "KAFKA_GOLD_READY_TOPIC"
  kafka_group_id ← get_required_env env "KAFKA_GROUP_ID"
  minio_endpoint ← get_required_env env "MINIO_ENDPOINT"
  minio_bucket ← get_required_env env "MINIO_BUCKET"
  minio_access_key ← get_required_env env "MINIO_ACCESS_KEY"
  minio_secret_key ← get_required_env env "MINIO_SECRET_KEY"
  checked ← check_endpoint minio_endpoint
  batch_size ← parse_optional env "BATCH_SIZE" 1000
  flush_interval_ms ← parse_optional env "FLUSH_INTERVAL_MS" 1000
  r_max_workers ← parse_optional env "R_MAX_WORKERS" (unwrap_or cpus 4)
  r_worker_timeout_seconds ← parse_optional env "R_WORKER_TIMEOUT_SECONDS" 900
  max_message_bytes ← parse_optional env "KAFKA_MAX_MESSAGE_BYTES" 1048576
  check_numbers (record {
    kafka_brokers = kafka_brokers;
    kafka_raw_topic = kafka_raw_topic;
    kafka_gold_ready_topic = kafka_gold_ready_topic;
    kafka_group_id = kafka_group_id;
    minio_endpoint = minio_endpoint;
    minio_bucket = minio_bucket;
    minio_access_key = minio_access_key;
    minio_secret_key = minio_secret_key;
    batch_size = batch_size;
    flush_interval_ms = flush_interval_ms;
    r_max_workers = r_max_workers;
    r_worker_timeout_seconds = r_worker_timeout_seconds;
    max_message_bytes = max_message_bytes;
  })

-- the `BatchAccumulatorConfig` of `StreamProcessorApp::new`
unfoldable pub accumulator_config : Config → BatchAccumulatorConfig
accumulator_config c = record {
  max_records = c.batch_size;
  max_bytes = 10 * 1024 * 1024;
  flush_interval = c.flush_interval_ms;
}
