-- ===== src/Streamer/Storage.antt =====
-- apps/rust-structured-streamer/src/storage: manifest.rs, and of minio.rs the object keys and the
-- uploads of the Bronze file and of the manifest; Downloads and Objects
-- have its other operations. Sha256, chrono,
-- serde_json and the object store are parameters: a date is (year, month, day).
pub mod Downloads
pub mod Objects
pub mod DeadLetters
pub mod Consistent
pub mod Keys
use fps_anticheat_data_platf.Prelude.{
  ℕ, String, Option, List, [], ◌∷◌, unwrap_or, ltb, if◌then◌else◌,
}
use fps_anticheat_data_platf.Prelude.Int.{ℤ}
use fps_anticheat_data_platf.Prelude.Text.{concat, show_ℕ, show_ℤ}
use fps_anticheat_data_platf.Prelude.Result.{Result, ok, err}
use fps_anticheat_data_platf.Streamer.Action.{
  AppError, storage, Effect, put, Action, pure, lift, call, ◌>>=◌, ◌>>◌,
}

pub record PartitionOffsetMetadata : Type 0 where
  pub partition : ℤ
  pub min_offset : ℤ
  pub max_offset : ℤ

pub record BatchManifest : Type 0 where
  pub batch_id : String
  pub source_topic : String
  pub partition_offsets : List PartitionOffsetMetadata
  pub total_records_read : ℕ
  pub valid_records_count : ℕ
  pub invalid_records_count : ℕ
  pub duplicate_records_count : ℕ
  pub data_object_path : String
  pub checksum_sha256 : String
  pub processing_timestamp : String

pub record Date : Type 0 where
  pub year : ℤ
  pub month : ℕ
  pub day : ℕ

-- chrono: the date of an RFC 3339 text, if it is one, and today
pub record Calendar : Type 0 where
  pub parse_from_rfc3339 : String → Option Date
  pub today : Date

-- `{:02}`
unfoldable pub two_digits : ℕ → String
unfolding show_ℕ
two_digits n = if ltb n 10 then concat ("0" ∷ show_ℕ n ∷ []) else show_ℕ n

unfoldable pub parse_date_or_now : Calendar → String → Date
parse_date_or_now calendar time_str =
    unwrap_or (calendar.parse_from_rfc3339 time_str) calendar.today

unfoldable pub dated_path : String → String → String → Calendar → String → String → String
unfolding two_digits show_ℤ parse_date_or_now
dated_path layer stem suffix calendar batch_id time_str =
    let date = parse_date_or_now calendar time_str in
    concat (
      layer
      ∷ "/year="
      ∷ show_ℤ date.year
      ∷ "/month="
      ∷ two_digits date.month
      ∷ "/day="
      ∷ two_digits date.day
      ∷ "/"
      ∷ stem
      ∷ batch_id
      ∷ suffix
      ∷ [])

unfoldable pub generate_bronze_path : Calendar → String → String → String
unfolding dated_path
generate_bronze_path = dated_path "bronze/player-stat" "pubg_player_stat_" ".parquet"

unfoldable pub generate_kill_events_path : Calendar → String → String → String
unfolding dated_path
generate_kill_events_path = dated_path "bronze/kill-events" "pubg_kill_events_" ".parquet"

unfoldable pub generate_invalid_path : Calendar → String → String → String
unfolding dated_path
generate_invalid_path = dated_path "bronze/invalid" "pubg_invalid_" ".json"

unfoldable pub generate_malformed_path : Calendar → String → String → String
unfolding dated_path
generate_malformed_path = dated_path "bronze/invalid-kafka" "malformed_" ".json"

unfoldable pub generate_manifest_path : Calendar → String → String → String
unfolding dated_path
generate_manifest_path = dated_path "manifests" "manifest_" ".json"

module _ (sha256 : List ℕ → String) (fault : List Effect → Option String) where
  unfoldable pub upload_parquet : String → List ℕ → Action String
  unfolding call
  upload_parquet path_str bytes = do
    let checksum = sha256 bytes
    call fault
        (λ e.
          storage
            (concat ("Upload Parquet file lên MinIO path " ∷ path_str ∷ " thất bại: " ∷ e ∷ [])))
        (put path_str bytes)
    pure checksum

abbrev encoded : Result String (List ℕ) → Result AppError (List ℕ)
encoded (ok bytes) = ok bytes
encoded (err e) = err (storage (concat ("Mã hóa BatchManifest JSON thất bại: " ∷ e ∷ [])))

module _ (to_json : BatchManifest → Result String (List ℕ))
    (fault : List Effect → Option String) where
  unfoldable pub upload_manifest : String → BatchManifest → Action (Unit {0})
  unfolding call
  upload_manifest path_str manifest = do
    json_bytes ← lift (encoded (to_json manifest))
    call fault
        (λ e. storage (
          concat ("Upload BatchManifest JSON lên MinIO path " ∷ path_str ∷ " thất bại: " ∷ e ∷ [])))
        (put path_str json_bytes)
