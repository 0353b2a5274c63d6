-- ===== src/Streamer/Storage/Objects.antt =====
-- apps/rust-structured-streamer/src/storage/minio.rs: the checks of the store, and the uploads of local
-- files, of refused records and of malformed messages. The object store, the local disk, Sha256,
-- Base64 and serde_json are parameters.
use fps_anticheat_data_platf.Prelude.{
  ℕ, String, Option, none, some, List, [], ◌∷◌, ◌++◌, map, is_empty, if◌then◌else◌,
}
use fps_anticheat_data_platf.Prelude.Int.{ℤ}
use fps_anticheat_data_platf.Prelude.Text.{concat}
use fps_anticheat_data_platf.Prelude.Result.{Result, ok, err}
use fps_anticheat_data_platf.Streamer.Domain.{InvalidKafkaMessage}
use fps_anticheat_data_platf.Streamer.Validator.{InvalidEnvelopeRecord}
use fps_anticheat_data_platf.Streamer.Action.{
  AppError, storage, put, World, Action, pure, lift, call, ◌>>=◌, ◌>>◌,
}
use fps_anticheat_data_platf.Streamer.Storage.Downloads.{
  LocalFile, Disk, read, Head, found, not_found, failed, ObjectStore, or_error, unless_fault,
}

pub record MalformedKafkaDlqRecord : Type 0 where
  pub topic : String
  pub partition : ℤ
  pub offset : ℤ
  pub error_reason : String
  pub payload_base64 : String
  pub payload_sha256 : String

unfoldable pub malformed_record :
    (List ℕ → String) → (List ℕ → String) → InvalidKafkaMessage → MalformedKafkaDlqRecord
malformed_record base64 sha256 message = record {
  topic = message.topic;
  partition = message.partition;
  offset = message.offset;
  error_reason = message.error_reason;
  payload_base64 = base64 message.raw_payload;
  payload_sha256 = sha256 message.raw_payload;
}

module _ (store : ObjectStore) where
  -- `preflight_check`
  abbrev probed : Head → Result AppError (Unit {0})
  probed found = ok tt
  probed not_found = ok tt
  probed (failed e) = err (
      storage (
        concat (
          "S3 Pre-flight Check thất bại — Không thể kết nối hoặc xác thực MinIO S3: " ∷ e
          ∷ " (Fail-Close Triggered)" ∷ [])))

  unfoldable pub preflight_check : Action (Unit {0})
  preflight_check w = lift (probed (store.head w.log ".preflight-probe")) w

  abbrev pub keep_paths : List String
  keep_paths =
      "bronze/player-stat/.keep" ∷ "bronze/kill-events/.keep" ∷ "bronze/invalid/.keep"
      ∷ "manifests/.keep" ∷ "silver/players/.keep" ∷ "silver/matches/.keep"
      ∷ "silver/player-match/.keep" ∷ "silver/kill-events/.keep"
      ∷ "gold/player-match-features/.keep" ∷ "models/.keep" ∷ "predictions/.keep" ∷ []

  -- `let _ = put(…)`: a failure is dropped
  abbrev put_ignored : String → Option String → World → World
  put_ignored path none w = record w { log = w.log ++ put path [] ∷ [] }
  put_ignored path (some e) w = w

  abbrev keep_path : String → Head → World → World
  keep_path path found w = w
  keep_path path _ w = put_ignored path (store.put_fault w.log) w

  unfoldable pub ensure_each : List String → World → World
  ensure_each [] w = w
  ensure_each (path ∷ rest) w = ensure_each rest (keep_path path (store.head w.log path) w)

  unfoldable pub ensure_datalake_structure : Action (Unit {0})
  unfolding ensure_each
  ensure_datalake_structure w = (ok tt, ensure_each keep_paths w)

  module _ (disk : Disk) (sha256 : List ℕ → String) where
    unfoldable pub upload_file : LocalFile → String → Action String
    unfolding call
    upload_file file object_key = do
      lift (
          unless_fault
            (λ e.
              storage
                (concat ("Không thể đọc file local '" ∷ file.path ∷ "' để upload: " ∷ e ∷ [])))
            (disk.fault read file.path))
      let checksum = sha256 file.bytes
      call store.put_fault
          (λ e. storage (
            concat (
              "Upload file '" ∷ file.path ∷ "' lên MinIO key '" ∷ object_key ∷ "' thất bại: " ∷ e
              ∷ [])))
          (put object_key file.bytes)
      pure checksum

  unfoldable pub upload_invalid_records :
      (List InvalidEnvelopeRecord → Result String (List ℕ))
      → String
      → List InvalidEnvelopeRecord
      → Action (Unit {0})
  unfolding call
  upload_invalid_records to_json path_str records = if is_empty records then pure tt else do
    json_bytes ← lift (
        or_error (λ e. storage (concat ("Mã hóa Invalid Records JSON thất bại: " ∷ e ∷ [])))
          (to_json records))
    call store.put_fault
        (λ e. storage (
          concat
            ("Upload Invalid Records JSON lên MinIO path " ∷ path_str ∷ " thất bại: " ∷ e ∷ [])))
        (put path_str json_bytes)

  unfoldable pub upload_malformed_messages :
      (List ℕ → String)
      → (List ℕ → String)
      → (List MalformedKafkaDlqRecord → Result String (List ℕ))
      → String
      → List InvalidKafkaMessage
      → Action (Unit {0})
  unfolding malformed_record call
  upload_malformed_messages base64 sha256 to_json path_str messages =
      if is_empty messages then pure tt else do
        json_bytes ← lift (
            or_error (λ e. storage (concat ("Mã hóa malformed DLQ thất bại: " ∷ e ∷ [])))
              (to_json (map (malformed_record base64 sha256) messages)))
        call store.put_fault
            (λ e. storage (concat ("Upload malformed DLQ '" ∷ path_str ∷ "' thất bại: " ∷ e ∷ [])))
            (put path_str json_bytes)
