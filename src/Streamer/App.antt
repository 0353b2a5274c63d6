-- ===== src/Streamer/App.antt =====
-- apps/rust-structured-streamer/src/app.rs and worker/dynamic_pool.rs: a completed batch is
-- validated, deduplicated, stored, projected, announced, and only then are its offsets committed.
-- `Services` is everything the program calls and does not implement.
pub mod Stored
pub mod Durable
pub mod Loss
pub mod Accounts
pub mod Successes
pub mod Announced
pub mod Healthy
pub mod Delivery
pub mod Progress
use fps_anticheat_data_platf.Prelude.{
  ℕ, Bool, true, false, not, ◌||◌, String, Option, none, some, List, [], ◌∷◌, ◌++◌, map, length,
  ltb, is_empty, if◌then◌else◌,
}
use fps_anticheat_data_platf.Prelude.Float.{Float, Arithmetic}
use fps_anticheat_data_platf.Prelude.Text.{concat}
use fps_anticheat_data_platf.Prelude.Result
use fps_anticheat_data_platf.Prelude.Result.{Result, ok, err}
use fps_anticheat_data_platf.Streamer.Worker
use fps_anticheat_data_platf.Streamer.Worker.Local.{WorkerServices}
use fps_anticheat_data_platf.Streamer.Bronze.{events_to_record_batch}
use fps_anticheat_data_platf.Streamer.Parquet.{record_batch_to_parquet_bytes}
use fps_anticheat_data_platf.Streamer.Domain.{AnyEnvelope}
use fps_anticheat_data_platf.Streamer.Accumulator.{
  Span, PartitionOffsets, CompletedBatch, BatchAccumulator, Poll, poll_step,
}
use fps_anticheat_data_platf.Streamer.Validator.{ValidationOutcome, validate_batch}
use fps_anticheat_data_platf.Streamer.Dedup.{DeduplicateOutcome, deduplicate_batch}
use fps_anticheat_data_platf.Streamer.Breaker.{CircuitBreakerState, open_circuit, can_spawn}
use fps_anticheat_data_platf.Streamer.Storage.{
  PartitionOffsetMetadata, BatchManifest, Calendar, generate_bronze_path, generate_manifest_path,
  upload_parquet, upload_manifest,
}
use fps_anticheat_data_platf.Streamer.Producer.{
  NativeWorkerResult, GoldReadyEvent, KafkaEventProducer, publish_gold_ready,
}
use fps_anticheat_data_platf.Streamer.Consumer.{commit_partition_offsets}
use fps_anticheat_data_platf.Streamer.Action.{
  AppError, worker, kafka, display, Position, Effect, World, Action, pure, raise, lift, call, ◌>>=◌,
  ◌>>◌,
}

-- What the application calls: each `fault` may depend on every call before, and `none` is success.
-- The object store, Sha256 of bytes, and the Arrow and Parquet libraries are those of the worker.
pub record Services (B W R : Type 0) : Type 0 where
  pub native : WorkerServices B W R
  pub sha256 : String → String
  pub rfc3339 : String → Bool
  pub one : Float
  pub f32 : Arithmetic
  pub calendar : Calendar
  -- the clock where the keys, the manifest and the announcements take the time from it
  pub now : String
  pub processing_timestamp : String
  pub created_at : String
  pub manifest_json : BatchManifest → Result String (List ℕ)
  pub event_json : GoldReadyEvent → Result String (List ℕ)
  pub send_fault : List Effect → Option String
  pub commit_fault : List Effect → Option String
  pub refuses : Position → Option String
  -- /proc/stat and /proc/meminfo at the time of the call
  pub proc : List Effect → Option String × Option String
  -- whether the breaker's lock is poisoned
  pub poisoned : List Effect → Bool
  pub raw_topic : String
  pub producer : KafkaEventProducer

unfoldable pub offset_metadata : PartitionOffsets → List PartitionOffsetMetadata
offset_metadata [] = []
offset_metadata (s ∷ rest) =
    record { partition = s.partition; min_offset = s.min_offset; max_offset = s.max_offset }
    ∷ offset_metadata rest

unfoldable pub create_manifest :
    String → String → PartitionOffsets → ℕ → ℕ → ℕ → ℕ → String → String → String → BatchManifest
unfolding offset_metadata
create_manifest topic batch_id offsets total valid invalid duplicate data_path checksum now =
    record {
      batch_id = batch_id;
      source_topic = topic;
      partition_offsets = offset_metadata offsets;
      total_records_read = total;
      valid_records_count = valid;
      invalid_records_count = invalid;
      duplicate_records_count = duplicate;
      data_object_path = data_path;
      checksum_sha256 = checksum;
      processing_timestamp = now;
    }

module _ {B W R : Type 0} (s : Services B W R) where
  -- Arrow conversion and Parquet encoding of the unique records
  unfoldable pub encode : List AnyEnvelope → Result AppError (List ℕ)
  unfolding events_to_record_batch record_batch_to_parquet_bytes
  encode events =
      Result.◌>>=◌ (events_to_record_batch s.native.lib events)
        (record_batch_to_parquet_bytes s.native.parquet)

  -- `DynamicWorkerPool::process_manifest`
  unfoldable pub process_manifest : String → Action NativeWorkerResult
  unfolding Worker.process_manifest
  process_manifest manifest_key w =
      if s.poisoned w.log
      then (err (worker "Circuit-breaker lock bị poison"), w)
      else let (stat, mem) = s.proc w.log in
        let (breaker, allowed) = can_spawn s.f32 stat mem w.breaker in
        let w' = record w { breaker = breaker } in
        if allowed then Worker.process_manifest s.native manifest_key w' else (
          err (
              worker (
                concat (
                  "Circuit breaker OPEN; giữ Kafka offset cho manifest '" ∷ manifest_key ∷ "'"
                  ∷ []))),
          w',
        )

  -- `DynamicWorkerPool::circuit_breaker_state`
  unfoldable pub circuit_breaker_state : World → CircuitBreakerState
  circuit_breaker_state w = if s.poisoned w.log then open_circuit else w.breaker.state

  unfoldable pub manifest_of :
      CompletedBatch → ValidationOutcome → DeduplicateOutcome → String → String → BatchManifest
  unfolding create_manifest
  manifest_of batch val dedup bronze_path checksum =
      create_manifest s.raw_topic batch.batch_id batch.partition_offsets batch.record_count
        val.valid_count val.invalid_count dedup.duplicate_count bronze_path checksum
        s.processing_timestamp

  -- what `process_completed_batch` does with unique records before the commit
  unfoldable pub store_batch : CompletedBatch → ValidationOutcome → DeduplicateOutcome → Action ℕ
  store_batch batch val dedup = do
    parquet_bytes ← lift (encode dedup.unique_records)
    let bronze_path = generate_bronze_path s.calendar batch.batch_id s.now
    checksum ←
        upload_parquet s.native.sha256_bytes s.native.store.put_fault bronze_path parquet_bytes
    let manifest = manifest_of batch val dedup bronze_path checksum
    let manifest_path = generate_manifest_path s.calendar batch.batch_id s.now
    upload_manifest s.manifest_json s.native.store.put_fault manifest_path manifest
    worker_result ← process_manifest manifest_path
    publish_gold_ready s.sha256 s.event_json s.send_fault s.producer s.created_at batch.batch_id
        worker_result

  -- `.map_err(|e| AppError::Kafka(format!(…)))` on the commit
  abbrev pub rewrapped :
      String → Result AppError (Unit {0}) × World → Result AppError (Unit {0}) × World
  rewrapped what (ok _, w) = (ok tt, w)
  rewrapped what (err e, w) = (err (kafka (concat (what ∷ ": " ∷ display e ∷ []))), w)

  unfoldable pub commit_batch : String → CompletedBatch → Action (Unit {0})
  commit_batch what batch w =
      rewrapped what
        (commit_partition_offsets s.raw_topic s.refuses s.commit_fault batch.partition_offsets w)

  unfoldable pub process_outcomes :
      CompletedBatch → ValidationOutcome → DeduplicateOutcome → Action (Unit {0})
  process_outcomes batch val dedup =
      if not (is_empty dedup.unique_records)
      then (do
        store_batch batch val dedup
        commit_batch "Fail-Close: Commit partition offsets thất bại" batch)
      else if ltb 0 val.invalid_count
          || ltb 0 dedup.duplicate_count
          || not (is_empty batch.malformed_messages)
      then commit_batch "Fail-Close: Commit invalid-only partition offsets thất bại" batch
      else pure tt

  unfoldable pub process_completed_batch : CompletedBatch → Action (Unit {0})
  process_completed_batch batch =
      let val = validate_batch s.rfc3339 s.one batch.events in
      process_outcomes batch val (deduplicate_batch val.valid_records)

  abbrev pub process_if : Option CompletedBatch → Action (Unit {0})
  process_if none = pure tt
  process_if (some batch) = process_completed_batch batch

  -- the rounds of `run`; the first failing batch ends it
  unfoldable pub run : List Poll → BatchAccumulator → Action BatchAccumulator
  run [] a = pure a
  run (p ∷ ps) a = do
    let (a', maybe_completed) = poll_step s.sha256 p a
    process_if maybe_completed
    run ps a'
