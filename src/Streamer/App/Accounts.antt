-- ===== src/Streamer/App/Accounts.antt =====
-- The counts of a manifest.
use fps_anticheat_data_platf.Prelude.{◌+◌, ◌≡◌, ap, String, List, length, arith}
use fps_anticheat_data_platf.Streamer.Domain.{AnyEnvelope, InvalidKafkaMessage, ConsumeOutcome}
use fps_anticheat_data_platf.Streamer.Accumulator.{CompletedBatch}
use fps_anticheat_data_platf.Streamer.Accumulator.Batches.{IsBatchOf, length-parts}
use fps_anticheat_data_platf.Streamer.Validator.Partition.{validate_batch_partition}
use fps_anticheat_data_platf.Streamer.Dedup.First.{deduplicate_batch_lem}
use fps_anticheat_data_platf.Streamer.App.{Services, manifest_of}
use fps_anticheat_data_platf.Streamer.App.Durable.{validated, deduplicated}

-- The manifest of a batch that the buffer built from the messages of `seg` accounts for each of
-- them once: the total is the number of messages, which is the valid, the invalid and the
-- malformed ones together, and the valid ones are the unique and the duplicate ones together.
pub manifest_accounts :
    {B W R : Type 0} (s : Services B W R) (seg : List ConsumeOutcome) (b : CompletedBatch)
    (path checksum : String)
    → IsBatchOf seg b
    → let m = manifest_of s b (validated s b) (deduplicated s b) path checksum in
      (m.total_records_read ≡ length seg)
      × (m.total_records_read
          ≡ m.valid_records_count + m.invalid_records_count + length b.malformed_messages)
      × (m.valid_records_count
          ≡ length (deduplicated s b).unique_records + m.duplicate_records_count)
unfolding manifest_of
manifest_accounts s seg b path checksum h =
    let part = validate_batch_partition s.rfc3339 s.one b.events in
    let uniq = deduplicate_batch_lem (validated s b).valid_records in
    let sizes = ap (λ (x : List AnyEnvelope). length x) h.events in
    let broken = ap (λ (x : List InvalidKafkaMessage). length x) h.malformed in
    (
      h.count,
      omega (arith, h.count, part.4, length-parts seg, sizes, broken),
      omega (arith, part.2, uniq.3),
    )
