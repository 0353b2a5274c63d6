-- ===== src/Streamer/App/Loss.antt =====
-- What happens to a batch none of whose messages survives validation.
use fps_anticheat_data_platf.Prelude.{
  ◌<◌, ◌≡◌, refl, true, false, not, ◌&&◌, ◌||◌, List, [], ◌∷◌, ◌++◌, is_empty, length, ltb, arith,
}
use fps_anticheat_data_platf.Prelude.Result.{ok}
use fps_anticheat_data_platf.Streamer.Accumulator.{CompletedBatch}
use fps_anticheat_data_platf.Streamer.Validator.Partition.{validate_batch_partition}
use fps_anticheat_data_platf.Streamer.Dedup.First.{deduplicate_batch_lem}
use fps_anticheat_data_platf.Streamer.Consumer.{positions_of}
use fps_anticheat_data_platf.Streamer.Action.{committed, World}
use fps_anticheat_data_platf.Streamer.App.{Services, process_outcomes, process_completed_batch}
use fps_anticheat_data_platf.Streamer.App.Durable.{validated, deduplicated, commit_batch_lem}

empty_length {ℓ} : {A : Type ℓ} (xs : List A) → is_empty xs ≡ true → length xs ≡ 0
empty_length [] h = refl
empty_length (x ∷ xs) h = cc

pub nonempty_length {ℓ} : {A : Type ℓ} (xs : List A) → is_empty xs ≡ false → 0 < length xs
nonempty_length [] h = cc
nonempty_length (x ∷ xs) h = omega arith

module _ {B W R : Type 0} (s : Services B W R) where
  -- the third test of `process_completed_batch` holds for every batch with a message in it
  pub something_dropped :
      (b : CompletedBatch)
      → (is_empty b.events && is_empty b.malformed_messages) ≡ false
      → is_empty (deduplicated s b).unique_records ≡ true
      → (ltb 0 (validated s b).invalid_count
          || ltb 0 (deduplicated s b).duplicate_count
          || not (is_empty b.malformed_messages))
        ≡ true
  something_dropped b n u =
      let part = validate_batch_partition s.rfc3339 s.one b.events in
      let uniq = deduplicate_batch_lem (validated s b).valid_records in
      let none_left = empty_length (deduplicated s b).unique_records u in
      ground (arith, nonempty_length b.events, part.2, part.4, uniq.3, none_left)

  -- If no event of a batch is valid, a successful round adds one effect only: the commit of the
  -- batch's offsets. In particular the malformed payloads and the refused events are written
  -- nowhere, and Kafka will not deliver them again.
  pub process_completed_batch_drops :
      (b : CompletedBatch) (w w' : World)
      → is_empty b.partition_offsets ≡ false
      → (is_empty b.events && is_empty b.malformed_messages) ≡ false
      → is_empty (deduplicated s b).unique_records ≡ true
      → process_completed_batch s b w ≡ (ok tt, w')
      → w'.log ≡ w.log ++ committed s.raw_topic (positions_of b.partition_offsets) ∷ []
  unfolding process_completed_batch process_outcomes
  process_completed_batch_drops b w w' tracked n u h =
      commit_batch_lem s "Fail-Close: Commit invalid-only partition offsets thất bại" b w w' tracked
        (rw (u, something_dropped b n u) at h)
