-- ===== src/Streamer/Examples/Application.antt =====
-- Runs of a batch through services that answer, and through services that refuse the events.
use fps_anticheat_data_platf.Prelude.{◌≡◌, refl, ◌++◌, true, false, List, [], ◌∷◌, is_empty}
use fps_anticheat_data_platf.Prelude.Int.{pos}
use fps_anticheat_data_platf.Prelude.Text.{trim, all_hex}
use fps_anticheat_data_platf.Prelude.Result.{ok, err}
use fps_anticheat_data_platf.Streamer.Accumulator.{CompletedBatch}
use fps_anticheat_data_platf.Streamer.Validator.{
  validate_batch, validate_each, validate_any, reasons_of, validate_event_id, validate_identifier,
  validate_payload, validate_player_stat, validate_common_times, check_each, push_if,
}
use fps_anticheat_data_platf.Streamer.Dedup.{deduplicate_batch, deduplicate_each, contains}
use fps_anticheat_data_platf.Streamer.Breaker.{can_spawn, read_cpu, read_mem, decide}
use fps_anticheat_data_platf.Streamer.Consumer.{
  positions_of, position_of, add_positions, commit_partition_offsets,
}
use fps_anticheat_data_platf.Streamer.Action.{Effect, committed, arrow, call}
use fps_anticheat_data_platf.Streamer.Action.Extends.{Quietly}
use fps_anticheat_data_platf.Streamer.App.{
  process_completed_batch, process_outcomes, store_batch, commit_batch, encode,
}
use fps_anticheat_data_platf.Streamer.App.Stored.{IsStored}
use fps_anticheat_data_platf.Streamer.App.Durable.{
  validated, deduplicated, process_completed_batch-ok, process_completed_batch-err,
}
use fps_anticheat_data_platf.Streamer.Action.{World}
use fps_anticheat_data_platf.Streamer.App.Healthy.{After, process_completed_batch_succeeds}
use fps_anticheat_data_platf.Streamer.Bronze.{events_to_record_batch}
use fps_anticheat_data_platf.Streamer.Parquet.{
  record_batch_to_parquet_bytes, read_parquet_bytes, collect_batches,
}
use fps_anticheat_data_platf.Streamer.Examples.Projection.{Table, tables, tables-IsArrow, height}
use fps_anticheat_data_platf.Streamer.Examples.Serving.{three, bronze_of_three, services, refusing}
use fps_anticheat_data_platf.Streamer.App.Successes.{IsHealthy, GivesBack}
use fps_anticheat_data_platf.Streamer.App.Loss.{process_completed_batch_drops}
use fps_anticheat_data_platf.Streamer.Examples.{batch_of, good, bad, broken, start, watched}

three_unique : is_empty (deduplicated services three).unique_records ≡ false
unfolding validate_batch validate_each validate_any reasons_of validate_event_id validate_identifier
    validate_payload validate_player_stat validate_common_times check_each push_if deduplicate_batch
    deduplicate_each contains trim all_hex
three_unique = refl

abbrev one_good : CompletedBatch
one_good = batch_of (good ∷ []) []

refused_fails :
    process_completed_batch refusing one_good start
    ≡ (err (arrow "Khởi tạo Arrow RecordBatch thất bại: schema"), start)
unfolding validate_batch validate_each validate_any reasons_of validate_event_id validate_identifier
    validate_payload validate_player_stat validate_common_times check_each push_if deduplicate_batch
    deduplicate_each contains trim all_hex process_completed_batch process_outcomes store_batch
    encode events_to_record_batch
refused_fails = refl

process_completed_batch-err_example : Quietly start start
process_completed_batch-err_example =
    process_completed_batch-err refusing one_good start start
      (arrow "Khởi tạo Arrow RecordBatch thất bại: schema") refused_fails

abbrev only_broken : CompletedBatch
only_broken = batch_of (bad ∷ []) (broken (pos 0) (pos 7) ∷ [])

nothing_left : is_empty (deduplicated services only_broken).unique_records ≡ true
unfolding validate_batch validate_each validate_any reasons_of validate_event_id validate_identifier
    validate_payload validate_player_stat validate_common_times check_each push_if deduplicate_batch
    deduplicate_each contains trim all_hex
nothing_left = refl

only_broken_runs :
    process_completed_batch services only_broken start
    ≡ (ok tt, (process_completed_batch services only_broken start).1)
unfolding validate_batch validate_each validate_any reasons_of validate_event_id validate_identifier
    validate_payload validate_player_stat validate_common_times check_each push_if deduplicate_batch
    deduplicate_each contains trim all_hex call commit_partition_offsets add_positions position_of
    process_completed_batch process_outcomes commit_batch
only_broken_runs = refl

process_completed_batch_drops_example :
    (process_completed_batch services only_broken start).1.log
    ≡ [] ++ committed "raw" (positions_of only_broken.partition_offsets) ∷ []
process_completed_batch_drops_example =
    process_completed_batch_drops services only_broken start
      (process_completed_batch services only_broken start).1 refl refl nothing_left only_broken_runs

pub services-IsHealthy : IsHealthy services watched
unfolding can_spawn read_cpu read_mem decide record_batch_to_parquet_bytes
services-IsHealthy = record {
  works = record {
    disk = λ op path. refl;
    buffers = λ path bytes. refl;
    puts = λ log. refl;
    encodes = λ b. (height b.cols ∷ [], refl);
    arrow = tables-IsArrow;
  };
  store = record { reads = λ log key bytes e. rw e refl };
  permits = λ l. refl;
  directories = λ l. ("/tmp/w", refl);
  writes_event = λ e. (2 ∷ [], refl);
  sends = λ l. refl;
  commits = λ l. refl;
  takes = λ p. refl;
  unpoisoned = λ l. refl;
  allows = λ l. refl;
}

pub three_records : (deduplicated services three).unique_records ≡ good ∷ []
unfolding validate_batch validate_each validate_any reasons_of validate_event_id validate_identifier
    validate_payload validate_player_stat validate_common_times check_each push_if deduplicate_batch
    deduplicate_each contains trim all_hex
three_records = refl

pub three_table :
    (table : Table) → events_to_record_batch tables (good ∷ []) ≡ ok table → bronze_of_three ≡ table
unfolding events_to_record_batch
three_table table made = cc

services-GivesBack : GivesBack services three
unfolding read_parquet_bytes collect_batches
services-GivesBack = record {
  manifest = λ checksum. (1 ∷ [], "{}", refl, refl, refl);
  bronze = λ table bytes made written some_row.
      (bronze_of_three ∷ [], refl, refl, rw (three_table table (rw three_records at made)) refl);
}

process_completed_batch_succeeds_example :
    (w' : World) × (es : List Effect) × (process_completed_batch services three start ≡ (ok tt, w'))
    × (w'.log ≡ [] ++ (es ++ committed "raw" (positions_of three.partition_offsets) ∷ []))
    × After services (is_empty (deduplicated services three).unique_records) three [] es
process_completed_batch_succeeds_example =
    process_completed_batch_succeeds services watched three start services-IsHealthy
      services-GivesBack refl refl refl

-- the same run, as the premise of the theorem about a batch that succeeds
three_runs : (w' : World) × (process_completed_batch services three start ≡ (ok tt, w'))
three_runs =
    let (w', es, runs, _, _) =
      process_completed_batch_succeeds services watched three start services-IsHealthy
        services-GivesBack refl refl refl in
    (w', runs)

process_completed_batch-ok_example :
    (es : List Effect) × (three_runs.0.log
      ≡ [] ++ (es ++ committed "raw" (positions_of three.partition_offsets) ∷ []))
    × IsStored services three (validated services three) (deduplicated services three) [] es
process_completed_batch-ok_example =
    process_completed_batch-ok services three start three_runs.0 refl three_unique three_runs.1
