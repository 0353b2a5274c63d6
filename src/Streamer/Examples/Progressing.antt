-- ===== src/Streamer/Examples/Progressing.antt =====
-- A run of the whole loop: a full batch, a batch without an event, and a message left in the buffer.
use fps_anticheat_data_platf.Prelude.{◌≡◌, refl, ◌++◌, true, List, [], ◌∷◌, is_empty, All}
use fps_anticheat_data_platf.Prelude.Int.{ℤ, pos}
use fps_anticheat_data_platf.Prelude.Text.{trim, all_hex}
use fps_anticheat_data_platf.Prelude.Result.{ok}
use fps_anticheat_data_platf.Streamer.Domain.{ConsumeOutcome, valid, invalid}
use fps_anticheat_data_platf.Streamer.Accumulator.{
  PartitionOffsets, BatchAccumulatorConfig, BatchAccumulator, CompletedBatch, new, Poll, received,
  poll_error, timed_out, poll_step,
}
use fps_anticheat_data_platf.Streamer.Accumulator.Batches.{Holds}
use fps_anticheat_data_platf.Streamer.Accumulator.Stream.{poll_all, outcomes_of, SplitsAs}
use fps_anticheat_data_platf.Streamer.Validator.{
  validate_batch, validate_each, validate_any, reasons_of, validate_event_id, validate_identifier,
  validate_payload, validate_player_stat, validate_common_times, check_each, push_if,
}
use fps_anticheat_data_platf.Streamer.Dedup.{deduplicate_batch, deduplicate_each, contains}
use fps_anticheat_data_platf.Streamer.Breaker.{can_spawn, read_cpu, read_mem, decide}
use fps_anticheat_data_platf.Streamer.Parquet.{read_parquet_bytes, collect_batches}
use fps_anticheat_data_platf.Streamer.Action.{Effect, World}
use fps_anticheat_data_platf.Streamer.App.{run}
use fps_anticheat_data_platf.Streamer.App.Durable.{deduplicated}
use fps_anticheat_data_platf.Streamer.App.Successes.{GivesBack}
use fps_anticheat_data_platf.Streamer.App.Progress.{
  StaysHealthy, IsReadable, Processed, run_gets_through,
}
use fps_anticheat_data_platf.Streamer.Examples.{good, bad, message, broken, start, watched}
use fps_anticheat_data_platf.Streamer.Examples.Application.{services-IsHealthy, three_table}
use fps_anticheat_data_platf.Streamer.Examples.Serving.{services, bronze_of_three}

abbrev three_at_most : BatchAccumulatorConfig
three_at_most = record { max_records = 3; max_bytes = 4096000; flush_interval = 100 }

abbrev rounds : List Poll
rounds =
    received 1 (valid (message good (pos 0) (pos 7)))
    ∷ received 2 (valid (message good (pos 0) (pos 8)))
    ∷ poll_error
    ∷ received 3 (valid (message bad (pos 0) (pos 9)))
    ∷ received 4 (invalid (broken (pos 0) (pos 10)))
    ∷ timed_out 900
    ∷ received 901 (valid (message good (pos 0) (pos 11)))
    ∷ []

abbrev span : ℤ → ℤ → PartitionOffsets
span first last = record { partition = pos 0; min_offset = first; max_offset = last } ∷ []

abbrev full : CompletedBatch
full = record {
  batch_id = "b1";
  events = good ∷ good ∷ bad ∷ [];
  malformed_messages = [];
  partition_offsets = span (pos 7) (pos 9);
  record_count = 3;
  estimated_bytes = 892;
}

abbrev malformed : CompletedBatch
malformed = record {
  batch_id = "b1";
  events = [];
  malformed_messages = broken (pos 0) (pos 10) ∷ [];
  partition_offsets = span (pos 10) (pos 10);
  record_count = 1;
  estimated_bytes = 148;
}

abbrev goal : BatchAccumulator × List CompletedBatch
goal = poll_all services.sha256 rounds (new three_at_most 0)

goal_batches : goal.1 ≡ full ∷ malformed ∷ []
unfolding poll_all poll_step new
goal_batches = refl

full_records : (deduplicated services full).unique_records ≡ good ∷ []
unfolding validate_batch validate_each validate_any reasons_of validate_event_id validate_identifier
    validate_payload validate_player_stat validate_common_times check_each push_if deduplicate_batch
    deduplicate_each contains trim all_hex
full_records = refl

malformed_records : is_empty (deduplicated services malformed).unique_records ≡ true
unfolding validate_batch validate_each deduplicate_batch deduplicate_each
malformed_records = refl

full-GivesBack : GivesBack services full
unfolding read_parquet_bytes collect_batches
full-GivesBack = record {
  manifest = λ checksum. (1 ∷ [], "{}", refl, refl, refl);
  bronze = λ table bytes made written some_row.
      (bronze_of_three ∷ [], refl, refl, rw (three_table table (rw full_records at made)) refl);
}

goal-IsReadable : All (IsReadable services) goal.1
goal-IsReadable =
    rw goal_batches ((λ _. full-GivesBack), ((λ e. absurd (cc (malformed_records, e))), tt))

services-StaysHealthy : StaysHealthy services (λ b. b ≡ watched)
unfolding can_spawn read_cpu read_mem decide
services-StaysHealthy = record {
  healthy = λ b e. rw e services-IsHealthy;
  stays = λ b l e. rw e refl;
}

run_gets_through_example :
    (rest : List ConsumeOutcome) × Holds rest goal.0
    × SplitsAs (outcomes_of rounds) goal.1 rest
    × (w' : World) × (log : List Effect) × (run services rounds (new three_at_most 0) start
        ≡ (ok goal.0, w'))
    × (w'.log ≡ [] ++ log)
    × Processed services goal.1 [] log
run_gets_through_example =
    run_gets_through services (λ b. b ≡ watched) services-StaysHealthy three_at_most 0 rounds start
      refl goal-IsReadable
