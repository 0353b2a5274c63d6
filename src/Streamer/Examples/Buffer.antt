-- ===== src/Streamer/Examples/Buffer.antt =====
-- Runs of the buffer, of the commit's positions and of the classification.
use mathlib.Core.List.{Permᴰ}
use fps_anticheat_data_platf.Prelude.{
  ℕ, ◌+◌, ◌≡◌, refl, true, String, Option, none, some, List, [], ◌∷◌, length, All, arith,
}
use fps_anticheat_data_platf.Prelude.Int.{ℤ, pos, ◌+ℤ◌, ltb_ℤ}
use fps_anticheat_data_platf.Prelude.Result.{Result, ok, err}
use fps_anticheat_data_platf.Streamer.Domain.{AnyEnvelope, ConsumeOutcome, valid, invalid}
use fps_anticheat_data_platf.Streamer.Accumulator.{
  Span, BatchAccumulatorConfig, CompletedBatch, new, Poll, received, poll_error, timed_out,
  poll_step, generate_batch_id, pending_count, event_bytes, invalid_bytes,
}
use fps_anticheat_data_platf.Streamer.Accumulator.Offsets.{
  lookup, Occurs, partition_of, offset_of, range_of, range_of-IsRange, range_from,
}
use fps_anticheat_data_platf.Streamer.Accumulator.Batches.{Holds, IsBatchOf}
use fps_anticheat_data_platf.Streamer.Accumulator.Stream.{
  poll_all, outcomes_of, SplitsAs, poll_all-splits,
}
use fps_anticheat_data_platf.Streamer.Accumulator.Bounds.{
  IsUsable, IsBelow, Bounded, poll_bytes, poll_step-Bounded,
}
use fps_anticheat_data_platf.Streamer.Accumulator.Identity.{IsKeyed, generate_batch_id-perm}
use fps_anticheat_data_platf.Streamer.Consumer.{BorrowedMessage, positions_of, recv_outcome}
use fps_anticheat_data_platf.Streamer.Consumer.Positions.{next_for, positions_of_lem}
use fps_anticheat_data_platf.Streamer.Consumer.Outcomes.{Received, recv_outcome_lem}
use fps_anticheat_data_platf.Streamer.App.{manifest_of}
use fps_anticheat_data_platf.Streamer.App.Durable.{validated, deduplicated}
use fps_anticheat_data_platf.Streamer.App.Accounts.{manifest_accounts}
use fps_anticheat_data_platf.Streamer.Examples.{good, bad, message, broken}
use fps_anticheat_data_platf.Streamer.Examples.Serving.{services}

abbrev digest : String → String
digest s = s

abbrev pub small : BatchAccumulatorConfig
small = record { max_records = 2; max_bytes = 4096; flush_interval = 100 }

abbrev pub rounds : List Poll
rounds =
    received 1 (valid (message good (pos 0) (pos 7)))
    ∷ poll_error
    ∷ received 2 (invalid (broken (pos 0) (pos 9)))
    ∷ received 3 (valid (message bad (pos 1) (pos 4)))
    ∷ timed_out 60
    ∷ []

poll_all-splits_example :
    (rest : List ConsumeOutcome) × Holds rest (poll_all digest rounds (new small 0)).0
    × SplitsAs (outcomes_of rounds) (poll_all digest rounds (new small 0)).1 rest
poll_all-splits_example = poll_all-splits digest small 0 rounds

small-IsUsable : IsUsable small
small-IsUsable = record { records = omega arith; bytes = omega arith }

new-IsBelow : IsBelow small (new small 0)
unfolding new pending_count
new-IsBelow = record { config = refl; records = omega arith; bytes = omega arith }

poll_step-Bounded_example :
    Bounded small
      (poll_bytes (received 1 (valid (message good (pos 0) (pos 7)))))
      (poll_step digest (received 1 (valid (message good (pos 0) (pos 7)))) (new small 0))
poll_step-Bounded_example =
    poll_step-Bounded digest small (received 1 (valid (message good (pos 0) (pos 7)))) (new small 0)
      small-IsUsable new-IsBelow

abbrev span : ℤ → Span
span p = record { partition = p; min_offset = pos 3; max_offset = pos 8 }

two-IsKeyed : IsKeyed (span (pos 1) ∷ span (pos 0) ∷ [])
two-IsKeyed = (((λ e. ground (arith, e)), tt), (tt, tt))

generate_batch_id-perm_example :
    generate_batch_id digest (span (pos 1) ∷ span (pos 0) ∷ [])
    ≡ generate_batch_id digest (span (pos 0) ∷ span (pos 1) ∷ [])
generate_batch_id-perm_example =
    generate_batch_id-perm digest (span (pos 1) ∷ span (pos 0) ∷ [])
      (span (pos 0) ∷ span (pos 1) ∷ []) two-IsKeyed (Permᴰ.swap refl refl)

abbrev pair : List ConsumeOutcome
pair = valid (message good (pos 0) (pos 7)) ∷ invalid (broken (pos 0) (pos 9)) ∷ []

abbrev pair_batch : CompletedBatch
pair_batch = record {
  batch_id = "b";
  events = good ∷ [];
  malformed_messages = broken (pos 0) (pos 9) ∷ [];
  partition_offsets = record { partition = pos 0; min_offset = pos 7; max_offset = pos 9 } ∷ [];
  record_count = 2;
  estimated_bytes = 466;
}

pair_spans : (q : ℤ) → lookup q pair_batch.partition_offsets ≡ range_of q pair
unfolding lookup range_of range_from
pair_spans q = ground arith

pair-IsBatchOf : IsBatchOf pair pair_batch
unfolding event_bytes invalid_bytes
pair-IsBatchOf = record {
  nonempty = refl;
  events = refl;
  malformed = refl;
  spans = λ q. rw pair_spans (range_of-IsRange q pair);
  count = refl;
  bytes = refl;
}

positions_of_lem_example :
    (next_for (pos 0) (positions_of pair_batch.partition_offsets) ≡ some (pos 9 +ℤ pos 1))
    × Occurs (pos 0) (pos 9) pair
    × All (λ x. partition_of x ≡ pos 0 → ltb_ℤ (offset_of x) (pos 9 +ℤ pos 1) ≡ true) pair
unfolding lookup
positions_of_lem_example =
    positions_of_lem (pos 0) (pos 7) (pos 9) pair pair_batch pair-IsBatchOf refl refl

manifest_accounts_example :
    let m =
      manifest_of services pair_batch
        (validated services pair_batch)
        (deduplicated services pair_batch)
        "k"
        "00" in
    (m.total_records_read ≡ length pair)
    × (m.total_records_read
        ≡ m.valid_records_count + m.invalid_records_count + length pair_batch.malformed_messages)
    × (m.valid_records_count
        ≡ length (deduplicated services pair_batch).unique_records + m.duplicate_records_count)
manifest_accounts_example = manifest_accounts services pair pair_batch "k" "00" pair-IsBatchOf

abbrev no_text : List ℕ → Option String
no_text bytes = none

abbrev parses_good : List ℕ → Result String AnyEnvelope
parses_good [] = err "EOF"
parses_good (x ∷ xs) = ok good

abbrev delivered : BorrowedMessage
delivered = record {
  topic = "raw";
  partition = pos 0;
  offset = pos 7;
  key = none;
  payload = some (123 ∷ 125 ∷ []);
}

recv_outcome_lem_example :
    Received parses_good 100 (ok delivered) (recv_outcome no_text parses_good 100 (ok delivered))
recv_outcome_lem_example = recv_outcome_lem no_text parses_good 100 (ok delivered)
