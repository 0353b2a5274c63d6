-- ===== src/Streamer/Accumulator/Bounds.antt =====
-- The limits of the configuration, for the buffer and for a batch.
use fps_anticheat_data_platf.Prelude.{
  ℕ, ◌+◌, ◌≤◌, ◌<◌, ◌≡◌, Bool, true, false, ◌||◌, String, Option, none, some, [], ◌∷◌, arith,
  length-append, leb, is_empty, ◌&&◌, Bool-cases, inl, inr,
}
use fps_anticheat_data_platf.Streamer.Domain.{
  ConsumedMessage, InvalidKafkaMessage, ConsumeOutcome, valid, invalid,
}
use fps_anticheat_data_platf.Streamer.Accumulator.{
  CompletedBatch, BatchAccumulatorConfig, BatchAccumulator, pending_count,
  mark_batch_start_if_empty, event_bytes, invalid_bytes, flush, flush_if_full, store, store_invalid,
  push, push_invalid, push_outcome, Poll, received, poll_error, timed_out, poll_step,
  should_flush_timer,
}
use fps_anticheat_data_platf.Streamer.Accumulator.Batches.{outcome_bytes}
use fps_anticheat_data_platf.Streamer.Accumulator.Offsets.{track_nonempty}

-- `Config::from_env` refuses a batch size of 0, and the byte limit is the constant 10 MiB.
pub record IsUsable (c : BatchAccumulatorConfig) : Type 0 where
  pub records : 0 < c.max_records
  pub bytes : 0 < c.max_bytes

-- between two rounds the buffer is below both limits
pub record IsBelow (c : BatchAccumulatorConfig) (a : BatchAccumulator) : Type 0 where
  pub config : a.config ≡ c
  pub records : pending_count a < c.max_records
  pub bytes : a.current_bytes < c.max_bytes

-- a handed-on batch is over no limit by more than its last message of `size` bytes
pub record FitsBatch (c : BatchAccumulatorConfig) (size : ℕ) (b : CompletedBatch) : Type 0 where
  pub records : b.record_count ≤ c.max_records
  pub bytes : b.estimated_bytes < c.max_bytes + size

abbrev pub Bounded : BatchAccumulatorConfig → ℕ → BatchAccumulator × Option CompletedBatch → Type 0
Bounded c size (a, none) = IsBelow c a
Bounded c size (a, some b) = IsBelow c a × FitsBatch c size b

some_spans : (a b : Bool) → b ≡ false → (a && b) ≡ true → ⊥
some_spans true b e k = cc
some_spans false b e k = cc

-- a buffer with one message more than the limits allow for
record IsNear (c : BatchAccumulatorConfig) (size : ℕ) (a : BatchAccumulator) : Type 0 where
  config : a.config ≡ c
  records : pending_count a ≤ c.max_records
  bytes : a.current_bytes < c.max_bytes + size

module _ (sha256 : String → String) (c : BatchAccumulatorConfig) (usable : IsUsable c)
    (now : ℕ) where
  flush-Bounded :
      (size : ℕ) (a : BatchAccumulator)
      → IsNear c size a
      → (is_empty a.events && is_empty a.partition_offsets ≡ true → IsBelow c a)
      → Bounded c size (flush sha256 now a)
  unfolding flush pending_count
  flush-Bounded size a near idle =
      elim (Bool-cases (is_empty a.events && is_empty a.partition_offsets)) [
        | inl e ↦ rw e (idle e)
        | inr e ↦ rw e (
          record { config = near.config; records = usable.records; bytes = usable.bytes },
          record { records = near.records; bytes = near.bytes },
        )
      ]

  flush_if_full-Bounded :
      (size : ℕ) (a : BatchAccumulator)
      → IsNear c size a
      → is_empty a.partition_offsets ≡ false
      → Bounded c size (flush_if_full sha256 now a)
  unfolding flush_if_full pending_count
  flush_if_full-Bounded size a near kept =
      elim (Bool-cases
        (leb a.config.max_records (pending_count a) || leb a.config.max_bytes a.current_bytes)) [
          | inl e ↦ rw e (
              flush-Bounded size a near (λ k.
                absurd (some_spans (is_empty a.events) (is_empty a.partition_offsets) kept k)))
          | inr e ↦ rw e (record {
            config = near.config;
            records = ground (arith, near.config);
            bytes = ground (arith, near.config);
          })
        ]

  mark-IsBelow : (a : BatchAccumulator) → IsBelow c a → IsBelow c (mark_batch_start_if_empty now a)
  unfolding mark_batch_start_if_empty pending_count
  mark-IsBelow a h = ground (arith, h)

  store-IsNear :
      (m : ConsumedMessage) (a : BatchAccumulator)
      → IsBelow c a
      → IsNear c (event_bytes m.envelope) (store m a)
  unfolding store pending_count
  store-IsNear m a h = record {
    config = h.config;
    records = omega (arith, h.records, length-append a.events (m.envelope ∷ []));
    bytes = omega (arith, h.bytes);
  }

  store_invalid-IsNear :
      (m : InvalidKafkaMessage) (a : BatchAccumulator)
      → IsBelow c a
      → IsNear c (invalid_bytes m) (store_invalid m a)
  unfolding store_invalid pending_count
  store_invalid-IsNear m a h = record {
    config = h.config;
    records = omega (arith, h.records, length-append a.malformed_messages (m ∷ []));
    bytes = omega (arith, h.bytes);
  }

  push_outcome-Bounded :
      (x : ConsumeOutcome) (a : BatchAccumulator)
      → IsBelow c a
      → Bounded c (outcome_bytes x) (push_outcome sha256 now x a)
  unfolding push_outcome push push_invalid
  push_outcome-Bounded (valid m) a h =
      flush_if_full-Bounded (event_bytes m.envelope) (store m (mark_batch_start_if_empty now a))
        (store-IsNear m _ (mark-IsBelow a h))
        (unfold store in track_nonempty m.partition m.offset _)
  push_outcome-Bounded (invalid m) a h =
      flush_if_full-Bounded (invalid_bytes m) (store_invalid m (mark_batch_start_if_empty now a))
        (store_invalid-IsNear m _ (mark-IsBelow a h))
        (unfold store_invalid in track_nonempty m.partition m.offset _)

-- the size that a round adds to the buffer
abbrev pub poll_bytes : Poll → ℕ
poll_bytes (received now x) = outcome_bytes x
poll_bytes poll_error = 0
poll_bytes (timed_out now) = 0

-- With limits above 0, every round of the loop, from a buffer below both limits, leaves one below
-- both limits; and a batch that it hands on has at most `max_records` messages and passes
-- `max_bytes` by less than the size of the round's message.
pub poll_step-Bounded :
    (sha256 : String → String) (c : BatchAccumulatorConfig) (p : Poll) (a : BatchAccumulator)
    → IsUsable c
    → IsBelow c a
    → Bounded c (poll_bytes p) (poll_step sha256 p a)
unfolding poll_step
poll_step-Bounded sha256 c (received now x) a usable h =
    push_outcome-Bounded sha256 c usable now x a h
poll_step-Bounded sha256 c poll_error a usable h = h
poll_step-Bounded sha256 c (timed_out now) a usable h =
    elim (Bool-cases (should_flush_timer now a)) [
      | inl e ↦ rw e (
          flush-Bounded sha256 c usable now 0 a
            (record {
              config = h.config;
              records = omega (arith, h.records);
              bytes = omega (arith, h.bytes);
            })
            (λ _. h))
      | inr e ↦ rw e h
    ]
