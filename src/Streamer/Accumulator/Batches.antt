-- ===== src/Streamer/Accumulator/Batches.antt =====
-- The buffer as a splitting of the message stream: whatever the flush limits and the clock do, the
-- completed batches are consecutive segments of the messages received, with nothing lost, doubled
-- or reordered, and the buffer holds the rest.
use fps_anticheat_data_platf.Prelude.{
  ℕ, ◌+◌, ◌%◌, ◌^◌, ◌≡◌, refl, inl, inr, Bool, true, false, ◌||◌, ◌&&◌, String, Option, none, some,
  List, [], ◌∷◌, ◌++◌, arith, length, is_empty, leb, ◌==◌, Bool-cases,
}
use fps_anticheat_data_platf.Prelude.Int.{ℤ}
use fps_anticheat_data_platf.Streamer.Domain.{
  AnyEnvelope, InvalidKafkaMessage, ConsumedMessage, ConsumeOutcome, valid, invalid,
}
use fps_anticheat_data_platf.Streamer.Accumulator.{
  PartitionOffsets, CompletedBatch, BatchAccumulator, track_partition_offset, pending_count,
  mark_batch_start_if_empty, event_bytes, invalid_bytes, flush, flush_if_full, store, store_invalid,
  push, push_invalid, push_outcome,
}
use fps_anticheat_data_platf.Streamer.Accumulator.Offsets.{
  partition_of, offset_of, lookup, lookup-track, track_nonempty, range_of, range_from,
  range_from-snoc, IsRange, range_of-IsRange,
}

abbrev pub events_of : List ConsumeOutcome → List AnyEnvelope
events_of [] = []
events_of (valid m ∷ xs) = m.envelope ∷ events_of xs
events_of (invalid m ∷ xs) = events_of xs

abbrev pub malformed_of : List ConsumeOutcome → List InvalidKafkaMessage
malformed_of [] = []
malformed_of (valid m ∷ xs) = malformed_of xs
malformed_of (invalid m ∷ xs) = m ∷ malformed_of xs

abbrev pub outcome_bytes : ConsumeOutcome → ℕ
outcome_bytes (valid m) = event_bytes m.envelope
outcome_bytes (invalid m) = invalid_bytes m

abbrev pub bytes_of : List ConsumeOutcome → ℕ
bytes_of [] = 0
bytes_of (x ∷ xs) = outcome_bytes x + bytes_of xs

-- The buffer holds exactly the messages of `seg`, oldest first.
pub record Holds (seg : List ConsumeOutcome) (a : BatchAccumulator) : Type 0 where
  pub events : a.events ≡ events_of seg
  pub malformed : a.malformed_messages ≡ malformed_of seg
  pub spans : (q : ℤ) → lookup q a.partition_offsets ≡ range_of q seg
  pub spans_empty : is_empty a.partition_offsets ≡ is_empty seg
  pub bytes : a.current_bytes ≡ bytes_of seg % 2 ^ 64

-- The batch is the messages of `seg`, and `seg` is not empty.
pub record IsBatchOf (seg : List ConsumeOutcome) (b : CompletedBatch) : Type 0 where
  pub nonempty : is_empty seg ≡ false
  pub events : b.events ≡ events_of seg
  pub malformed : b.malformed_messages ≡ malformed_of seg
  pub spans : (q : ℤ) → IsRange q (lookup q b.partition_offsets) seg
  pub count : b.record_count ≡ length seg
  pub bytes : b.estimated_bytes ≡ bytes_of seg % 2 ^ 64

events_of-snoc :
    (xs : List ConsumeOutcome) (m : ConsumedMessage)
    → events_of (xs ++ valid m ∷ []) ≡ events_of xs ++ m.envelope ∷ []
events_of-snoc [] m = refl
events_of-snoc (valid x ∷ xs) m = cc (events_of-snoc xs m)
events_of-snoc (invalid x ∷ xs) m = events_of-snoc xs m

events_of-snoc_invalid :
    (xs : List ConsumeOutcome) (m : InvalidKafkaMessage)
    → events_of (xs ++ invalid m ∷ []) ≡ events_of xs
events_of-snoc_invalid [] m = refl
events_of-snoc_invalid (valid x ∷ xs) m = cc (events_of-snoc_invalid xs m)
events_of-snoc_invalid (invalid x ∷ xs) m = events_of-snoc_invalid xs m

malformed_of-snoc :
    (xs : List ConsumeOutcome) (m : InvalidKafkaMessage)
    → malformed_of (xs ++ invalid m ∷ []) ≡ malformed_of xs ++ m ∷ []
malformed_of-snoc [] m = refl
malformed_of-snoc (valid x ∷ xs) m = malformed_of-snoc xs m
malformed_of-snoc (invalid x ∷ xs) m = cc (malformed_of-snoc xs m)

malformed_of-snoc_valid :
    (xs : List ConsumeOutcome) (m : ConsumedMessage)
    → malformed_of (xs ++ valid m ∷ []) ≡ malformed_of xs
malformed_of-snoc_valid [] m = refl
malformed_of-snoc_valid (valid x ∷ xs) m = malformed_of-snoc_valid xs m
malformed_of-snoc_valid (invalid x ∷ xs) m = cc (malformed_of-snoc_valid xs m)

bytes_of-snoc :
    (xs : List ConsumeOutcome) (x : ConsumeOutcome)
    → bytes_of (xs ++ x ∷ []) ≡ bytes_of xs + outcome_bytes x
bytes_of-snoc [] x = omega arith
bytes_of-snoc (y ∷ ys) x = omega (arith, bytes_of-snoc ys x)

is_empty-snoc : (xs : List ConsumeOutcome) (x : ConsumeOutcome) → is_empty (xs ++ x ∷ []) ≡ false
is_empty-snoc [] x = refl
is_empty-snoc (y ∷ ys) x = refl

pub length-parts :
    (xs : List ConsumeOutcome) → length (events_of xs) + length (malformed_of xs) ≡ length xs
length-parts [] = omega arith
length-parts (valid x ∷ xs) = omega (arith, length-parts xs)
length-parts (invalid x ∷ xs) = omega (arith, length-parts xs)

spans-snoc :
    (seg : List ConsumeOutcome) (x : ConsumeOutcome) (m : PartitionOffsets)
    → ((q : ℤ) → lookup q m ≡ range_of q seg)
    → (q : ℤ)
    → lookup q (track_partition_offset (partition_of x) (offset_of x) m)
      ≡ range_of q (seg ++ x ∷ [])
unfolding range_of
spans-snoc seg x m h q = rw (lookup-track, range_from-snoc, h q)

mark-Holds :
    (seg : List ConsumeOutcome) (now : ℕ) (a : BatchAccumulator)
    → Holds seg a
    → Holds seg (mark_batch_start_if_empty now a)
unfolding mark_batch_start_if_empty
mark-Holds seg now a h = elim (Bool-cases (pending_count a == 0)) [
  | inl e ↦ rw e (record {
    events = h.events;
    malformed = h.malformed;
    spans = h.spans;
    spans_empty = h.spans_empty;
    bytes = h.bytes;
  })
  | inr e ↦ rw e h
]

-- what a step of the buffer may answer after the messages of `seg`
abbrev pub Answers : List ConsumeOutcome → BatchAccumulator × Option CompletedBatch → Type 0
Answers seg (a, none) = Holds seg a
Answers seg (a, some b) = Holds [] a × IsBatchOf seg b

and_false : (b : Bool) → (b && false) ≡ false
and_false true = refl
and_false false = refl

pub flush-Answers :
    (sha256 : String → String) (seg : List ConsumeOutcome) (now : ℕ) (a : BatchAccumulator)
    → is_empty seg ≡ false
    → Holds seg a
    → Answers seg (flush sha256 now a)
unfolding flush pending_count lookup range_of range_from
flush-Answers sha256 seg now a n h =
    rw (h.spans_empty, n, and_false)
      (
        record {
          events = refl;
          malformed = refl;
          spans = λ q. refl;
          spans_empty = refl;
          bytes = refl;
        },
        record {
          nonempty = n;
          events = h.events;
          malformed = h.malformed;
          spans = λ q. rw (h.spans q) (range_of-IsRange q seg);
          count = rw (h.events, h.malformed) (length-parts seg);
          bytes = h.bytes;
        },
      )

flush_if_full-Answers :
    (sha256 : String → String) (seg : List ConsumeOutcome) (now : ℕ) (a : BatchAccumulator)
    → is_empty seg ≡ false
    → Holds seg a
    → Answers seg (flush_if_full sha256 now a)
unfolding flush_if_full
flush_if_full-Answers sha256 seg now a n h =
    elim (Bool-cases
      (leb a.config.max_records (pending_count a) || leb a.config.max_bytes a.current_bytes)) [
        | inl e ↦ rw e (flush-Answers sha256 seg now a n h)
        | inr e ↦ rw e h
      ]

store-Holds :
    (seg : List ConsumeOutcome) (m : ConsumedMessage) (a : BatchAccumulator)
    → Holds seg a
    → Holds (seg ++ valid m ∷ []) (store m a)
unfolding store
store-Holds seg m a h = record {
  events = rw (h.events, events_of-snoc);
  malformed = rw (h.malformed, malformed_of-snoc_valid);
  spans = spans-snoc seg (valid m) a.partition_offsets h.spans;
  spans_empty = rw (track_nonempty, is_empty-snoc);
  bytes = omega (arith, h.bytes, bytes_of-snoc seg (valid m));
}

store_invalid-Holds :
    (seg : List ConsumeOutcome) (m : InvalidKafkaMessage) (a : BatchAccumulator)
    → Holds seg a
    → Holds (seg ++ invalid m ∷ []) (store_invalid m a)
unfolding store_invalid
store_invalid-Holds seg m a h = record {
  events = rw (h.events, events_of-snoc_invalid);
  malformed = rw (h.malformed, malformed_of-snoc);
  spans = spans-snoc seg (invalid m) a.partition_offsets h.spans;
  spans_empty = rw (track_nonempty, is_empty-snoc);
  bytes = omega (arith, h.bytes, bytes_of-snoc seg (invalid m));
}

pub push_outcome-Answers :
    (sha256 : String → String) (seg : List ConsumeOutcome) (now : ℕ) (x : ConsumeOutcome)
    (a : BatchAccumulator)
    → Holds seg a
    → Answers (seg ++ x ∷ []) (push_outcome sha256 now x a)
unfolding push_outcome push push_invalid
push_outcome-Answers sha256 seg now (valid m) a h =
    flush_if_full-Answers sha256 (seg ++ valid m ∷ []) now
      (store m (mark_batch_start_if_empty now a)) (is_empty-snoc seg (valid m))
      (store-Holds seg m _ (mark-Holds seg now a h))
push_outcome-Answers sha256 seg now (invalid m) a h =
    flush_if_full-Answers sha256 (seg ++ invalid m ∷ []) now
      (store_invalid m (mark_batch_start_if_empty now a)) (is_empty-snoc seg (invalid m))
      (store_invalid-Holds seg m _ (mark-Holds seg now a h))
