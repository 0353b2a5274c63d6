-- ===== src/Streamer/Accumulator/Stream.antt =====
-- The loop of app.rs seen from the buffer: the messages received and the completed batches.
use fps_anticheat_data_platf.Prelude.{
  ℕ, ◌≡◌, sym, refl, inl, inr, true, false, String, Option, none, some, List, [], ◌∷◌, ◌++◌,
  append_assoc, append-nil, is_empty, Bool-cases,
}
use fps_anticheat_data_platf.Streamer.Domain.{ConsumeOutcome}
use fps_anticheat_data_platf.Streamer.Accumulator.{
  CompletedBatch, BatchAccumulatorConfig, BatchAccumulator, new, pending_count, should_flush_timer,
  Poll, received, poll_error, timed_out, poll_step,
}
use fps_anticheat_data_platf.Streamer.Accumulator.Offsets.{lookup, range_of, range_from}
use fps_anticheat_data_platf.Streamer.Accumulator.Batches.{
  Holds, IsBatchOf, Answers, flush-Answers, push_outcome-Answers,
}

-- the message that a round receives, if any
abbrev pub outcome_of : Poll → List ConsumeOutcome
outcome_of (received now x) = x ∷ []
outcome_of poll_error = []
outcome_of (timed_out now) = []

abbrev pub outcomes_of : List Poll → List ConsumeOutcome
outcomes_of [] = []
outcomes_of (p ∷ ps) = outcome_of p ++ outcomes_of ps

-- the timer never flushes an empty buffer
due_nonempty :
    (seg : List ConsumeOutcome) (now : ℕ) (a : BatchAccumulator)
    → Holds seg a
    → should_flush_timer now a ≡ true
    → is_empty seg ≡ false
unfolding should_flush_timer pending_count
due_nonempty [] now a h e = let k : false ≡ true = rw (h.events, h.malformed) at e in cc
due_nonempty (x ∷ seg) now a h e = refl

-- One round of the loop, from a buffer that holds `seg`: either the buffer holds `seg` and the
-- round's message, or it holds nothing and the round hands on a batch of exactly those messages.
pub poll_step-Answers :
    (sha256 : String → String) (seg : List ConsumeOutcome) (p : Poll) (a : BatchAccumulator)
    → Holds seg a
    → Answers (seg ++ outcome_of p) (poll_step sha256 p a)
unfolding poll_step
poll_step-Answers sha256 seg (received now x) a h = push_outcome-Answers sha256 seg now x a h
poll_step-Answers sha256 seg poll_error a h = rw append-nil h
poll_step-Answers sha256 seg (timed_out now) a h = elim (Bool-cases (should_flush_timer now a)) [
  | inl e ↦ rw (append-nil, e) (flush-Answers sha256 seg now a (due_nonempty seg now a h e) h)
  | inr e ↦ rw (append-nil, e) h
]

abbrev pub option_cons : Option CompletedBatch → List CompletedBatch → List CompletedBatch
option_cons none bs = bs
option_cons (some b) bs = b ∷ bs

-- the rounds of the loop, and the batches that they hand on, as long as no batch fails
unfoldable pub poll_all :
    (String → String) → List Poll → BatchAccumulator → BatchAccumulator × List CompletedBatch
unfolding poll_step
poll_all sha256 [] a = (a, [])
poll_all sha256 (p ∷ ps) a =
    let step = poll_step sha256 p a in
    let rest = poll_all sha256 ps step.0 in (rest.0, option_cons step.1 rest.1)

-- `xs` is a segment for each batch, in order, and then `rest`
abbrev pub SplitsAs : List ConsumeOutcome → List CompletedBatch → List ConsumeOutcome → Type 0
SplitsAs xs [] rest = xs ≡ rest
SplitsAs xs (b ∷ bs) rest =
    (seg : List ConsumeOutcome) × (ys : List ConsumeOutcome) × (xs ≡ seg ++ ys)
    × IsBatchOf seg b
    × SplitsAs ys bs rest

abbrev Result : List ConsumeOutcome → BatchAccumulator × List CompletedBatch → Type 0
Result xs r = (rest : List ConsumeOutcome) × Holds rest r.0 × SplitsAs xs r.1 rest

poll_all-from :
    (sha256 : String → String) (ps : List Poll) (seg : List ConsumeOutcome) (a : BatchAccumulator)
    → Holds seg a
    → Result (seg ++ outcomes_of ps) (poll_all sha256 ps a)
unfolding poll_all
poll_all-from sha256 [] seg a h = (seg, h, append-nil seg)
poll_all-from sha256 (p ∷ ps) seg a h =
    next (poll_step sha256 p a) (poll_step-Answers sha256 seg p a h)
      (λ s b. poll_all-from sha256 ps s b)
  where
    next :
        (step : BatchAccumulator × Option CompletedBatch)
        → Answers (seg ++ outcome_of p) step
        → ((s : List ConsumeOutcome) (b : BatchAccumulator)
            → Holds s b
            → Result (s ++ outcomes_of ps) (poll_all sha256 ps b))
        → Result
            (seg ++ (outcome_of p ++ outcomes_of ps))
            ((poll_all sha256 ps step.0).0, option_cons step.1 (poll_all sha256 ps step.0).1)
    next (b, none) k ih = rw (← append_assoc) (ih (seg ++ outcome_of p) b k)
    next (b, some batch) k ih =
        let (rest, held, splits) = ih [] b k.0 in
        (
          rest,
          held,
          (
            seg ++ outcome_of p,
            outcomes_of ps,
            sym (append_assoc seg (outcome_of p) (outcomes_of ps)),
            k.1,
            splits,
          ),
        )

pub new-Holds : (config : BatchAccumulatorConfig) (start : ℕ) → Holds [] (new config start)
unfolding new lookup range_of range_from
new-Holds config start = record {
  events = refl;
  malformed = refl;
  spans = λ q. refl;
  spans_empty = refl;
  bytes = refl;
}

-- For any configuration, messages, consumer errors, pauses and clock readings: the messages
-- received are, in order, one non-empty segment for each completed batch and then the messages
-- that the buffer still holds. Each batch has exactly its segment's events and malformed messages
-- in order, their number as `record_count`, their exact offset range for every partition, and
-- their size modulo 2 ^ 64 as `estimated_bytes`.
pub poll_all-splits :
    (sha256 : String → String) (config : BatchAccumulatorConfig) (start : ℕ) (ps : List Poll)
    → (rest : List ConsumeOutcome) × Holds rest (poll_all sha256 ps (new config start)).0
      × SplitsAs (outcomes_of ps) (poll_all sha256 ps (new config start)).1 rest
poll_all-splits sha256 config start ps =
    poll_all-from sha256 ps [] (new config start) (new-Holds config start)
