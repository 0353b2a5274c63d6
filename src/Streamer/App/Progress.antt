-- ===== src/Streamer/App/Progress.antt =====
-- The loop of app.rs over services that refuse nothing: it gets through all of its batches.
use mathlib.Core.Path.{subst}
use fps_anticheat_data_platf.Prelude.{
  ℕ, ◌≡◌, refl, sym, ◌∙◌, ◌&&◌, inl, inr, false, Option, none, some, List, [], ◌∷◌, ◌++◌,
  append_assoc, append-nil, is_empty, All,
}
use fps_anticheat_data_platf.Prelude.Result.{Result, ok}
use fps_anticheat_data_platf.Streamer.Domain.{ConsumeOutcome}
use fps_anticheat_data_platf.Streamer.Accumulator.{
  CompletedBatch, BatchAccumulatorConfig, BatchAccumulator, new, Poll, poll_step,
}
use fps_anticheat_data_platf.Streamer.Accumulator.Batches.{Holds, IsBatchOf, Answers}
use fps_anticheat_data_platf.Streamer.Accumulator.Stream.{
  outcome_of, outcomes_of, option_cons, poll_all, poll_all-splits, poll_step-Answers, new-Holds,
  SplitsAs,
}
use fps_anticheat_data_platf.Streamer.Breaker.{ResourceCircuitBreaker, can_spawn}
use fps_anticheat_data_platf.Streamer.Consumer.{positions_of}
use fps_anticheat_data_platf.Streamer.Action.{AppError, Effect, committed, World, ◌>>=◌}
use fps_anticheat_data_platf.Streamer.App.{Services, process_completed_batch, process_if, run}
use fps_anticheat_data_platf.Streamer.App.Durable.{deduplicated}
use fps_anticheat_data_platf.Streamer.App.Delivery.{some_spans, some_parts}
use fps_anticheat_data_platf.Streamer.App.Successes.{IsHealthy, GivesBack}
use fps_anticheat_data_platf.Streamer.App.Healthy.{After, process_completed_batch_commits}
use fps_anticheat_data_platf.Streamer.App.Announced.{Ticked}

module _ {B W R : Type 0} (s : Services B W R) where
  -- The services are healthy at every breaker of a set that the readings of the load do not leave.
  pub record StaysHealthy (Good : ResourceCircuitBreaker → Type 0) : Type 0 where
    pub healthy : (b : ResourceCircuitBreaker) → Good b → IsHealthy s b
    pub stays :
        (b : ResourceCircuitBreaker) (l : List Effect)
        → Good b
        → Good (can_spawn s.f32 (s.proc l).0 (s.proc l).1 b).0

  -- what was written for a batch with a unique event is given back
  abbrev pub IsReadable : CompletedBatch → Type 0
  IsReadable b = is_empty (deduplicated s b).unique_records ≡ false → GivesBack s b

  -- the log of the batches one after the other, each with its commit as the last effect
  abbrev pub Processed : List CompletedBatch → List Effect → List Effect → Type 0
  Processed [] before log = log ≡ []
  Processed (b ∷ bs) before log =
      (es : List Effect) × (more : List Effect) × (log
        ≡ (es ++ committed s.raw_topic (positions_of b.partition_offsets) ∷ []) ++ more)
      × After s (is_empty (deduplicated s b).unique_records) b before es
      × Processed bs
          (before ++ (es ++ committed s.raw_topic (positions_of b.partition_offsets) ∷ [])) more

  -- the loop ends well, with the buffer `goal.0` and after the batches `goal.1`
  abbrev GetsThrough :
      World
      → BatchAccumulator × List CompletedBatch
      → Result AppError BatchAccumulator × World
      → Type 0
  GetsThrough w goal r =
      (w' : World) × (log : List Effect) × (r ≡ (ok goal.0, w'))
      × (w'.log ≡ w.log ++ log)
      × Processed goal.1 w.log log

  module _ (Good : ResourceCircuitBreaker → Type 0) (up : StaysHealthy Good) where
    Ticked-Good : (b b' : ResourceCircuitBreaker) → Ticked s b b' → Good b → Good b'
    Ticked-Good b b' (inl e) g = subst Good (sym e) g
    Ticked-Good b b' (inr (l, e)) g = subst Good (sym e) (up.stays b l g)

    -- one batch, and then the rest of the loop
    batch_GetsThrough :
        (seg : List ConsumeOutcome) (b : CompletedBatch) (w : World)
        (goal : BatchAccumulator × List CompletedBatch)
        (f : World → Result AppError BatchAccumulator × World)
        → IsBatchOf seg b
        → IsReadable b
        → Good w.breaker
        → ((v : World) → Good v.breaker → GetsThrough v goal (f v))
        → GetsThrough w (goal.0, b ∷ goal.1) ((process_completed_batch s b >>= (λ _. f)) w)
    batch_GetsThrough seg b w goal f h back good later =
        let filled : (is_empty b.events && is_empty b.malformed_messages) ≡ false =
          rw (h.events, h.malformed) (some_parts seg h.nonempty) in
        let (v, es, runs, grows, after, ticked) =
          process_completed_batch_commits s w.breaker b w (up.healthy w.breaker good) back refl
            (some_spans seg b.partition_offsets h.nonempty h.spans) filled in
        let (w', more, rest, adds, processed) =
          later v (Ticked-Good w.breaker v.breaker ticked good) in
        let mine = es ++ committed s.raw_topic (positions_of b.partition_offsets) ∷ [] in
        (
          w',
          mine ++ more,
          rw runs rest,
          adds ∙ simp (grows, append_assoc),
          (es, more, refl, after, subst (λ l. Processed goal.1 l more) grows processed),
        )

    run-from :
        (ps : List Poll) (seg : List ConsumeOutcome) (a : BatchAccumulator) (w : World)
        → Holds seg a
        → Good w.breaker
        → All IsReadable (poll_all s.sha256 ps a).1
        → GetsThrough w (poll_all s.sha256 ps a) (run s ps a w)
    unfolding run poll_all
    run-from [] seg a w h good back = (w, [], refl, sym (append-nil w.log), refl)
    run-from (p ∷ ps) seg a w h good back =
        next (poll_step s.sha256 p a) (poll_step-Answers s.sha256 seg p a h) back
          (λ t b v k g r. run-from ps t b v k g r)
      where
        next :
            (step : BatchAccumulator × Option CompletedBatch)
            → Answers (seg ++ outcome_of p) step
            → All IsReadable (option_cons step.1 (poll_all s.sha256 ps step.0).1)
            → ((t : List ConsumeOutcome) (b : BatchAccumulator) (v : World)
                → Holds t b
                → Good v.breaker
                → All IsReadable (poll_all s.sha256 ps b).1
                → GetsThrough v (poll_all s.sha256 ps b) (run s ps b v))
            → GetsThrough w
                (
                  (poll_all s.sha256 ps step.0).0,
                  option_cons step.1 (poll_all s.sha256 ps step.0).1,
                )
                ((process_if s step.1 >>= (λ _. run s ps step.0)) w)
        next (b, none) k r ih = ih (seg ++ outcome_of p) b w k good r
        next (b, some batch) k r ih =
            batch_GetsThrough (seg ++ outcome_of p) batch w (poll_all s.sha256 ps b) (run s ps b)
              k.1 r.0 good (λ v g. ih [] b v k.0 g r.1)

    -- With services that refuse nothing, a load at which the breaker lets work start, and libraries
    -- that give back what is written for the batches with a valid event, the loop never stops with an
    -- error, whatever the messages, consumer errors, pauses and clock readings. The messages are one
    -- segment for each completed batch and then those that the buffer still holds. What is added to
    -- the log is, for one batch after the other, the storing of the batch with the announced features
    -- of its unique events, or nothing if it has none, and then the commit of the batch's positions.
    pub run_gets_through :
        (config : BatchAccumulatorConfig) (clock : ℕ) (ps : List Poll) (w : World)
        → Good w.breaker
        → All IsReadable (poll_all s.sha256 ps (new config clock)).1
        → let goal = poll_all s.sha256 ps (new config clock) in
          (rest : List ConsumeOutcome) × Holds rest goal.0
          × SplitsAs (outcomes_of ps) goal.1 rest
          × (w' : World) × (log : List Effect) × (run s ps (new config clock) w ≡ (ok goal.0, w'))
          × (w'.log ≡ w.log ++ log)
          × Processed goal.1 w.log log
    run_gets_through config clock ps w good back =
        let (rest, held, splits) = poll_all-splits s.sha256 config clock ps in
        let (w', log, runs, grows, processed) =
          run-from ps [] (new config clock) w (new-Holds config clock) good back in
        (rest, held, splits, w', log, runs, grows, processed)
