-- ===== src/Streamer/App/Delivery.antt =====
-- The loop of app.rs against at-least-once delivery: an abstract consumer that works on a segment of
-- the messages, commits it, and goes on with the rest.
use mathlib.Core.List.{append_cancel_left, append_cancel_right}
use mathlib.Core.Path.{subst}
use fps_anticheat_data_platf.Prelude.{
  Bool, true, ℕ, ◌≡◌, refl, sym, ◌∙◌, inl, inr, false, ◌&&◌, String, Option, none, some, List, [],
  ◌∷◌, ◌++◌, append_assoc, append-nil, is_empty, arith, All, Bool-cases,
}
use fps_anticheat_data_platf.Prelude.Int.{ℤ}
use fps_anticheat_data_platf.Prelude.Result.{Result, ok, err}
use fps_anticheat_data_platf.Streamer.Domain.{ConsumeOutcome, valid, invalid}
use fps_anticheat_data_platf.Streamer.Accumulator.{
  CompletedBatch, BatchAccumulatorConfig, BatchAccumulator, new, PartitionOffsets, Poll, poll_step,
}
use fps_anticheat_data_platf.Streamer.Accumulator.Offsets.{lookup, IsRange, partition_of}
use fps_anticheat_data_platf.Streamer.Accumulator.Batches.{
  events_of, malformed_of, Holds, IsBatchOf, Answers,
}
use fps_anticheat_data_platf.Streamer.Accumulator.Stream.{
  outcome_of, outcomes_of, poll_step-Answers, new-Holds,
}
use fps_anticheat_data_platf.Streamer.Consumer.{positions_of}
use fps_anticheat_data_platf.Streamer.Action.{AppError, Effect, committed, World, continue, ◌>>=◌}
use fps_anticheat_data_platf.Streamer.Action.Extends.{IsUncommitted}
use fps_anticheat_data_platf.Streamer.Action.Inversion.{bind-ok}
use fps_anticheat_data_platf.Streamer.App.{
  Services, process_completed_batch, process_outcomes, process_if, store_batch, commit_batch, run,
}
use fps_anticheat_data_platf.Streamer.App.Durable.{
  validated, deduplicated, commit_batch_lem, stored-Quietly, process_completed_batch-ok,
  process_completed_batch-err,
}
use fps_anticheat_data_platf.Streamer.App.Stored.{IsStored}
use fps_anticheat_data_platf.Streamer.App.Loss.{process_completed_batch_drops}

pub some_spans :
    (seg : List ConsumeOutcome) (m : PartitionOffsets)
    → is_empty seg ≡ false
    → ((q : ℤ) → IsRange q (lookup q m) seg)
    → is_empty m ≡ false
unfolding lookup
some_spans [] m n h = cc
some_spans (x ∷ seg) [] n h = absurd ((h (partition_of x)).0 refl)
some_spans (x ∷ seg) (s ∷ m) n h = refl

pub some_parts :
    (seg : List ConsumeOutcome)
    → is_empty seg ≡ false
    → (is_empty (events_of seg) && is_empty (malformed_of seg)) ≡ false
some_parts [] n = cc
some_parts (valid m ∷ seg) n = refl
some_parts (invalid m ∷ seg) n = ground arith

module _ {B W R : Type 0} (s : Services B W R) where
  -- what is done for a batch before its commit: it is stored and announced, unless no event is left
  abbrev pub IsWorkFor : Bool → CompletedBatch → List Effect → List Effect → Type 0
  IsWorkFor true b before work = work ≡ []
  IsWorkFor false b before work = IsStored s b (validated s b) (deduplicated s b) before work

  -- From the messages `xs` and after the effects `before`, the abstract consumer has added `log`, and
  -- `rest` is still to be done.
  pub data Delivers
      : List ConsumeOutcome → List Effect → List Effect → List ConsumeOutcome → Type 0 where
    stops : {xs : List ConsumeOutcome} {before : List Effect} → Delivers xs before [] xs
    commits :
        {xs seg ys rest : List ConsumeOutcome} {b : CompletedBatch} {before log more : List Effect}
        (work : List Effect)
        → xs ≡ seg ++ ys
        → IsBatchOf seg b
        → IsWorkFor (is_empty (deduplicated s b).unique_records) b before work
        → All IsUncommitted work
        → log ≡ work ++ committed s.raw_topic (positions_of b.partition_offsets) ∷ more
        → Delivers ys
            (before ++ (work ++ committed s.raw_topic (positions_of b.partition_offsets) ∷ []))
            more
            rest
        → Delivers xs before log rest

  -- a batch that succeeds adds its uncommitted work and its commit
  abbrev Commits : CompletedBatch → World → World → Type 0
  Commits b w w' =
      (work : List Effect) × All IsUncommitted work
      × IsWorkFor (is_empty (deduplicated s b).unique_records) b w.log work
      × (w'.log ≡ w.log ++ (work ++ committed s.raw_topic (positions_of b.partition_offsets) ∷ []))

  stored-Commits :
      (b : CompletedBatch) (w w' : World)
      → is_empty b.partition_offsets ≡ false
      → is_empty (deduplicated s b).unique_records ≡ false
      → process_completed_batch s b w ≡ (ok tt, w')
      → Commits b w w'
  unfolding process_completed_batch process_outcomes
  stored-Commits b w w' tracked unique h =
      let val = validated s b in
      let dedup = deduplicated s b in
      let what : String = "Fail-Close: Commit partition offsets thất bại" in
      let (n, v, p, q) =
        bind-ok (store_batch s b val dedup) (λ _. commit_batch s what b) w (rw unique at h) in
      let quiet = stored-Quietly s b val dedup w v (ok n) p in
      let last = commit_batch_lem s what b v w' tracked q in
      let commit = committed s.raw_topic (positions_of b.partition_offsets) ∷ [] in
      let (es, grows, stored) = process_completed_batch-ok s b w w' tracked unique h in
      let same : quiet.added ≡ es = append_cancel_right quiet.added es commit (
        append_cancel_left w.log (quiet.added ++ commit) (es ++ commit)
          (sym (last ∙ simp (quiet.grows, append_assoc)) ∙ grows)) in
      (es, subst (All IsUncommitted) same quiet.quiet, rw unique stored, grows)

  process_completed_batch-Commits :
      (seg : List ConsumeOutcome) (b : CompletedBatch) (w w' : World)
      → IsBatchOf seg b
      → process_completed_batch s b w ≡ (ok tt, w')
      → Commits b w w'
  process_completed_batch-Commits seg b w w' h runs =
      let tracked = some_spans seg b.partition_offsets h.nonempty h.spans in
      let filled : (is_empty b.events && is_empty b.malformed_messages) ≡ false =
        rw (h.events, h.malformed) (some_parts seg h.nonempty) in
      elim (Bool-cases (is_empty (deduplicated s b).unique_records)) [
        | inl e ↦ ([], tt, rw e refl, process_completed_batch_drops s b w w' tracked filled e runs)
        | inr e ↦ stored-Commits b w w' tracked e runs
      ]

  -- How the loop ends on the messages `xs`: either every completed batch is committed and the buffer
  -- holds the rest, or a batch fails, and nothing from that batch on is committed.
  abbrev pub Ends : List ConsumeOutcome → World → Result AppError BatchAccumulator × World → Type 0
  Ends xs w (ok a, w') =
      (log : List Effect) × (rest : List ConsumeOutcome) × (w'.log ≡ w.log ++ log)
      × Delivers xs w.log log rest
      × Holds rest a
  Ends xs w (err x, w') =
      (log : List Effect) × (rest : List ConsumeOutcome) × (tail : List Effect) × (w'.log
        ≡ w.log ++ (log ++ tail))
      × Delivers xs w.log log rest
      × All IsUncommitted tail

  after_commit :
      (seg ys : List ConsumeOutcome) (b : CompletedBatch) (w v : World)
      (r : Result AppError BatchAccumulator × World)
      → IsBatchOf seg b
      → Commits b w v
      → Ends ys v r
      → Ends (seg ++ ys) w r
  after_commit seg ys b w v (ok a, w') h (work, quiet, is_work, grows) (log, rest, more, d, held) =
      (
        work ++ committed s.raw_topic (positions_of b.partition_offsets) ∷ log,
        rest,
        more ∙ simp (grows, append_assoc),
        commits work refl h is_work quiet refl (subst (λ l. Delivers ys l log rest) grows d),
        held,
      )
  after_commit seg ys b w v (err x, w') h (work, quiet, is_work, grows)
        (log, rest, tail, more, d, calm) =
      (
        work ++ committed s.raw_topic (positions_of b.partition_offsets) ∷ log,
        rest,
        tail,
        more ∙ simp (grows, append_assoc),
        commits work refl h is_work quiet refl (subst (λ l. Delivers ys l log rest) grows d),
        calm,
      )

  run_batch-Ends :
      (seg ys : List ConsumeOutcome) (b : CompletedBatch) (w : World)
      (f : World → Result AppError BatchAccumulator × World)
      → IsBatchOf seg b
      → ((v : World) → Ends ys v (f v))
      → (r : Result AppError (Unit {0}) × World) → process_completed_batch s b w ≡ r
      → Ends (seg ++ ys) w (continue r (λ _. f))
  run_batch-Ends seg ys b w f h k (ok tt, v) e =
      after_commit seg ys b w v (f v) h (process_completed_batch-Commits seg b w v h e) (k v)
  run_batch-Ends seg ys b w f h k (err x, v) e =
      let quiet = process_completed_batch-err s b w v x e in
      ([], seg ++ ys, quiet.added, quiet.grows, stops, quiet.quiet)

  run-from :
      (ps : List Poll) (seg : List ConsumeOutcome) (a : BatchAccumulator) (w : World)
      → Holds seg a
      → Ends (seg ++ outcomes_of ps) w (run s ps a w)
  unfolding run
  run-from [] seg a w h = ([], seg, sym (append-nil w.log), rw append-nil (stops), h)
  run-from (p ∷ ps) seg a w h =
      next (poll_step s.sha256 p a) (poll_step-Answers s.sha256 seg p a h)
        (λ t b v. run-from ps t b v)
    where
      next :
          (step : BatchAccumulator × Option CompletedBatch)
          → Answers (seg ++ outcome_of p) step
          → ((t : List ConsumeOutcome) (b : BatchAccumulator) (v : World)
              → Holds t b
              → Ends (t ++ outcomes_of ps) v (run s ps b v))
          → Ends
              (seg ++ (outcome_of p ++ outcomes_of ps))
              w
              ((process_if s step.1 >>= (λ _. run s ps step.0)) w)
      next (b, none) k ih = rw (← append_assoc) (ih (seg ++ outcome_of p) b w k)
      next (b, some batch) k ih = rw (← append_assoc) (
          run_batch-Ends (seg ++ outcome_of p) (outcomes_of ps) batch w (run s ps b) k.1
            (λ v. ih [] b v k.0) (process_completed_batch s batch w) refl)

  -- The loop refines at-least-once delivery, whatever the messages, pauses, consumer errors, clock
  -- readings and answers of the services: it adds to the log, for one segment of the messages after
  -- the other, the work on that segment's batch and then the commit of exactly the segment's
  -- positions. The work is the storing of the batch, its Bronze object, its manifest, the tables made
  -- of them and the announcement of the Gold object; it is nothing only if validation and
  -- deduplication leave no event of the batch. If no batch fails, the buffer holds the messages that are left; if one fails, the log ends
  -- with its uncommitted work, and neither its messages nor any later ones are committed.
  pub run-Ends :
      (config : BatchAccumulatorConfig) (clock : ℕ) (ps : List Poll) (w : World)
      → Ends (outcomes_of ps) w (run s ps (new config clock) w)
  run-Ends config clock ps w = run-from ps [] (new config clock) w (new-Holds config clock)
