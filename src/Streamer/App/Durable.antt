-- ===== src/Streamer/App/Durable.antt =====
-- The order in which a batch is stored and committed, and its failures.
use mathlib.Core.Path.{subst}
use fps_anticheat_data_platf.Prelude.{
  ℕ, ◌≡◌, ◌∙◌, inl, inr, false, not, ◌||◌, String, Option, List, [], ◌∷◌, ◌++◌, append_assoc,
  is_empty, ltb, arith, Bool-cases,
}
use fps_anticheat_data_platf.Prelude.Result.{Result, ok, err, Result-cases}
use fps_anticheat_data_platf.Streamer.Accumulator.{CompletedBatch, PartitionOffsets}
use fps_anticheat_data_platf.Streamer.Validator.{ValidationOutcome, validate_batch}
use fps_anticheat_data_platf.Streamer.Dedup.{DeduplicateOutcome, deduplicate_batch}
use fps_anticheat_data_platf.Streamer.Consumer.{
  positions_of, add_positions, commit_partition_offsets,
}
use fps_anticheat_data_platf.Streamer.Action.{
  AppError, Position, Effect, committed, World, call, ◌>>=◌,
}
use fps_anticheat_data_platf.Streamer.Action.Extends.{Quietly, Quietly-refl, Quietly-trans}
use fps_anticheat_data_platf.Streamer.Action.Inversion.{bind-ok, bind-err}
use fps_anticheat_data_platf.Streamer.App.{
  Services, store_batch, commit_batch, process_outcomes, process_completed_batch,
}
use fps_anticheat_data_platf.Streamer.App.Stored.{IsStored, store_batch-ok, store_batch-IsQuiet}

add_positions-ok :
    (refuses : Position → Option String) (m : PartitionOffsets) (ps : List Position)
    → add_positions refuses m ≡ ok ps
    → ps ≡ positions_of m
unfolding add_positions positions_of
add_positions-ok refuses [] ps h = ground arith
add_positions-ok refuses (x ∷ m) ps h = elim (Result-cases (add_positions refuses m)) [
  | inl (qs, e) ↦ ground (arith, e, add_positions-ok refuses m qs e)
  | inr (y, e) ↦ absurd (ground (arith, e))
]

module _ {B W R : Type 0} (s : Services B W R) where
  -- a commit either changes nothing, or adds the positions of the batch as the last effect
  pub commit_batch_lem :
      (what : String) (b : CompletedBatch) (w w' : World)
      → is_empty b.partition_offsets ≡ false
      → commit_batch s what b w ≡ (ok tt, w')
      → w'.log ≡ w.log ++ committed s.raw_topic (positions_of b.partition_offsets) ∷ []
  unfolding commit_batch commit_partition_offsets call
  commit_batch_lem what b w w' n h =
      elim (Result-cases (add_positions s.refuses b.partition_offsets)) [
        | inl (ps, e) ↦ ground (arith, e, n, add_positions-ok s.refuses b.partition_offsets ps e)
        | inr (x, e) ↦ absurd (ground (arith, e, n))
      ]

  pub commit_batch-err :
      (what : String) (b : CompletedBatch) (w w' : World) (x : AppError)
      → commit_batch s what b w ≡ (err x, w')
      → w' ≡ w
  unfolding commit_batch commit_partition_offsets call
  commit_batch-err what b w w' x h =
      elim (Result-cases (add_positions s.refuses b.partition_offsets)) [
        | inl (ps, e) ↦ ground (arith, e)
        | inr (y, e) ↦ ground (arith, e)
      ]

  -- what `process_completed_batch` computes first
  abbrev pub validated : CompletedBatch → ValidationOutcome
  validated b = validate_batch s.rfc3339 s.one b.events

  abbrev pub deduplicated : CompletedBatch → DeduplicateOutcome
  deduplicated b = deduplicate_batch (validated b).valid_records

  commit-Quietly :
      (what : String) (b : CompletedBatch) (w w' : World) (x : AppError)
      → commit_batch s what b w ≡ (err x, w')
      → Quietly w w'
  commit-Quietly what b w w' x h = rw (commit_batch-err what b w w' x h) (Quietly-refl w)

  pub stored-Quietly :
      (b : CompletedBatch) (val : ValidationOutcome) (dedup : DeduplicateOutcome) (w v : World)
      (r : Result AppError ℕ)
      → store_batch s b val dedup w ≡ (r, v)
      → Quietly w v
  stored-Quietly b val dedup w v r p =
      subst (λ (z : Result AppError ℕ × World). Quietly w z.1) p
        ((store_batch-IsQuiet s b val dedup).at w)

  stored_then_committed :
      (b : CompletedBatch) (val : ValidationOutcome) (dedup : DeduplicateOutcome) (what : String)
      (w w' : World) (x : AppError)
      → (store_batch s b val dedup >>= (λ _. commit_batch s what b)) w ≡ (err x, w')
      → Quietly w w'
  stored_then_committed b val dedup what w w' x h =
      elim (bind-err (store_batch s b val dedup) (λ _. commit_batch s what b) w h) [
        | inl p ↦ stored-Quietly b val dedup w w' (err x) p
        | inr (n, v, p, q) ↦
            Quietly-trans (stored-Quietly b val dedup w v (ok n) p) (commit-Quietly what b v w' x q)
      ]

  process_outcomes-err :
      (b : CompletedBatch) (val : ValidationOutcome) (dedup : DeduplicateOutcome) (w w' : World)
      (x : AppError)
      → process_outcomes s b val dedup w ≡ (err x, w')
      → Quietly w w'
  unfolding process_outcomes
  process_outcomes-err b val dedup w w' x h = elim (Bool-cases (is_empty dedup.unique_records)) [
    | inr e ↦
        stored_then_committed b val dedup "Fail-Close: Commit partition offsets thất bại" w w' x
          (rw e at h)
    | inl e ↦
        elim (Bool-cases (
          ltb 0 val.invalid_count
          || ltb 0 dedup.duplicate_count
          || not (is_empty b.malformed_messages))) [
            | inl k ↦
                commit-Quietly "Fail-Close: Commit invalid-only partition offsets thất bại" b w w' x
                  (rw (e, k) at h)
            | inr k ↦ absurd (ground (arith, e, k))
          ]
  ]

  -- A batch that fails at any step commits no offset: all that it has added to the log is uncommitted.
  pub process_completed_batch-err :
      (b : CompletedBatch) (w w' : World) (x : AppError)
      → process_completed_batch s b w ≡ (err x, w')
      → Quietly w w'
  unfolding process_completed_batch
  process_completed_batch-err b w w' x h =
      process_outcomes-err b (validated b) (deduplicated b) w w' x h

  process_outcomes-ok :
      (b : CompletedBatch) (val : ValidationOutcome) (dedup : DeduplicateOutcome) (w w' : World)
      → is_empty b.partition_offsets ≡ false
      → is_empty dedup.unique_records ≡ false
      → process_outcomes s b val dedup w ≡ (ok tt, w')
      → (es : List Effect) × (w'.log
          ≡ w.log ++ (es ++ committed s.raw_topic (positions_of b.partition_offsets) ∷ []))
        × IsStored s b val dedup w.log es
  unfolding process_outcomes
  process_outcomes-ok b val dedup w w' tracked unique h =
      let (n, v, p, q) =
        bind-ok (store_batch s b val dedup)
          (λ _. commit_batch s "Fail-Close: Commit partition offsets thất bại" b) w
          (rw unique at h) in
      let (es, grows, stored) = store_batch-ok s b val dedup w v n p in
      (
        es,
        commit_batch_lem "Fail-Close: Commit partition offsets thất bại" b v w' tracked q
            ∙ simp (grows, append_assoc),
        stored,
      )

  -- A batch with unique records that succeeds has, in this order, written its Bronze object and the
  -- manifest that describes it, written the two Silver tables and the Gold table that the transforms
  -- make of what the manifest's Bronze object holds then, announced exactly the Gold one, with the
  -- checksum of its bytes, and only then committed the offset after the last one of every partition.
  pub process_completed_batch-ok :
      (b : CompletedBatch) (w w' : World)
      → is_empty b.partition_offsets ≡ false
      → is_empty (deduplicated b).unique_records ≡ false
      → process_completed_batch s b w ≡ (ok tt, w')
      → (es : List Effect) × (w'.log
          ≡ w.log ++ (es ++ committed s.raw_topic (positions_of b.partition_offsets) ∷ []))
        × IsStored s b (validated b) (deduplicated b) w.log es
  unfolding process_completed_batch
  process_completed_batch-ok b w w' tracked unique h =
      process_outcomes-ok b (validated b) (deduplicated b) w w' tracked unique h
