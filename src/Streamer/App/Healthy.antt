-- ===== src/Streamer/App/Healthy.antt =====
-- A batch through services that refuse nothing, from its events to its announced features.
use fps_anticheat_data_platf.Prelude.{
  ◌≡◌, refl, ◌∙◌, ◌&&◌, inl, inr, Bool, true, false, String, some, List, [], ◌∷◌, ◌++◌,
  append_assoc, is_empty, Bool-cases,
}
use fps_anticheat_data_platf.Prelude.Result.{ok}
use fps_anticheat_data_platf.Streamer.Accumulator.{CompletedBatch}
use fps_anticheat_data_platf.Streamer.Breaker.{ResourceCircuitBreaker}
use fps_anticheat_data_platf.Streamer.Consumer.{positions_of}
use fps_anticheat_data_platf.Streamer.Action.{Effect, committed, World}
use fps_anticheat_data_platf.Streamer.App.{Services, process_outcomes, process_completed_batch}
use fps_anticheat_data_platf.Streamer.App.Durable.{validated, deduplicated, commit_batch_lem}
use fps_anticheat_data_platf.Streamer.App.Loss.{something_dropped}
use fps_anticheat_data_platf.Streamer.App.Successes.{IsHealthy, GivesBack, Succeeds-commit_batch}
use fps_anticheat_data_platf.Streamer.App.Announced.{Announced, Ticked, store_batch_announces}

module _ {B W R : Type 0} (s : Services B W R) where
  abbrev pub After : Bool → CompletedBatch → List Effect → List Effect → Type 0
  After true b before es = es ≡ []
  After false b before es = Announced s b (validated s b) (deduplicated s b) before es

  -- A batch is processed to the end, whatever the libraries give back if it has no unique event.
  pub process_completed_batch_commits :
      (b₀ : ResourceCircuitBreaker) (b : CompletedBatch) (w : World)
      → IsHealthy s b₀
      → (is_empty (deduplicated s b).unique_records ≡ false → GivesBack s b)
      → w.breaker ≡ b₀
      → is_empty b.partition_offsets ≡ false
      → (is_empty b.events && is_empty b.malformed_messages) ≡ false
      → (w' : World) × (es : List Effect) × (process_completed_batch s b w ≡ (ok tt, w'))
        × (w'.log ≡ w.log ++ (es ++ committed s.raw_topic (positions_of b.partition_offsets) ∷ []))
        × After (is_empty (deduplicated s b).unique_records) b w.log es
        × Ticked s w.breaker w'.breaker
  unfolding process_completed_batch process_outcomes
  process_completed_batch_commits b₀ b w h back ready tracked filled =
      elim (Bool-cases (is_empty (deduplicated s b).unique_records)) [
        | inl e ↦
            let what : String = "Fail-Close: Commit invalid-only partition offsets thất bại" in
            let (_, w', runs, same) =
              (Succeeds-commit_batch s b₀ h (some w.breaker) what b).at w refl in
            (
              w',
              [],
              rw (e, something_dropped s b filled e) runs,
              commit_batch_lem s what b w w' tracked runs,
              rw e refl,
              inl same,
            )
        | inr e ↦
            let what : String = "Fail-Close: Commit partition offsets thất bại" in
            let (n, v, es, stores, grows, announced, ticked) =
              store_batch_announces s b₀ h b w (back e) ready e in
            let (_, w', runs, same) =
              (Succeeds-commit_batch s b₀ h (some v.breaker) what b).at v refl in
            (
              w',
              es,
              rw (e, stores) runs,
              commit_batch_lem s what b v w' tracked runs ∙ simp (grows, append_assoc),
              rw e announced,
              rw same ticked,
            )
      ]

  -- With services that refuse nothing, a load at which the breaker lets work start, and a store, a
  -- JSON and a Parquet library that give back what was written for the batch, every batch with a
  -- message in it is processed to the end, and the last thing done is the commit of its offsets. If
  -- an event of it is valid, what is done before is the storing of the batch, in which the
  -- announced Gold object is the encoded table of the features of the batch's unique events; else
  -- nothing is done before.
  pub process_completed_batch_succeeds :
      (b₀ : ResourceCircuitBreaker) (b : CompletedBatch) (w : World)
      → IsHealthy s b₀
      → GivesBack s b
      → w.breaker ≡ b₀
      → is_empty b.partition_offsets ≡ false
      → (is_empty b.events && is_empty b.malformed_messages) ≡ false
      → (w' : World) × (es : List Effect) × (process_completed_batch s b w ≡ (ok tt, w'))
        × (w'.log ≡ w.log ++ (es ++ committed s.raw_topic (positions_of b.partition_offsets) ∷ []))
        × After (is_empty (deduplicated s b).unique_records) b w.log es
  process_completed_batch_succeeds b₀ b w h back ready tracked filled =
      let (w', es, runs, grows, after, _) =
        process_completed_batch_commits b₀ b w h (λ _. back) ready tracked filled in
      (w', es, runs, grows, after)
