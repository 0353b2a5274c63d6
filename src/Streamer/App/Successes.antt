-- ===== src/Streamer/App/Successes.antt =====
-- Services that refuse nothing, and the calls of them that succeed.
use fps_anticheat_data_platf.Prelude.{
  ℕ, ◌≡◌, ◌<◌, refl, ap, inl, inr, true, false, Bool-cases, String, Option, none, some, List, [],
  ◌∷◌, ◌++◌, is_empty, arith,
}
use fps_anticheat_data_platf.Prelude.Result.{Result, ok}
use fps_anticheat_data_platf.Streamer.Accumulator.{PartitionOffsets, CompletedBatch}
use fps_anticheat_data_platf.Streamer.Breaker.{ResourceCircuitBreaker, can_spawn}
use fps_anticheat_data_platf.Streamer.Producer.{
  UploadedArtifact, NativeWorkerResult, GoldReadyEvent, gold_event, encoded, publish_one,
  publish_each, publish_gold_ready,
}
use fps_anticheat_data_platf.Streamer.Consumer.{
  positions_of, add_positions, position_of, commit_partition_offsets,
}
use fps_anticheat_data_platf.Streamer.Action.{
  AppError, Effect, committed, Position, World, pure, lift, call, ◌>>=◌,
}
use fps_anticheat_data_platf.Streamer.App.{Services, manifest_of, commit_batch}
use fps_anticheat_data_platf.Streamer.App.Stored.{bronze_key}
use fps_anticheat_data_platf.Streamer.App.Durable.{validated, deduplicated}
use fps_anticheat_data_platf.Streamer.Bronze.{events_to_record_batch}
use fps_anticheat_data_platf.Streamer.Silver.{bronze_rows}
use fps_anticheat_data_platf.Streamer.Parquet.{record_batch_to_parquet_bytes, read_parquet_bytes}
use fps_anticheat_data_platf.Streamer.Storage.Consistent.{IsConsistent}
use fps_anticheat_data_platf.Streamer.Worker.Healthy.{Works}

-- the breaker is `b`, or any
abbrev pub Ready : Option ResourceCircuitBreaker → World → Type 0
Ready none w = Unit
Ready (some b) w = w.breaker ≡ b

-- from a world with the breaker `r`, the action succeeds in one with the breaker `q`
pub record Succeeds {ℓ} {A : Type ℓ} (r q : Option ResourceCircuitBreaker)
    (m : World → Result AppError A × World) : Type ℓ where
  pub at : (w : World) → Ready r w → (a : A) × (w' : World) × (m w ≡ (ok a, w')) × Ready q w'

-- Services that refuse nothing, a load at which the breaker `b` lets work start, and a store in which
-- an object can be read once it is put.
pub record IsHealthy {B W R : Type 0} (s : Services B W R) (b : ResourceCircuitBreaker)
    : Type 0 where
  pub works : Works s.native
  pub store : IsConsistent s.native.store
  pub permits : (l : List Effect) → s.native.acquire_owned l ≡ none
  pub directories : (l : List Effect) → (temp : String) × (s.native.tempdir l ≡ ok temp)
  pub writes_event : (e : GoldReadyEvent) → (bytes : List ℕ) × (s.event_json e ≡ ok bytes)
  pub sends : (l : List Effect) → s.send_fault l ≡ none
  pub commits : (l : List Effect) → s.commit_fault l ≡ none
  pub takes : (p : Position) → s.refuses p ≡ none
  pub unpoisoned : (l : List Effect) → s.poisoned l ≡ false
  pub allows : (l : List Effect) → (can_spawn s.f32 (s.proc l).0 (s.proc l).1 b).1 ≡ true

-- What the libraries read of what they wrote for a batch: the path in the JSON of its manifest, and
-- from the Parquet file of its unique records one table or more, with the rows of the table written,
-- in order. The Parquet reader splits a table of more than 1024 rows.
pub record GivesBack {B W R : Type 0} (s : Services B W R) (b : CompletedBatch) : Type 0 where
  pub manifest :
      (checksum : String)
      → (json : List ℕ) × (content : String) × (s.manifest_json
            (manifest_of s b (validated s b) (deduplicated s b) (bronze_key s b) checksum)
          ≡ ok json)
        × (s.native.utf8 json ≡ ok content)
        × (s.native.from_str content ≡ ok (some (bronze_key s b)))
  pub bronze :
      (table : B) (bytes : List ℕ)
      → events_to_record_batch s.native.lib (deduplicated s b).unique_records ≡ ok table
      → record_batch_to_parquet_bytes s.native.parquet table ≡ ok bytes
      → 0 < s.native.lib.num_rows table
      → (batches : List B) × (read_parquet_bytes s.native.parquet bytes ≡ ok batches)
        × (is_empty batches ≡ false)
        × (bronze_rows s.native.lib batches ≡ bronze_rows s.native.lib (table ∷ []))

module _ {ℓ κ} {A : Type ℓ} {B : Type κ} (r q t : Option ResourceCircuitBreaker) where
  Succeeds-bind :
      (m : World → Result AppError A × World) (f : A → World → Result AppError B × World)
      → Succeeds r q m
      → ((a : A) → Succeeds q t (f a))
      → Succeeds r t (m >>= f)
  Succeeds-bind m f h k = record {
    at = λ w p.
        let (a, v, e, mid) = h.at w p in
        let (b, u, g, done) = (k a).at v mid in (b, u, rw e g, done);
  }

Succeeds-pure {ℓ} : {A : Type ℓ} (r : Option ResourceCircuitBreaker) (a : A) → Succeeds r r (pure a)
Succeeds-pure r a = record { at = λ w p. (a, w, refl, p) }

Succeeds-lift {ℓ} :
    {A : Type ℓ} (r : Option ResourceCircuitBreaker) (x : Result AppError A) (a : A)
    → x ≡ ok a
    → Succeeds r r (lift x)
Succeeds-lift r x a e = record { at = λ w p. (a, w, rw e refl, p) }

Ready-log :
    (r : Option ResourceCircuitBreaker) (w : World) (l : List Effect)
    → Ready r w
    → Ready r (record w { log = l })
Ready-log none w l p = tt
Ready-log (some b) w l p = p

Succeeds-call :
    (r : Option ResourceCircuitBreaker) (fault : List Effect → Option String)
    (wrap : String → AppError) (e : Effect)
    → ((l : List Effect) → fault l ≡ none)
    → Succeeds r r (call fault wrap e)
unfolding call
Succeeds-call r fault wrap e h = record {
  at = λ w p. (
    tt,
    record w { log = w.log ++ e ∷ [] },
    rw (h w.log) refl,
    Ready-log r w (w.log ++ e ∷ []) p,
  );
}

module _ {B W R : Type 0} (s : Services B W R) (b₀ : ResourceCircuitBreaker)
    (h : IsHealthy s b₀) where
  Succeeds-publish_each :
      (r : Option ResourceCircuitBreaker) (batch_id key : String)
      (artifacts : List UploadedArtifact)
      → Succeeds r r (
          publish_each s.sha256 s.event_json s.send_fault s.producer s.created_at batch_id key
            artifacts)
  unfolding publish_each publish_one
  Succeeds-publish_each r batch_id key [] = Succeeds-pure _ _
  Succeeds-publish_each r batch_id key (a ∷ rest) =
      let (json, e) =
        h.writes_event (gold_event s.sha256 s.producer.bucket s.created_at batch_id key a) in
      Succeeds-bind _ r _ _ _
        (Succeeds-bind _ r _ _ _ (Succeeds-lift _ _ json (ap encoded e))
          (λ _. Succeeds-call _ s.send_fault _ _ h.sends))
        (λ _. Succeeds-publish_each r batch_id key rest)

  pub Succeeds-publish_gold_ready :
      (r : Option ResourceCircuitBreaker) (batch_id : String) (result : NativeWorkerResult)
      → Succeeds r r (
          publish_gold_ready s.sha256 s.event_json s.send_fault s.producer s.created_at batch_id
            result)
  unfolding publish_gold_ready
  Succeeds-publish_gold_ready r batch_id result =
      Succeeds-bind _ r _ _ _ (Succeeds-publish_each _ _ _ _) (λ _. Succeeds-pure _ _)

  added : (m : PartitionOffsets) → add_positions s.refuses m ≡ ok (positions_of m)
  unfolding add_positions positions_of
  added [] = refl
  added (x ∷ m) = rw (h.takes (position_of x), added m)

  Ready-commit_batch :
      (r : Option ResourceCircuitBreaker) (what : String) (b : CompletedBatch) (w : World)
      → Ready r w
      → Ready r (commit_batch s what b w).1
  unfolding commit_batch commit_partition_offsets call
  Ready-commit_batch r what b w p = elim (Bool-cases (is_empty b.partition_offsets)) [
    | inl e ↦ rw e p
    | inr e ↦
        let done = w.log ++ committed s.raw_topic (positions_of b.partition_offsets) ∷ [] in
        rw (e, added b.partition_offsets, h.commits w.log) (Ready-log r w done p)
  ]

  pub Succeeds-commit_batch :
      (r : Option ResourceCircuitBreaker) (what : String) (b : CompletedBatch)
      → Succeeds r r (commit_batch s what b)
  unfolding commit_batch commit_partition_offsets call
  Succeeds-commit_batch r what b = record {
    at = λ w p. (
      tt,
      (commit_batch s what b w).1,
      ground (arith, added b.partition_offsets, h.commits w.log),
      Ready-commit_batch r what b w p,
    );
  }
