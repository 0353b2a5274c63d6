-- ===== src/Streamer/App/Stored.antt =====
-- The effects of storing a batch.
use fps_anticheat_data_platf.Prelude.{
  ℕ, ◌≡◌, refl, sym, ◌∙◌, inl, inr, String, List, [], ◌∷◌, ◌++◌, append_assoc, append-nil, arith,
  ap, keep, Bool-cases,
}
use fps_anticheat_data_platf.Prelude.Result.{ok, Result-cases}
use fps_anticheat_data_platf.Streamer.Accumulator.{CompletedBatch}
use fps_anticheat_data_platf.Streamer.Validator.{ValidationOutcome}
use fps_anticheat_data_platf.Streamer.Dedup.{DeduplicateOutcome}
use fps_anticheat_data_platf.Streamer.Storage.{
  BatchManifest, generate_bronze_path, generate_manifest_path, upload_parquet, upload_manifest,
}
use fps_anticheat_data_platf.Streamer.Producer.{NativeWorkerResult, is_gold, publish_gold_ready}
use fps_anticheat_data_platf.Streamer.Producer.Published.{
  Announces, publish_gold_ready-ok, publish_gold_ready-IsQuiet,
}
use fps_anticheat_data_platf.Streamer.Action.{Effect, put, World, Action, call, ◌>>=◌, ◌>>◌}
use fps_anticheat_data_platf.Streamer.Action.Extends.{IsQuiet, quiet_rules}
use fps_anticheat_data_platf.Streamer.Action.Inversion.{bind-ok}
use fps_anticheat_data_platf.Streamer.Breaker.{can_spawn}
use fps_anticheat_data_platf.Streamer.Worker.Local.{
  Tables, bronze_batches, transform, batch_id_of, output_name,
}
use fps_anticheat_data_platf.Streamer.Worker.Projects.{
  IsProjected, process_manifest-IsProjected, artifact, puts_of,
}
use fps_anticheat_data_platf.Streamer.Worker.Quiet
use fps_anticheat_data_platf.Streamer.App.{
  Services, encode, process_manifest, manifest_of, store_batch,
}

module _ {B W R : Type 0} (s : Services B W R) where
  upload_parquet-ok :
      (path : String) (bytes : List ℕ) (w w' : World) (c : String)
      → upload_parquet s.native.sha256_bytes s.native.store.put_fault path bytes w ≡ (ok c, w')
      → (c ≡ s.native.sha256_bytes bytes) × (w'.log ≡ w.log ++ put path bytes ∷ [])
  unfolding upload_parquet call
  upload_parquet-ok path bytes w w' c h = ground arith

  upload_manifest-ok :
      (path : String) (m : BatchManifest) (w w' : World)
      → upload_manifest s.manifest_json s.native.store.put_fault path m w ≡ (ok tt, w')
      → (json : List ℕ) × (s.manifest_json m ≡ ok json) × (w'.log ≡ w.log ++ put path json ∷ [])
  unfolding upload_manifest call
  upload_manifest-ok path m w w' h = elim (Result-cases (s.manifest_json m)) [
    | inl (json, e) ↦ (json, e, ground (arith, e))
    | inr (x, e) ↦ absurd (ground (arith, e))
  ]

  process_manifest-ok :
      (key : String) (w w' : World) (r : NativeWorkerResult)
      → process_manifest s key w ≡ (ok r, w')
      → (u : World) × (u.log ≡ w.log) × IsProjected s.native key u w' r
  unfolding process_manifest
  process_manifest-ok key w w' r h = elim (Bool-cases (s.poisoned w.log)) [
    | inl e ↦ absurd (cc (rw e at h))
    | inr e ↦
        let spawn = can_spawn s.f32 (s.proc w.log).0 (s.proc w.log).1 w.breaker in
        let u : World = record w { breaker = spawn.0 } in
        elim (Bool-cases spawn.1) [
          | inl a ↦ (u, refl, process_manifest-IsProjected s.native key u w' r (rw (e, a) at h))
          | inr a ↦ absurd (cc (rw (e, a) at h))
        ]
  ]

  process_manifest-IsQuiet : (key : String) → IsQuiet (process_manifest s key)
  unfolding process_manifest
  process_manifest-IsQuiet key = record {
    at = λ w. elim (Bool-cases (s.poisoned w.log)) [
      | inl e ↦ rw e (record { added = []; grows = sym (append-nil w.log); quiet = tt })
      | inr e ↦
          let spawn = can_spawn s.f32 (s.proc w.log).0 (s.proc w.log).1 w.breaker in
          let u : World = record w { breaker = spawn.0 } in
          elim (Bool-cases spawn.1) [
            | inr a ↦ rw (e, a) (record { added = []; grows = sym (append-nil w.log); quiet = tt })
            | inl a ↦
                let q = (Quiet.process_manifest-IsQuiet s.native key).at u in
                rw (e, a) (record { added = q.added; grows = q.grows; quiet = q.quiet })
          ]
    ];
  }

  upload_parquet-IsQuiet :
      (path : String) (bytes : List ℕ)
      → IsQuiet (upload_parquet s.native.sha256_bytes s.native.store.put_fault path bytes)
  unfolding upload_parquet
  upload_parquet-IsQuiet path bytes = search quiet_rules

  upload_manifest-IsQuiet :
      (path : String) (m : BatchManifest)
      → IsQuiet (upload_manifest s.manifest_json s.native.store.put_fault path m)
  unfolding upload_manifest
  upload_manifest-IsQuiet path m = search quiet_rules

  pub store_batch-IsQuiet :
      (b : CompletedBatch) (val : ValidationOutcome) (dedup : DeduplicateOutcome)
      → IsQuiet (store_batch s b val dedup)
  unfolding store_batch
  store_batch-IsQuiet b val dedup =
      search
        (
          quiet_rules, upload_parquet-IsQuiet, upload_manifest-IsQuiet, process_manifest-IsQuiet,
          publish_gold_ready-IsQuiet,
        )
        depth 12

  -- the keys of the two objects that a batch writes here
  abbrev pub bronze_key : CompletedBatch → String
  bronze_key b = generate_bronze_path s.calendar b.batch_id s.now

  abbrev pub manifest_key : CompletedBatch → String
  manifest_key b = generate_manifest_path s.calendar b.batch_id s.now

  -- what the native worker calls a batch
  abbrev pub batch_name : CompletedBatch → String
  batch_name b = batch_id_of (manifest_key b)

  -- the log when the worker starts
  abbrev pub described_in : CompletedBatch → List ℕ → List ℕ → List Effect → List Effect
  described_in b bytes json before =
      (before ++ put (bronze_key b) bytes ∷ []) ++ put (manifest_key b) json ∷ []

  -- the effects of storing a batch after those of `before`: the Bronze object, its manifest, the
  -- three tables that the transforms make of what the manifest's Bronze object then holds, and an
  -- announcement of the Gold one
  pub record IsStored (b : CompletedBatch) (val : ValidationOutcome) (dedup : DeduplicateOutcome)
      (before es : List Effect) : Type 0 where
    pub bytes : List ℕ
    pub json : List ℕ
    pub temp : String
    pub batches : List B
    pub tables : Tables
    pub announced : List Effect
    pub encoded : encode s dedup.unique_records ≡ ok bytes
    pub described :
        s.manifest_json (manifest_of s b val dedup (bronze_key b) (s.native.sha256_bytes bytes))
        ≡ ok json
    pub decoded :
        bronze_batches s.native (described_in b bytes json before) (manifest_key b) temp
        ≡ ok batches
    pub transformed : transform s.native batches ≡ ok tables
    pub announces :
        Announces s.sha256 s.event_json s.send_fault s.producer s.created_at b.batch_id
          (manifest_key b)
          (artifact s.native "gold/player-match-features"
              (output_name "gold_features_" (batch_name b))
              tables.gold
            ∷ [])
          announced
    pub effects :
        es
        ≡ put (bronze_key b) bytes
          ∷ put (manifest_key b) json
          ∷ (puts_of s.native (batch_name b) tables ++ announced)

  pub assemble :
      (b : CompletedBatch) (val : ValidationOutcome) (dedup : DeduplicateOutcome)
      (bytes json : List ℕ) (r : NativeWorkerResult) (announced : List Effect) (c : String)
      (w w₁ w₂ u w₃ w' : World)
      → encode s dedup.unique_records ≡ ok bytes
      → c ≡ s.native.sha256_bytes bytes
      → s.manifest_json (manifest_of s b val dedup (bronze_key b) c) ≡ ok json
      → u.log ≡ w₂.log
      → (p : IsProjected s.native (manifest_key b) u w₃ r)
      → Announces s.sha256 s.event_json s.send_fault s.producer s.created_at b.batch_id
          r.manifest_key
          (keep is_gold r.artifacts)
          announced
      → w₁.log ≡ w.log ++ put (bronze_key b) bytes ∷ []
      → w₂.log ≡ w₁.log ++ put (manifest_key b) json ∷ []
      → w'.log ≡ w₃.log ++ announced
      → (es : List Effect) × (w'.log ≡ w.log ++ es)
        × (stored : IsStored b val dedup w.log es) × (stored.tables ≡ p.tables)
  unfolding is_gold
  assemble b val dedup bytes json r announced c w w₁ w₂ u w₃ w' e c_eq json_eq same p told l₁ l₂
        l₄ =
      let there : u.log ≡ described_in b bytes json w.log = cc (same, l₂, l₁) in
      let l₃ : w₃.log ≡ u.log ++ puts_of s.native (batch_name b) p.tables =
        ap (λ (z : World). z.log) p.world in
      (
        put (bronze_key b) bytes
            ∷ put (manifest_key b) json
            ∷ (puts_of s.native (batch_name b) p.tables ++ announced),
        l₄ ∙ simp (l₃, there, append_assoc),
        record {
          bytes = bytes;
          json = json;
          temp = p.temp;
          batches = p.batches;
          tables = p.tables;
          announced = announced;
          encoded = e;
          described = rw c_eq at json_eq;
          decoded = rw there at p.decoded;
          transformed = p.transformed;
          announces = rw p.result at told;
          effects = refl;
        },
        refl,
      )

  pub store_batch-ok :
      (b : CompletedBatch) (val : ValidationOutcome) (dedup : DeduplicateOutcome) (w w' : World)
      (n : ℕ)
      → store_batch s b val dedup w ≡ (ok n, w')
      → (es : List Effect) × (w'.log ≡ w.log ++ es) × IsStored b val dedup w.log es
  unfolding store_batch
  store_batch-ok b val dedup w w' n h = elim (Result-cases (encode s dedup.unique_records)) [
    | inr (x, e) ↦ absurd (ground (arith, e))
    | inl (bytes, e) ↦
        let upload =
          upload_parquet s.native.sha256_bytes s.native.store.put_fault (bronze_key b) bytes in
        let manifest = λ (c : String). manifest_of s b val dedup (bronze_key b) c in
        let publish = λ (r : NativeWorkerResult).
          publish_gold_ready s.sha256 s.event_json s.send_fault s.producer s.created_at b.batch_id
            r in
        let project_it : Action ℕ = process_manifest s (manifest_key b) >>= publish in
        let describe = λ (c : String).
          upload_manifest s.manifest_json s.native.store.put_fault (manifest_key b) (manifest c) in
        let (c, w₁, p₁, q₁) = bind-ok upload (λ c. describe c >> project_it) w (rw e at h) in
        let (x, w₂, p₂, q₂) = bind-ok (describe c) (λ _. project_it) w₁ q₁ in
        let (r, w₃, p₃, q₃) = bind-ok (process_manifest s (manifest_key b)) publish w₂ q₂ in
        let (c_eq, l₁) = upload_parquet-ok (bronze_key b) bytes w w₁ c p₁ in
        let (json, json_eq, l₂) = upload_manifest-ok (manifest_key b) (manifest c) w₁ w₂ p₂ in
        let (u, same, projected) = process_manifest-ok (manifest_key b) w₂ w₃ r p₃ in
        let (es, l₄, told, n_eq) =
          publish_gold_ready-ok s.sha256 s.event_json s.send_fault s.producer s.created_at
            b.batch_id r w₃ w' n q₃ in
        let (effects, grows, stored, _) =
          assemble b val dedup bytes json r es c w w₁ w₂ u w₃ w' e c_eq json_eq same projected told
            l₁ l₂ l₄ in
        (effects, grows, stored)
  ]
