-- ===== src/Streamer/App/Announced.antt =====
-- A batch with unique records through services that refuse nothing: it is stored, and its features
-- are announced.
use fps_anticheat_data_platf.Prelude.{
  ℕ, ◌≡◌, ◌<◌, refl, ◌∙◌, ◌⊎◌, inr, true, false, String, some, List, [], ◌∷◌, ◌++◌, is_empty,
  length, arith,
}
use fps_anticheat_data_platf.Prelude.Result.{ok}
use fps_anticheat_data_platf.Streamer.Columns.{IsTable}
use fps_anticheat_data_platf.Streamer.Bronze.{events_to_record_batch}
use fps_anticheat_data_platf.Streamer.Silver.Reads.{bronze_rows-events_to_record_batch}
use fps_anticheat_data_platf.Streamer.Gold.{gold_schema, gold_columns}
use fps_anticheat_data_platf.Streamer.Gold.Reads.{gold_of}
use fps_anticheat_data_platf.Streamer.Parquet.{record_batch_to_parquet_bytes}
use fps_anticheat_data_platf.Streamer.Accumulator.{CompletedBatch}
use fps_anticheat_data_platf.Streamer.Validator.{ValidationOutcome}
use fps_anticheat_data_platf.Streamer.Dedup.{DeduplicateOutcome}
use fps_anticheat_data_platf.Streamer.Breaker.{ResourceCircuitBreaker, can_spawn}
use fps_anticheat_data_platf.Streamer.Storage.{upload_parquet, upload_manifest}
use fps_anticheat_data_platf.Streamer.Storage.Consistent.{held, held-put, held-put_other}
use fps_anticheat_data_platf.Streamer.Storage.Keys.{
  generate_bronze_path-not_blank, manifest-ne-bronze,
}
use fps_anticheat_data_platf.Streamer.Producer.{NativeWorkerResult}
use fps_anticheat_data_platf.Streamer.Producer.Published.{publish_gold_ready-ok}
use fps_anticheat_data_platf.Streamer.Worker
use fps_anticheat_data_platf.Streamer.Worker.Local.{batch_id_of}
use fps_anticheat_data_platf.Streamer.Worker.Projects.{IsProjected, artifacts_of, puts_of}
use fps_anticheat_data_platf.Streamer.Worker.Healthy.{Holds, process_manifest_projects}
use fps_anticheat_data_platf.Streamer.Action.{Effect, put, World, call}
use fps_anticheat_data_platf.Streamer.App.{
  Services, encode, manifest_of, process_manifest, store_batch,
}
use fps_anticheat_data_platf.Streamer.App.Stored.{
  IsStored, bronze_key, manifest_key, described_in, assemble,
}
use fps_anticheat_data_platf.Streamer.App.Durable.{validated, deduplicated}
use fps_anticheat_data_platf.Streamer.App.Loss.{nonempty_length}
use fps_anticheat_data_platf.Streamer.App.Successes.{
  IsHealthy, GivesBack, Succeeds-publish_gold_ready,
}

module _ {B W R : Type 0} (s : Services B W R) where
  -- The effects store the batch, and the Gold object among them is the encoded table of the features
  -- of the unique records.
  pub record Announced (b : CompletedBatch) (val : ValidationOutcome) (dedup : DeduplicateOutcome)
      (before es : List Effect) : Type 0 where
    pub stored : IsStored s b val dedup before es
    pub gold : B
    pub features :
        IsTable s.native.lib
          (length (gold_of s.native.f64 s.native.iterate dedup.unique_records))
          gold_schema
          (gold_columns s.native.created_at
            (gold_of s.native.f64 s.native.iterate dedup.unique_records))
          gold
    pub written : record_batch_to_parquet_bytes s.native.parquet gold ≡ ok stored.tables.gold

  -- the breaker after a batch: as before it, or after one reading of the load
  abbrev pub Ticked : ResourceCircuitBreaker → ResourceCircuitBreaker → Type 0
  Ticked b b' =
      (b' ≡ b) ⊎ ((l : List Effect) × (b' ≡ (can_spawn s.f32 (s.proc l).0 (s.proc l).1 b).0))

  module _ (b₀ : ResourceCircuitBreaker) (h : IsHealthy s b₀) where
    -- the store, when the worker starts on a batch
    held-described_in :
        (b : CompletedBatch) (bytes json : List ℕ) (before : List Effect)
        → (held (bronze_key s b) (described_in s b bytes json before) ≡ some bytes)
          × (held (manifest_key s b) (described_in s b bytes json before) ≡ some json)
    held-described_in b bytes json before = (
      held-put_other (bronze_key s b) (manifest_key s b) (before ++ put (bronze_key s b) bytes ∷ [])
            json (manifest-ne-bronze s.calendar b.batch_id s.now)
          ∙ held-put (bronze_key s b) before bytes,
      held-put (manifest_key s b) (before ++ put (bronze_key s b) bytes ∷ []) json,
    )

    Holds-described_in :
        (b : CompletedBatch) (back : GivesBack s b) (rb : B) (bytes : List ℕ) (before : List Effect)
        → events_to_record_batch s.native.lib (deduplicated s b).unique_records ≡ ok rb
        → record_batch_to_parquet_bytes s.native.parquet rb ≡ ok bytes
        → 0 < s.native.lib.num_rows rb
        → (json : List ℕ) × (s.manifest_json (
              manifest_of s b
                (validated s b)
                (deduplicated s b)
                (bronze_key s b)
                (s.native.sha256_bytes bytes))
            ≡ ok json)
          × Holds s.native (described_in s b bytes json before) (manifest_key s b) rb
    Holds-described_in b back rb bytes before made written some_row =
        let (json, content, printed, is_text, parsed) =
          back.manifest (s.native.sha256_bytes bytes) in
        let log = described_in s b bytes json before in
        let (temp, directory) = h.directories log in
        let (batches, decodes, some_batch, same_rows) =
          back.bronze rb bytes made written some_row in
        let there = held-described_in b bytes json before in
        (
          json,
          printed,
          record {
            temp = temp;
            manifest = json;
            content = content;
            bronze_key = bronze_key s b;
            bronze = bytes;
            permit = h.permits log;
            directory = directory;
            has_manifest = h.store.reads log (manifest_key s b) json there.1;
            is_text = is_text;
            is_json = parsed;
            not_blank = generate_bronze_path-not_blank s.calendar b.batch_id s.now;
            has_bronze = h.store.reads log (bronze_key s b) bytes there.0;
            batches = batches;
            decodes = decodes;
            some_batch = some_batch;
            same_rows = same_rows;
          },
        )

    process_manifest-runs :
        (key : String) (w w' : World) (r : NativeWorkerResult)
        → w.breaker ≡ b₀
        → Worker.process_manifest s.native key
            (record w { breaker = (can_spawn s.f32 (s.proc w.log).0 (s.proc w.log).1 w.breaker).0 })
          ≡ (ok r, w')
        → process_manifest s key w ≡ (ok r, w')
    unfolding process_manifest
    process_manifest-runs key w w' r ready runs =
        let allowed : (can_spawn s.f32 (s.proc w.log).0 (s.proc w.log).1 w.breaker).1 ≡ true =
          rw ready (h.allows w.log) in
        rw (h.unpoisoned w.log, allowed) runs

    pub store_batch_announces :
        (b : CompletedBatch) (w : World)
        → GivesBack s b
        → w.breaker ≡ b₀
        → is_empty (deduplicated s b).unique_records ≡ false
        → (n : ℕ) × (w' : World) × (es : List Effect) × (store_batch s b
              (validated s b)
              (deduplicated s b)
              w
            ≡ (ok n, w'))
          × (w'.log ≡ w.log ++ es)
          × Announced b (validated s b) (deduplicated s b) w.log es
          × Ticked w.breaker w'.breaker
    unfolding store_batch encode upload_parquet upload_manifest call
    store_batch_announces b w back ready some_record =
        let val = validated s b in
        let dedup = deduplicated s b in
        let (rb, made, rows, _) =
          bronze_rows-events_to_record_batch s.native.lib dedup.unique_records h.works.arrow in
        let (bytes, written) = h.works.encodes rb in
        let some_row : 0 < s.native.lib.num_rows rb =
          omega (arith, rows, nonempty_length dedup.unique_records some_record) in
        let (json, printed, holds) =
          Holds-described_in b back rb bytes w.log made written some_row in
        let key = manifest_key s b in
        let w₁ : World = record w { log = w.log ++ put (bronze_key s b) bytes ∷ [] } in
        let w₂ : World = record w { log = described_in s b bytes json w.log } in
        let u : World = record w₂ {
          breaker = (can_spawn s.f32 (s.proc w₂.log).0 (s.proc w₂.log).1 w₂.breaker).0;
        } in
        let (g, t, runs, decoded, transformed, features, gold_written) =
          process_manifest_projects s.native key dedup.unique_records rb u h.works holds made in
        let w₃ : World = record u { log = u.log ++ puts_of s.native (batch_id_of key) t } in
        let r : NativeWorkerResult = record {
          manifest_key = key;
          artifacts = artifacts_of s.native (batch_id_of key) t;
        } in
        let p : IsProjected s.native key u w₃ r = record {
          temp = holds.temp;
          batches = holds.batches;
          tables = t;
          decoded = decoded;
          transformed = transformed;
          result = refl;
          world = refl;
        } in
        let (n, w', sends, same_breaker) =
          (Succeeds-publish_gold_ready s b₀ h (some u.breaker) b.batch_id r).at w₃ refl in
        let (announced, l₄, told, _) =
          publish_gold_ready-ok s.sha256 s.event_json s.send_fault s.producer s.created_at
            b.batch_id r w₃ w' n sends in
        let encoded : encode s dedup.unique_records ≡ ok bytes = rw (made, written) refl in
        let (es, grows, stored, same) =
          assemble s b val dedup bytes json r announced (s.native.sha256_bytes bytes) w w₁ w₂ u w₃
            w' encoded refl printed refl p told refl refl l₄ in
        (
          n,
          w',
          es,
          rw
              (
                made,
                written,
                h.works.puts w.log,
                printed,
                h.works.puts w₁.log,
                process_manifest-runs key w₂ w₃ r ready runs,
                sends,
              )
              refl,
          grows,
          record { stored = stored; gold = g; features = features; written = rw same gold_written },
          inr (w₂.log, same_breaker),
        )
