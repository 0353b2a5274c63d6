-- ===== src/Streamer/Worker/Healthy.antt =====
-- The native worker where the store, the disk and the libraries work.
use fps_anticheat_data_platf.Prelude.{
  ℕ, ◌≡◌, refl, ap, false, String, none, some, List, [], ◌∷◌, ◌++◌, length, is_empty,
}
use fps_anticheat_data_platf.Prelude.Text.{is_blank, trim, last_segment}
use fps_anticheat_data_platf.Prelude.Result
use fps_anticheat_data_platf.Prelude.Result.{Result, ok, err}
use fps_anticheat_data_platf.Streamer.Domain.{AnyEnvelope}
use fps_anticheat_data_platf.Streamer.Columns.{IsArrow, IsTable}
use fps_anticheat_data_platf.Streamer.Bronze.{events_to_record_batch}
use fps_anticheat_data_platf.Streamer.Silver.{bronze_rows, process_silver}
use fps_anticheat_data_platf.Streamer.Gold.{gold_schema, gold_columns, generate_gold}
use fps_anticheat_data_platf.Streamer.Gold.Reads.{gold_of, project, project_lem}
use fps_anticheat_data_platf.Streamer.Parquet.{record_batch_to_parquet_bytes, read_parquet_bytes}
use fps_anticheat_data_platf.Streamer.Producer.{UploadedArtifact}
use fps_anticheat_data_platf.Streamer.Action.{Effect, World, call}
use fps_anticheat_data_platf.Streamer.Storage.Downloads.{
  LocalFile, DiskOperation, create, list, read, make_dir, write, join, download_object_bytes,
  download_to_temp,
}
use fps_anticheat_data_platf.Streamer.Storage.Objects.{upload_file}
use fps_anticheat_data_platf.Streamer.Worker.Local.{
  Output, LocalDir, WorkerServices, Tables, parse_bronze_key_from_manifest, bronze_batches,
  transform, make_dirs, write_entries, write_files, output, output_name, output_dirs, batch_id_of,
  outputs,
}
use fps_anticheat_data_platf.Streamer.Worker.{
  upload_entries, upload_layer, upload_layers, upload_outputs, process_manifest,
}
use fps_anticheat_data_platf.Streamer.Worker.Projects.{
  after_put, artifact, artifacts_of, puts_of, three_puts,
}

module _ {B W R : Type 0} (s : WorkerServices B W R) where
  -- The disk, the uploads and the encoder work, and so does the Arrow library.
  pub record Works : Type 0 where
    pub disk : (op : DiskOperation) (path : String) → s.disk.fault op path ≡ none
    pub buffers : (path : String) (bytes : List ℕ) → s.disk.buffered path bytes ≡ ok bytes
    pub puts : (log : List Effect) → s.store.put_fault log ≡ none
    pub encodes :
        (b : B) → (bytes : List ℕ) × (record_batch_to_parquet_bytes s.parquet b ≡ ok bytes)
    pub arrow : IsArrow s.lib

  -- After the calls of a log, the store has a manifest under the key, which names a Bronze object
  -- that decodes to batches with the rows of a table.
  pub record Holds (log : List Effect) (key : String) (b : B) : Type 0 where
    pub temp : String
    pub manifest : List ℕ
    pub content : String
    pub bronze_key : String
    pub bronze : List ℕ
    pub permit : s.acquire_owned log ≡ none
    pub directory : s.tempdir log ≡ ok temp
    pub has_manifest : s.store.get log key ≡ ok (ok manifest)
    pub is_text : s.utf8 manifest ≡ ok content
    pub is_json : s.from_str content ≡ ok (some bronze_key)
    pub not_blank : is_blank (trim bronze_key) ≡ false
    pub has_bronze : s.store.get log bronze_key ≡ ok (ok bronze)
    pub batches : List B
    pub decodes : read_parquet_bytes s.parquet bronze ≡ ok batches
    pub some_batch : is_empty batches ≡ false
    pub same_rows : bronze_rows s.lib batches ≡ bronze_rows s.lib (b ∷ [])

  module _ (works : Works) where
    make_dirs-ok : (dirs : List LocalDir) → make_dirs s dirs ≡ ok tt
    unfolding make_dirs
    make_dirs-ok [] = refl
    make_dirs-ok (d ∷ rest) = rw (works.disk make_dir d.path) (make_dirs-ok rest)

    write_entries-ok : (entries : List Output) → write_entries s entries ≡ ok tt
    unfolding write_entries
    write_entries-ok [] = refl
    write_entries-ok (o ∷ rest) = rw (works.disk write o.file.path) (write_entries-ok rest)

    write_files-ok : (dirs : List LocalDir) → write_files s dirs ≡ ok tt
    unfolding write_files
    write_files-ok [] = refl
    write_files-ok (d ∷ rest) = rw (write_entries-ok d.entries) (write_files-ok rest)

    upload_layer_puts :
        (temp layer name : String) (bytes : List ℕ) (before : List UploadedArtifact) (w : World)
        → upload_layer s layer (some (output temp layer name bytes)) before w
          ≡ (ok (before ++ artifact s layer name bytes ∷ []), after_put s (join layer name) bytes w)
    unfolding upload_layer upload_entries upload_file call
    upload_layer_puts temp layer name bytes before w =
        rw
          (
            works.disk list (join temp layer),
            works.disk read (join (join temp layer) name),
            works.puts w.log,
          )
          refl

    upload_outputs_puts :
        (temp id key : String) (t : Tables) (w : World)
        → upload_outputs s (output_dirs temp id t) key w
          ≡ (ok (artifacts_of s id t), record w { log = w.log ++ puts_of s id t })
    unfolding upload_outputs upload_layers
    upload_outputs_puts temp id key t w =
        let ke = output_name "kill_events_" id in
        let pm = output_name "player_match_" id in
        let before1 = artifact s "silver/kill-events" ke t.silver_ke ∷ [] in
        let w1 = after_put s (join "silver/kill-events" ke) t.silver_ke w in
        let before2 = before1 ++ artifact s "silver/player-match" pm t.silver_pm ∷ [] in
        let w2 = after_put s (join "silver/player-match" pm) t.silver_pm w1 in
        rw
          (
            upload_layer_puts temp "silver/kill-events" ke t.silver_ke [] w,
            upload_layer_puts temp "silver/player-match" pm t.silver_pm before1 w1,
            upload_layer_puts temp "gold/player-match-features" (output_name "gold_features_" id)
                t.gold before2 w2,
          )
          (ap (λ l. (ok (artifacts_of s id t), record w { log = l })) (three_puts w.log _ _ _))

    abbrev downloaded : String → String → List ℕ → LocalFile
    downloaded temp key bytes = record {
      path = join temp (last_segment "downloaded_object" key);
      bytes = bytes;
    }

    download_to_temp-ok :
        (log : List Effect) (key temp : String) (bytes : List ℕ)
        → s.store.get log key ≡ ok (ok bytes)
        → download_to_temp s.store s.disk log key temp ≡ ok (downloaded temp key bytes)
    unfolding download_to_temp download_object_bytes
    download_to_temp-ok log key temp bytes h =
        let path = join temp (last_segment "downloaded_object" key) in
        rw (h, works.disk create path, works.buffers path bytes) refl

    bronze_batches-ok :
        (log : List Effect) (key : String) (b : B) (h : Holds log key b)
        → bronze_batches s log key h.temp ≡ ok h.batches
    unfolding bronze_batches parse_bronze_key_from_manifest
    bronze_batches-ok log key b h =
        rw
          (
            download_to_temp-ok log key h.temp h.manifest h.has_manifest,
            works.disk read (downloaded h.temp key h.manifest).path,
            h.is_text,
            h.is_json,
            h.not_blank,
            download_to_temp-ok log h.bronze_key h.temp h.bronze h.has_bronze,
            works.disk read (downloaded h.temp h.bronze_key h.bronze).path,
            h.decodes,
            h.some_batch,
          )
          refl

    -- the Silver step reads nothing of the batches but their rows
    process_silver-rows :
        (batches : List B) (b : B)
        → bronze_rows s.lib batches ≡ bronze_rows s.lib (b ∷ [])
        → process_silver s.lib s.iterate batches ≡ process_silver s.lib s.iterate (b ∷ [])
    unfolding process_silver
    process_silver-rows batches b h = rw h refl

    -- the Gold table of the events, and the encoded tables
    transform-ok :
        (events : List AnyEnvelope) (b : B) (batches : List B)
        → events_to_record_batch s.lib events ≡ ok b
        → bronze_rows s.lib batches ≡ bronze_rows s.lib (b ∷ [])
        → (g : B) × (t : Tables) × (transform s batches ≡ ok t)
          × IsTable s.lib
              (length (gold_of s.f64 s.iterate events))
              gold_schema
              (gold_columns s.created_at (gold_of s.f64 s.iterate events))
              g
          × (record_batch_to_parquet_bytes s.parquet g ≡ ok t.gold)
    unfolding transform project
    transform-ok events b batches made same =
        let (g, projected, table) =
          project_lem s.f64 s.iterate s.lib s.created_at events works.arrow in
        let ((ke, pm), silver, gold) =
          Result.bind-ok (process_silver s.lib s.iterate (b ∷ []))
            (λ p. generate_gold s.f64 s.lib s.created_at p.0 p.1) (rw made at projected) in
        let (ke_bytes, ke_encoded) = works.encodes ke in
        let (pm_bytes, pm_encoded) = works.encodes pm in
        let (gold_bytes, gold_encoded) = works.encodes g in
        (
          g,
          record { silver_ke = ke_bytes; silver_pm = pm_bytes; gold = gold_bytes },
          rw
              (
                process_silver-rows batches b same,
                silver,
                gold,
                ke_encoded,
                pm_encoded,
                gold_encoded,
              )
              refl,
          table,
          gold_encoded,
        )

    outputs-are :
        (log : List Effect) (key : String) (b : B) (t : Tables) (h : Holds log key b)
        → transform s h.batches ≡ ok t
        → outputs s log key ≡ ok (output_dirs h.temp (batch_id_of key) t)
    unfolding outputs
    outputs-are log key b t h transformed =
        let dirs = output_dirs h.temp (batch_id_of key) t in
        rw
          (
            h.permit,
            h.directory,
            bronze_batches-ok log key b h,
            transformed,
            make_dirs-ok dirs,
            write_files-ok dirs,
          )
          refl

  -- what the run of the theorem below was made of
  pub process_manifest_projects :
      (key : String) (events : List AnyEnvelope) (b : B) (w : World) (works : Works)
      (holds : Holds w.log key b)
      → events_to_record_batch s.lib events ≡ ok b
      → (g : B) × (t : Tables) × (process_manifest s key w ≡ (
        ok (record { manifest_key = key; artifacts = artifacts_of s (batch_id_of key) t }),
        record w { log = w.log ++ puts_of s (batch_id_of key) t },
      ))
        × (bronze_batches s w.log key holds.temp ≡ ok holds.batches)
        × (transform s holds.batches ≡ ok t)
        × IsTable s.lib
            (length (gold_of s.f64 s.iterate events))
            gold_schema
            (gold_columns s.created_at (gold_of s.f64 s.iterate events))
            g
        × (record_batch_to_parquet_bytes s.parquet g ≡ ok t.gold)
  unfolding process_manifest
  process_manifest_projects key events b w works holds made =
      let (g, t, transformed, table, encoded) =
        transform-ok works events b holds.batches made holds.same_rows in
      (
        g,
        t,
        rw
            (
              outputs-are works w.log key b t holds transformed,
              upload_outputs_puts works holds.temp (batch_id_of key) key t w,
            )
            refl,
        bronze_batches-ok works w.log key b holds,
        transformed,
        table,
        encoded,
      )

-- From events to announced features: where the store holds a manifest whose Bronze object decodes to
-- batches with the rows of the table that the streamer made of a list of events, and the disk, the
-- uploads and the Arrow and Parquet libraries work, the native worker succeeds, and adds exactly its three objects to the
-- log; the last is the encoded Gold table, whose columns are those of the events' features.
pub process_manifest_succeeds :
    {B W R : Type 0} (s : WorkerServices B W R) (key : String) (events : List AnyEnvelope) (b : B)
    (w : World)
    → Works s
    → events_to_record_batch s.lib events ≡ ok b
    → Holds s w.log key b
    → (g : B) × (t : Tables) × (process_manifest s key w ≡ (
      ok (record { manifest_key = key; artifacts = artifacts_of s (batch_id_of key) t }),
      record w { log = w.log ++ puts_of s (batch_id_of key) t },
    ))
      × IsTable s.lib
          (length (gold_of s.f64 s.iterate events))
          gold_schema
          (gold_columns s.created_at (gold_of s.f64 s.iterate events))
          g
      × (record_batch_to_parquet_bytes s.parquet g ≡ ok t.gold)
process_manifest_succeeds s key events b w works made holds =
    let (g, t, runs, _, _, table, encoded) =
      process_manifest_projects s key events b w works holds made in
    (g, t, runs, table, encoded)
