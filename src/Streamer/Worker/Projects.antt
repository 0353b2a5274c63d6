-- ===== src/Streamer/Worker/Projects.antt =====
-- What the native worker has done when it answers.
use fps_anticheat_data_platf.Prelude.{
  ℕ, ◌≡◌, sym, ap, ◌∙◌, ◌⊎◌, inl, inr, Option-cases, String, some, List, [], ◌∷◌, ◌++◌,
  append_assoc, arith,
}
use fps_anticheat_data_platf.Prelude.Text.{concat}
use fps_anticheat_data_platf.Prelude.Result
use fps_anticheat_data_platf.Prelude.Result.{Result, ok, err, Result-cases}
use fps_anticheat_data_platf.Streamer.Producer.{UploadedArtifact, NativeWorkerResult}
use fps_anticheat_data_platf.Streamer.Action.{
  AppError, worker, storage, Effect, put, World, pure, call,
}
use fps_anticheat_data_platf.Streamer.Action.Inversion.{bind-ok}
use fps_anticheat_data_platf.Streamer.Storage.Downloads.{LocalFile, list, read, join}
use fps_anticheat_data_platf.Streamer.Storage.Objects.{upload_file}
use fps_anticheat_data_platf.Streamer.Worker.Local.{
  LocalDir, WorkerServices, Tables, bronze_batches, transform, make_dirs, write_files, output,
  output_name, output_dirs, batch_id_of, outputs,
}
use fps_anticheat_data_platf.Streamer.Worker.{
  upload_entries, upload_layer, upload_layers, upload_outputs, process_manifest,
}

pub three_puts :
    (log : List Effect) (a b c : Effect)
    → ((log ++ a ∷ []) ++ b ∷ []) ++ c ∷ [] ≡ log ++ a ∷ b ∷ c ∷ []
three_puts log a b c = simp append_assoc

-- two answers, the second with another name for its world
answer-ok :
    {A : Type 0} {a r : A} {v w' u : World}
    → ◌≡◌ {A = Result AppError A × World} (ok a, v) (ok r, w')
    → v ≡ u
    → (r ≡ a) × (w' ≡ u)
answer-ok h e = (cc h, sym (ap (λ x. x.1) h) ∙ e)

module _ {B W R : Type 0} (s : WorkerServices B W R) where
  abbrev pub after_put : String → List ℕ → World → World
  after_put key bytes w = record w { log = w.log ++ put key bytes ∷ [] }

  upload_file-ok :
      (file : LocalFile) (key c : String) (w w' : World)
      → upload_file s.store s.disk s.sha256_bytes file key w ≡ (ok c, w')
      → (c ≡ s.sha256_bytes file.bytes) × (w' ≡ after_put key file.bytes w)
  unfolding upload_file call
  upload_file-ok file key c w w' h = ground arith

  abbrev pub artifact : String → String → List ℕ → UploadedArtifact
  artifact layer name bytes = record {
    object_key = join layer name;
    checksum_sha256 = s.sha256_bytes bytes;
    layer = layer;
  }

  upload_layer_cases :
      (temp layer name : String) (bytes : List ℕ) (before : List UploadedArtifact) (w : World)
      → (upload_layer s layer (some (output temp layer name bytes)) before w
          ≡ (ok (before ++ artifact layer name bytes ∷ []), after_put (join layer name) bytes w))
        ⊎ ((e : AppError) × (upload_layer s layer (some (output temp layer name bytes)) before w
              ≡ (err e, w)))
  unfolding upload_layer upload_entries upload_file call
  upload_layer_cases temp layer name bytes before w =
      elim (Option-cases (s.disk.fault list (join temp layer))) [
        | inr (e, h) ↦ inr (
          worker (concat ("Không thể đọc output directory '" ∷ join temp layer ∷ "': " ∷ e ∷ [])),
          rw h,
        )
        | inl h ↦ elim (Option-cases (s.disk.fault read (join (join temp layer) name))) [
          | inr (e, k) ↦ inr (
            storage (
                concat (
                  "Không thể đọc file local '"
                  ∷ join (join temp layer) name
                  ∷ "' để upload: "
                  ∷ e
                  ∷ [])),
            rw (h, k),
          )
          | inl k ↦ elim (Option-cases (s.store.put_fault w.log)) [
            | inr (e, l) ↦ inr (
              storage (
                  concat (
                    "Upload file '"
                    ∷ join (join temp layer) name
                    ∷ "' lên MinIO key '"
                    ∷ join layer name
                    ∷ "' thất bại: "
                    ∷ e
                    ∷ [])),
              rw (h, k, l),
            )
            | inl l ↦ inl (rw (h, k, l))
          ]
        ]
      ]

  abbrev pub artifacts_of : String → Tables → List UploadedArtifact
  artifacts_of id t =
      artifact "silver/kill-events" (output_name "kill_events_" id) t.silver_ke
      ∷ artifact "silver/player-match" (output_name "player_match_" id) t.silver_pm
      ∷ artifact "gold/player-match-features" (output_name "gold_features_" id) t.gold
      ∷ []

  abbrev pub puts_of : String → Tables → List Effect
  puts_of id t =
      put (join "silver/kill-events" (output_name "kill_events_" id)) t.silver_ke
      ∷ put (join "silver/player-match" (output_name "player_match_" id)) t.silver_pm
      ∷ put (join "gold/player-match-features" (output_name "gold_features_" id)) t.gold
      ∷ []

  upload_outputs-ok :
      (temp id key : String) (t : Tables) (r : List UploadedArtifact) (w w' : World)
      → upload_outputs s (output_dirs temp id t) key w ≡ (ok r, w')
      → (r ≡ artifacts_of id t) × (w' ≡ record w { log = w.log ++ puts_of id t })
  unfolding upload_outputs upload_layers
  upload_outputs-ok temp id key t r w w' h =
      let ke = output_name "kill_events_" id in
      let pm = output_name "player_match_" id in
      let before1 = artifact "silver/kill-events" ke t.silver_ke ∷ [] in
      let w1 = after_put (join "silver/kill-events" ke) t.silver_ke w in
      let before2 = before1 ++ artifact "silver/player-match" pm t.silver_pm ∷ [] in
      let w2 = after_put (join "silver/player-match" pm) t.silver_pm w1 in
      elim (upload_layer_cases temp "silver/kill-events" ke t.silver_ke [] w) [
        | inr (e, a) ↦ absurd (cc (rw a at h))
        | inl a ↦ elim (upload_layer_cases temp "silver/player-match" pm t.silver_pm before1 w1) [
          | inr (e, b) ↦ absurd (cc (rw (a, b) at h))
          | inl b ↦
              elim (upload_layer_cases temp "gold/player-match-features"
                (output_name "gold_features_" id) t.gold before2 w2) [
                  | inr (e, c) ↦ absurd (cc (rw (a, b, c) at h))
                  | inl c ↦
                      answer-ok (rw (a, b, c) at h)
                        (ap (λ l. record w { log = l }) (three_puts w.log _ _ _))
                ]
        ]
      ]

  -- what a successful run was made of
  pub record IsProjected (key : String) (w w' : World) (r : NativeWorkerResult) : Type 0 where
    pub temp : String
    pub batches : List B
    pub tables : Tables
    pub decoded : bronze_batches s w.log key temp ≡ ok batches
    pub transformed : transform s batches ≡ ok tables
    pub result :
        r ≡ record { manifest_key = key; artifacts = artifacts_of (batch_id_of key) tables }
    pub world : w' ≡ record w { log = w.log ++ puts_of (batch_id_of key) tables }

  outputs-ok :
      (log : List Effect) (key : String) (dirs : List LocalDir)
      → outputs s log key ≡ ok dirs
      → (temp : String) × (batches : List B) × (t : Tables) × (bronze_batches s log key temp
          ≡ ok batches)
        × (transform s batches ≡ ok t)
        × (dirs ≡ output_dirs temp (batch_id_of key) t)
  unfolding outputs
  outputs-ok log key dirs h0 = elim (Option-cases (s.acquire_owned log)) [
    | inr (e, h1) ↦ absurd (cc (rw h1 at h0))
    | inl h1 ↦ elim (Result-cases (s.tempdir log)) [
      | inr (e, h2) ↦ absurd (cc (rw (h1, h2) at h0))
      | inl (temp, h2) ↦
          let (batches, decoded, h3) =
            Result.bind-ok (bronze_batches s log key temp) _ (rw (h1, h2) at h0) in
          let (t, transformed, h4) = Result.bind-ok (transform s batches) _ h3 in
          let (_, _, h5) =
            Result.bind-ok (make_dirs s (output_dirs temp (batch_id_of key) t)) _ h4 in
          let (_, _, h6) =
            Result.bind-ok (write_files s (output_dirs temp (batch_id_of key) t)) _ h5 in
          (temp, batches, t, decoded, transformed, cc h6)
    ]
  ]

  -- A run of the native worker that succeeds has written exactly three objects, and no offset was
  -- committed: the two Silver tables and the Gold table that the transforms make of the batches in
  -- the Bronze object that the manifest names, under keys with the manifest's name; the result
  -- lists them in this order, each with its layer and the checksum of the bytes written.
  pub process_manifest-IsProjected :
      (key : String) (w w' : World) (r : NativeWorkerResult)
      → process_manifest s key w ≡ (ok r, w')
      → IsProjected key w w' r
  unfolding process_manifest
  process_manifest-IsProjected key w w' r h = elim (Result-cases (outputs s w.log key)) [
    | inr (e, o) ↦ absurd (cc (rw o at h))
    | inl (dirs, o) ↦
        let (artifacts, v, uploaded, k) =
          bind-ok (upload_outputs s dirs key)
            (λ artifacts. pure (record { manifest_key = key; artifacts = artifacts })) w
            (rw o at h) in
        let (temp, batches, t, decoded, transformed, same) = outputs-ok w.log key dirs o in
        let (listed, moved) =
          upload_outputs-ok temp (batch_id_of key) key t artifacts w v (rw same at uploaded) in
        record {
          temp = temp;
          batches = batches;
          tables = t;
          decoded = decoded;
          transformed = transformed;
          result = cc (k, listed);
          world = cc (k, moved);
        }
  ]
