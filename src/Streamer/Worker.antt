-- ===== src/Streamer/Worker.antt =====
-- apps/rust-structured-streamer/src/worker/native_worker.rs: from a manifest to the Silver and Gold
-- objects. The temporary directory is explicit: `outputs` is what it holds when the uploads start.
pub mod Local
pub mod Projects
pub mod Quiet
pub mod Healthy
use fps_anticheat_data_platf.Prelude.{
  ℕ, Bool, true, false, String, Option, none, some, List, [], ◌∷◌, ◌++◌, find?, is_empty, str_eq,
  if◌then◌else◌,
}
use fps_anticheat_data_platf.Prelude.Text.{concat}
use fps_anticheat_data_platf.Prelude.Result.{Result, ok, err}
use fps_anticheat_data_platf.Streamer.Producer.{UploadedArtifact, NativeWorkerResult}
use fps_anticheat_data_platf.Streamer.Action.{
  AppError, worker, Effect, World, Action, pure, raise, lift, call, ◌>>=◌, ◌>>◌,
}
use fps_anticheat_data_platf.Streamer.Storage.Downloads.{
  LocalFile, Disk, list, ObjectStore, or_error, unless_fault,
}
use fps_anticheat_data_platf.Streamer.Storage.Objects.{upload_file}
use fps_anticheat_data_platf.Streamer.Storage.Downloads.{join}
use fps_anticheat_data_platf.Streamer.Worker.Local.{Output, LocalDir, WorkerServices, outputs}

module _ {B W R : Type 0} (s : WorkerServices B W R) where
  -- the loop over the entries of a layer's directory
  unfoldable pub upload_entries :
      String → List Output → List UploadedArtifact → Action (List UploadedArtifact)
  unfolding upload_file
  upload_entries s3_prefix [] artifacts = pure artifacts
  upload_entries s3_prefix (entry ∷ rest) artifacts = do
    let object_key = join s3_prefix entry.name
    checksum_sha256 ← upload_file s.store s.disk s.sha256_bytes entry.file object_key
    upload_entries s3_prefix rest (
        artifacts
        ++ record { object_key = object_key; checksum_sha256 = checksum_sha256; layer = s3_prefix }
          ∷ [])

  unfoldable pub upload_layer :
      String → Option LocalDir → List UploadedArtifact → Action (List UploadedArtifact)
  unfolding upload_entries
  upload_layer s3_prefix none artifacts = pure artifacts
  upload_layer s3_prefix (some dir) artifacts = do
    lift (
        unless_fault
          (λ e. worker (concat ("Không thể đọc output directory '" ∷ dir.path ∷ "': " ∷ e ∷ [])))
          (s.disk.fault list dir.path))
    upload_entries s3_prefix dir.entries artifacts

  -- the loop over the layers; a layer without a directory is skipped
  unfoldable pub upload_layers :
      List String → List LocalDir → List UploadedArtifact → Action (List UploadedArtifact)
  unfolding upload_layer
  upload_layers [] temp_dir artifacts = pure artifacts
  upload_layers (layer ∷ rest) temp_dir artifacts = do
    artifacts' ← upload_layer layer (find? (λ d. str_eq d.subdir layer) temp_dir) artifacts
    upload_layers rest temp_dir artifacts'

  abbrev pub layers : List String
  layers = "silver/kill-events" ∷ "silver/player-match" ∷ "gold/player-match-features" ∷ []

  unfoldable pub upload_outputs : List LocalDir → String → Action (List UploadedArtifact)
  unfolding upload_layers
  upload_outputs temp_dir manifest_key = do
    artifacts ← upload_layers layers temp_dir []
    if is_empty artifacts
        then raise (
            worker (
              concat (
                "Native Rust worker không tạo artifact nào cho manifest '" ∷ manifest_key ∷ "'"
                ∷ [])))
        else pure artifacts

  unfoldable pub process_manifest : String → Action NativeWorkerResult
  unfolding outputs upload_outputs
  process_manifest manifest_key = do
    temp_dir ← λ w. lift (outputs s w.log manifest_key) w
    artifacts ← upload_outputs temp_dir manifest_key
    pure (record { manifest_key = manifest_key; artifacts = artifacts })
