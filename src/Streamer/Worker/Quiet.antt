-- ===== src/Streamer/Worker/Quiet.antt =====
-- The native worker commits no offset, also where it fails halfway.
use fps_anticheat_data_platf.Prelude.{
  Bool, true, false, String, Option, none, some, List, [], ◌∷◌, if◌then◌else◌,
}
use fps_anticheat_data_platf.Streamer.Producer.{UploadedArtifact}
use fps_anticheat_data_platf.Prelude.Result.{err}
use fps_anticheat_data_platf.Streamer.Action.{AppError, World, pure, raise, lift}
use fps_anticheat_data_platf.Streamer.Action.Extends.{
  IsQuiet, IsQuiet-bind, IsQuiet-lift, IsQuiet-pure, Quietly-refl, quiet_rules,
}
use fps_anticheat_data_platf.Streamer.Storage.Downloads.{LocalFile}
use fps_anticheat_data_platf.Streamer.Storage.Objects.{upload_file}
use fps_anticheat_data_platf.Streamer.Worker.Local.{Output, LocalDir, WorkerServices, outputs}
use fps_anticheat_data_platf.Streamer.Worker.{
  layers, upload_entries, upload_layer, upload_layers, upload_outputs, process_manifest,
}

module _ {B W R : Type 0} (s : WorkerServices B W R) where
  upload_file-IsQuiet :
      (file : LocalFile) (key : String)
      → IsQuiet (upload_file s.store s.disk s.sha256_bytes file key)
  unfolding upload_file
  upload_file-IsQuiet file key = search quiet_rules

  upload_entries-IsQuiet :
      (layer : String) (entries : List Output) (artifacts : List UploadedArtifact)
      → IsQuiet (upload_entries s layer entries artifacts)
  unfolding upload_entries
  upload_entries-IsQuiet layer [] artifacts = search quiet_rules
  upload_entries-IsQuiet layer (entry ∷ rest) artifacts =
      IsQuiet-bind _ _ (upload_file-IsQuiet entry.file _) (λ c. upload_entries-IsQuiet layer rest _)

  upload_layer-IsQuiet :
      (layer : String) (dir : Option LocalDir) (artifacts : List UploadedArtifact)
      → IsQuiet (upload_layer s layer dir artifacts)
  unfolding upload_layer
  upload_layer-IsQuiet layer none artifacts = search quiet_rules
  upload_layer-IsQuiet layer (some dir) artifacts = search (quiet_rules, upload_entries-IsQuiet)

  upload_layers-IsQuiet :
      (names : List String) (dirs : List LocalDir) (artifacts : List UploadedArtifact)
      → IsQuiet (upload_layers s names dirs artifacts)
  unfolding upload_layers
  upload_layers-IsQuiet [] dirs artifacts = search quiet_rules
  upload_layers-IsQuiet (layer ∷ rest) dirs artifacts =
      IsQuiet-bind _ _ (upload_layer-IsQuiet layer _ artifacts)
        (λ more. upload_layers-IsQuiet rest dirs more)

  unless_empty :
      (empty : Bool) (e : AppError) (artifacts : List UploadedArtifact)
      → IsQuiet (if empty then raise e else pure artifacts)
  unless_empty true e artifacts = IsQuiet-lift (err e)
  unless_empty false e artifacts = IsQuiet-pure artifacts

  upload_outputs-IsQuiet :
      (dirs : List LocalDir) (key : String) → IsQuiet (upload_outputs s dirs key)
  unfolding upload_outputs
  upload_outputs-IsQuiet dirs key =
      IsQuiet-bind (upload_layers s (layers s) dirs []) _ (upload_layers-IsQuiet (layers s) dirs [])
        (λ artifacts. search unless_empty)

  computed_outputs : (key : String) → IsQuiet (λ (w : World). lift (outputs s w.log key) w)
  computed_outputs key = record { at = λ w. Quietly-refl w }

  pub process_manifest-IsQuiet : (key : String) → IsQuiet (process_manifest s key)
  unfolding process_manifest
  process_manifest-IsQuiet key =
      IsQuiet-bind _ _ (computed_outputs key)
        (λ dirs. IsQuiet-bind _ _ (upload_outputs-IsQuiet dirs key) (λ a. IsQuiet-pure _))
