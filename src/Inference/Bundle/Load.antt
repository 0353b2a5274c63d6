-- ===== src/Inference/Bundle/Load.antt =====
-- apps/ml-platform/rust-inference/src/inference/onnx_engine.rs: loading a model bundle from a directory.
-- The file system, Sha256, serde_json and ONNX Runtime are parameters; the order in which the
-- checksums' HashMap is iterated is that of the list.
use Prim.Native.Char.{code}
use fps_anticheat_data_platf.Prelude.{
  ℕ, zero, suc, ◌+◌, Bool, true, false, not, ◌&&◌, String, Option, none, some, List, [], ◌∷◌, leb,
  ◌==◌, if◌then◌else◌, str_eq,
}
use fps_anticheat_data_platf.Prelude.Float.{Arithmetic}
use fps_anticheat_data_platf.Prelude.Text.{concat, show_ℕ}
use fps_anticheat_data_platf.Prelude.Result.{Result, ok, err, ◌>>=◌}
use fps_anticheat_data_platf.Inference.Error.{
  AppError, config, model_load, checksum_mismatch, io, json,
}
use fps_anticheat_data_platf.Inference.Engine.{Session, LoadedModel, OnnxInferenceEngine}
use fps_anticheat_data_platf.Inference.Bundle.{
  FeatureSchema, ThresholdPolicy, check_schema, thresholds_of,
}

abbrev pub checksum_file : String
checksum_file = "checksums.sha256"

-- the files of a directory: whether a path is there, whether it is a file, and its bytes
pub record Directory : Type 0 where
  pub exists : String → Bool
  pub is_file : String → Bool
  pub read : String → Result String (List ℕ)

-- The libraries: `from_slice` for the three JSON files, and what the builder of the n-th session
-- answers at each call; a session comes with the number of its inputs.
pub record Libraries : Type 0 where
  pub f32 : Arithmetic
  pub sha256 : List ℕ → String
  pub checksums : List ℕ → Result String (List (String × String))
  pub schema : List ℕ → Result String FeatureSchema
  pub policy : List ℕ → Result String ThresholdPolicy
  pub builder : ℕ → Option String
  pub optimization : ℕ → Option String
  pub cuda : ℕ → Option String
  pub commit_from_file : ℕ → Result String (Session × ℕ)

abbrev lower : ℕ → ℕ
lower c = if leb b'A' c && leb c b'Z' then c + 32 else c

unfoldable pub eq_ignore_ascii_case : String → String → Bool
eq_ignore_ascii_case String.[] String.[] = true
eq_ignore_ascii_case String.[] (String.◌∷◌ d t) = false
eq_ignore_ascii_case (String.◌∷◌ c s) String.[] = false
eq_ignore_ascii_case (String.◌∷◌ c s) (String.◌∷◌ d t) =
    lower (code c) == lower (code d) && eq_ignore_ascii_case s t

-- `?` on an error of the file system or of serde_json
unfoldable pub or_error {ℓ} :
    {A : Type ℓ} → (String → AppError) → Result String A → Result AppError A
or_error wrap (ok a) = ok a
or_error wrap (err e) = err (wrap e)

abbrev unless_fault : String → Option String → Result AppError (Unit {0})
unless_fault what none = ok tt
unless_fault what (some e) = err (model_load (concat (what ∷ e ∷ [])))

-- `checksums.get(name)`
unfoldable pub checksum_of : String → List (String × String) → Option String
checksum_of name [] = none
checksum_of name ((key, value) ∷ rest) =
    let later = checksum_of name rest in if str_eq key name then some value else later

unfoldable pub listed_or : Option String → Result AppError String
listed_or none = err (checksum_mismatch "checksums.sha256 thiếu model.onnx")
listed_or (some sum) = ok sum

module _ (dir : Directory) (lib : Libraries) where
  unfoldable pub check_required : List String → Result AppError (Unit {0})
  check_required [] = ok tt
  check_required (required ∷ rest) =
      let later = check_required rest in
      if not (dir.is_file required)
      then err (model_load (concat ("Model bundle thiếu file bắt buộc " ∷ required ∷ [])))
      else later

  abbrev same_digest : String → String → Result String (List ℕ) → Result AppError (Unit {0})
  same_digest filename expected (err e) = err (io e)
  same_digest filename expected (ok bytes) =
      if eq_ignore_ascii_case (lib.sha256 bytes) expected
      then ok tt
      else err (
          checksum_mismatch
            (concat (filename ∷ ": expected " ∷ expected ∷ ", actual " ∷ lib.sha256 bytes ∷ [])))

  -- one round of the loop over the checksums
  unfoldable pub check_file : String → String → Result AppError (Unit {0})
  check_file filename expected =
      if str_eq filename checksum_file
      then ok tt
      else if not (dir.is_file filename)
      then err (
          checksum_mismatch
            (concat ("Checksum manifest tham chiếu artifact không tồn tại: " ∷ filename ∷ [])))
      else same_digest filename expected (dir.read filename)

  unfoldable pub check_files : List (String × String) → Result AppError (Unit {0})
  unfolding check_file
  check_files [] = ok tt
  check_files ((filename, expected) ∷ rest) = do _ ← check_file filename expected; check_files rest

  abbrev one_input : Session × ℕ → Result AppError Session
  one_input (session, inputs) =
      if not (inputs == 1)
      then err
          (model_load (concat ("Model phải có đúng 1 input tensor, nhận " ∷ show_ℕ inputs ∷ [])))
      else ok session

  unfoldable pub new_session : ℕ → Result AppError Session
  unfolding or_error
  new_session i = do
    _ ← unless_fault "Không tạo được ONNX session builder: " (lib.builder i)
    _ ← unless_fault "Không bật được ONNX optimization: " (lib.optimization i)
    _ ← unless_fault "Cấu hình ONNX CUDA Execution Provider thất bại: " (lib.cuda i)
    found ←
        or_error (λ e. model_load (concat ("ONNX model validation thất bại: " ∷ e ∷ [])))
          (lib.commit_from_file i)
    one_input found

  -- `n` sessions, the first of which is the i-th
  unfoldable pub new_sessions : ℕ → ℕ → Result AppError (List Session)
  unfolding new_session
  new_sessions i zero = ok []
  new_sessions i (suc n) = do
    session ← new_session i
    sessions ← new_sessions (suc i) n
    ok (session ∷ sessions)

  -- the bundle of a directory that has a model, with `more` sessions after the first
  unfoldable pub load_bundle : ℕ → Result AppError LoadedModel
  unfolding or_error listed_or check_required check_files checksum_of new_session new_sessions
      check_schema thresholds_of
  load_bundle more = do
    _ ← check_required ("feature_schema.json" ∷ "threshold_policy.json" ∷ checksum_file ∷ [])
    listing ← or_error io (dir.read checksum_file)
    checksums ← or_error json (lib.checksums listing)
    _ ← check_files checksums
    model_checksum ← listed_or (checksum_of "model.onnx" checksums)
    schema_bytes ← or_error io (dir.read "feature_schema.json")
    feature_schema ← or_error json (lib.schema schema_bytes)
    _ ← check_schema feature_schema
    policy_bytes ← or_error io (dir.read "threshold_policy.json")
    policy ← or_error json (lib.policy policy_bytes)
    thresholds ← thresholds_of lib.f32 policy
    first ← new_session 0
    rest ← new_sessions 1 more
    ok (record {
      version = feature_schema.model_version;
      sha256_checksum = model_checksum;
      feature_names = feature_schema.features;
      first_session = first;
      more_sessions = rest;
      next_session = 0;
      thresholds = thresholds;
    })

  abbrev loaded : Result AppError LoadedModel → Result AppError (Option LoadedModel)
  loaded (ok m) = ok (some m)
  loaded (err e) = err e

  unfoldable pub load_from_directory : ℕ → Result AppError (Option LoadedModel)
  unfolding load_bundle
  load_from_directory more =
      if not (dir.exists "model.onnx") then ok none else loaded (load_bundle more)

  abbrev engine_with : Result AppError (Option LoadedModel) → Result AppError OnnxInferenceEngine
  engine_with (ok m) = ok (record { poisoned = false; model = m })
  engine_with (err e) = err e

  unfoldable pub new_with_pool : ℕ → Result AppError OnnxInferenceEngine
  unfolding load_from_directory
  new_with_pool zero = err (config "INFERENCE_SESSION_POOL_SIZE phải lớn hơn 0")
  new_with_pool (suc more) = engine_with (load_from_directory more)
