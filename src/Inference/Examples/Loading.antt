-- ===== src/Inference/Examples/Loading.antt =====
-- A model bundle that passes every check.
use fps_anticheat_data_platf.Prelude.{true, none, [], ◌∷◌}
use fps_anticheat_data_platf.Prelude.Int.{pos}
use fps_anticheat_data_platf.Prelude.Float.{fin}
use fps_anticheat_data_platf.Prelude.Result.{ok}
use fps_anticheat_data_platf.Inference.Engine.{LoadedModel}
use fps_anticheat_data_platf.Inference.Bundle.{ThresholdPolicy}
use fps_anticheat_data_platf.Inference.Bundle.Load.{Directory, Libraries}
use fps_anticheat_data_platf.Inference.Examples.{f32, session, thresholds}

abbrev entries : ThresholdPolicy
entries = record {
  thresholds =
      ("HIGH", fin (pos 700)) ∷ ("CRITICAL", fin (pos 900)) ∷ ("MEDIUM", fin (pos 400)) ∷ [];
}

abbrev pub bundle : Directory
bundle = record { exists = λ path. true; is_file = λ path. true; read = λ path. ok (7 ∷ []) }

-- the list names itself, the model with capitals in its digest, and the schema
abbrev pub libraries : Libraries
libraries = record {
  f32 = f32;
  sha256 = λ bytes. "ab01";
  checksums = λ bytes.
      ok
        (("checksums.sha256", "-") ∷ ("model.onnx", "AB01") ∷ ("feature_schema.json", "ab01") ∷ []);
  schema = λ bytes. ok (record { model_version = "v7"; features = "kills" ∷ "headshots" ∷ [] });
  policy = λ bytes. ok entries;
  builder = λ i. none;
  optimization = λ i. none;
  cuda = λ i. none;
  commit_from_file = λ i. ok (session, 1);
}

abbrev pub loaded : LoadedModel
loaded = record {
  version = "v7";
  sha256_checksum = "AB01";
  feature_names = "kills" ∷ "headshots" ∷ [];
  first_session = session;
  more_sessions = session ∷ [];
  next_session = 0;
  thresholds = thresholds;
}
