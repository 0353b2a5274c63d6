-- ===== src/Inference/Bundle.antt =====
-- apps/ml-platform/rust-inference/src/inference/onnx_engine.rs: the checks of a model bundle's
-- feature schema and threshold policy. A HashMap is a list of entries.
pub mod Accepted
pub mod Load
pub mod Verified
use fps_anticheat_data_platf.Prelude.{
  ℕ, Bool, true, false, not, ◌||◌, String, Option, none, some, List, [], ◌∷◌, length, is_empty, ltb,
  if◌then◌else◌, str_eq,
}
use fps_anticheat_data_platf.Prelude.Float.{Float, lt, le, is_finite, nought, Arithmetic}
use fps_anticheat_data_platf.Prelude.Text.{concat}
use fps_anticheat_data_platf.Prelude.Result.{Result, ok, err, ◌>>=◌}
use fps_anticheat_data_platf.Inference.Error.{AppError, model_load}
use fps_anticheat_data_platf.Inference.Engine.{RiskThresholds}

pub record FeatureSchema : Type 0 where
  pub model_version : String
  pub features : List String

pub record ThresholdPolicy : Type 0 where
  pub thresholds : List (String × Float)

-- `policy.thresholds.get(name)`
unfoldable pub threshold_named : String → List (String × Float) → Option Float
threshold_named name [] = none
threshold_named name ((key, value) ∷ rest) =
    let later = threshold_named name rest in if str_eq key name then some value else later

abbrev finite_or : String → Option Float → Result AppError Float
finite_or name none = err (model_load (concat ("Threshold policy thiếu " ∷ name ∷ " hợp lệ" ∷ [])))
finite_or name (some value) =
    if is_finite value
    then ok value
    else err (model_load (concat ("Threshold policy thiếu " ∷ name ∷ " hợp lệ" ∷ [])))

unfoldable pub required_threshold : ThresholdPolicy → String → Result AppError Float
unfolding threshold_named
required_threshold policy name = finite_or name (threshold_named name policy.thresholds)

unfoldable pub check_schema : FeatureSchema → Result AppError (Unit {0})
check_schema schema =
    if is_empty schema.features || ltb 128 (length schema.features)
    then err (model_load "Feature schema phải chứa từ 1 đến 128 features")
    else ok tt

module _ (f32 : Arithmetic) where
  -- the range check of the three thresholds
  unfoldable pub check_order : RiskThresholds → Result AppError RiskThresholds
  check_order t =
      if not (lt nought t.medium)
        || le t.high t.medium
        || le t.critical t.high
        || lt (f32.literal 10 1) t.critical
      then err
          (model_load "Thresholds phải tăng dần trong khoảng 0 < MEDIUM < HIGH < CRITICAL <= 1")
      else ok t

  unfoldable pub thresholds_of : ThresholdPolicy → Result AppError RiskThresholds
  unfolding required_threshold check_order
  thresholds_of policy = do
    medium ← required_threshold policy "MEDIUM"
    high ← required_threshold policy "HIGH"
    critical ← required_threshold policy "CRITICAL"
    check_order (record { medium = medium; high = high; critical = critical })
