-- ===== src/Inference/Engine.antt =====
-- apps/ml-platform/rust-inference/src/inference/onnx_engine.rs: scoring, the risk level, the
-- thresholds of a bundle and the hot swap. A session of ONNX Runtime is a record of its answers; the
-- bundle read from a directory is an argument of `hot_swap`. `f32` gives the literals, and `shown`
-- the text of a float.
pub mod Predicts
use fps_anticheat_data_platf.Prelude.{
  ℕ, ◌+◌, ◌%◌, ◌^◌, Bool, true, false, not, ◌&&◌, ◌||◌, String, Option, none, some, List, [], ◌∷◌,
  length, any, get_elem?, unwrap_or, is_some, ◌==◌, if◌then◌else◌, str_eq,
}
use fps_anticheat_data_platf.Prelude.Float.{Float, lt, le, is_finite, nought, Arithmetic}
use fps_anticheat_data_platf.Prelude.Text.{concat, show_ℕ}
use fps_anticheat_data_platf.Prelude.Result.{Result, ok, err}
use fps_anticheat_data_platf.Inference.Error.{AppError, model_load, inference}

pub record RiskThresholds : Type 0 where
  pub medium : Float
  pub high : Float
  pub critical : Float

-- a named output; an error where it is no tensor of `f32`
abbrev pub Output : Type 0
Output = String × Result String (List Float)

-- a session behind its mutex
pub record Session : Type 0 where
  pub poisoned : Bool
  pub tensor_fault : List Float → Option String
  pub run : List Float → Result String (List Output)

-- the pool has at least one session: `new_with_pool` refuses a size of 0
pub record LoadedModel : Type 0 where
  pub version : String
  pub sha256_checksum : String
  pub feature_names : List String
  pub first_session : Session
  pub more_sessions : List Session
  pub next_session : ℕ
  pub thresholds : RiskThresholds

-- `inner`, with the poisoning of its lock
pub record OnnxInferenceEngine : Type 0 where
  pub poisoned : Bool
  pub model : Option LoadedModel

abbrev model_or : Option LoadedModel → Result AppError LoadedModel
model_or none = err (model_load "ONNX model chưa sẵn sàng")
model_or (some m) = ok m

unfoldable pub current_model : OnnxInferenceEngine → Result AppError LoadedModel
current_model e = if e.poisoned then err (model_load "RwLock model bị poison") else model_or e.model

abbrev version_of : Result AppError LoadedModel → String
version_of (ok m) = m.version
version_of (err e) = "UNAVAILABLE"

unfoldable pub version : OnnxInferenceEngine → String
unfolding current_model
version e = version_of (current_model e)

-- a poisoned lock counts as no model
unfoldable pub is_available : OnnxInferenceEngine → Bool
is_available e = if e.poisoned then false else is_some e.model

abbrev count_of : Result AppError LoadedModel → Option ℕ
count_of (ok m) = some (length m.feature_names)
count_of (err e) = none

unfoldable pub feature_count : OnnxInferenceEngine → Option ℕ
unfolding current_model
feature_count e = count_of (current_model e)

abbrev has_checksum : String → Result AppError LoadedModel → Bool
has_checksum sum (ok m) = str_eq m.sha256_checksum sum
has_checksum sum (err e) = false

-- `hot_swap`, from the bundle that `load_from_directory` answers
unfoldable pub hot_swap :
    Result AppError (Option LoadedModel)
    → OnnxInferenceEngine
    → OnnxInferenceEngine × Result AppError Bool
unfolding current_model
hot_swap (err x) e = (e, err x)
hot_swap (ok none) e = (e, err (model_load "Model bundle mới chưa tồn tại"))
hot_swap (ok (some new_model)) e =
    if has_checksum new_model.sha256_checksum (current_model e)
    then (e, ok false)
    else if e.poisoned
    then (e, err (model_load "RwLock model bị poison trong hot-swap"))
    else (record e { model = some new_model }, ok true)

abbrev last_of : Float → List Float → Float
last_of v [] = v
last_of v (w ∷ rest) = last_of w rest

unfoldable pub extract_probability : Result String (List Float) → Result AppError Float
extract_probability (err e) =
    err (inference (concat ("Output probabilities không phải tensor float32: " ∷ e ∷ [])))
extract_probability (ok []) = err (inference "Output probabilities rỗng")
extract_probability (ok (v ∷ rest)) = ok (last_of v rest)

-- `outputs.get("probabilities")`
unfoldable pub probabilities : List Output → Option (Result String (List Float))
probabilities [] = none
probabilities ((name, values) ∷ rest) =
    let later = probabilities rest in if str_eq name "probabilities" then some values else later

abbrev or_later : Result AppError Float → Result AppError Float → Result AppError Float
or_later (ok v) later = ok v
or_later (err e) later = later

-- the loop over all outputs
unfoldable pub first_probability : List Output → Result AppError Float
unfolding extract_probability
first_probability [] = err (inference "Model không trả probability tensor float32")
first_probability ((name, values) ∷ rest) =
    or_later (extract_probability values) (first_probability rest)

abbrev score_or : Option (Result String (List Float)) → List Output → Result AppError Float
unfolding extract_probability first_probability
score_or (some values) outputs = extract_probability values
score_or none outputs = first_probability outputs

unfoldable pub score_of : List Output → Result AppError Float
unfolding probabilities extract_probability first_probability
score_of outputs = score_or (probabilities outputs) outputs

unfoldable pub risk_level : RiskThresholds → Float → String
risk_level t score =
    if le t.critical score
    then "CRITICAL"
    else if le t.high score
    then "HIGH"
    else if le t.medium score
    then "MEDIUM"
    else "LOW"

abbrev join : List String → String
join [] = ""
join (s ∷ []) = s
join (s ∷ t ∷ rest) = concat (s ∷ ", " ∷ join (t ∷ rest) ∷ [])

abbrev pub session_at : LoadedModel → Session
session_at m =
    let slot = m.next_session % length (m.first_session ∷ m.more_sessions) in
    unwrap_or (get_elem? (m.first_session ∷ m.more_sessions) slot) m.first_session

module _ (f32 : Arithmetic) (shown : Float → String) where
  -- the range check and the level
  unfoldable pub graded : RiskThresholds → Result AppError Float → Result AppError (Float × String)
  unfolding risk_level
  graded t (err e) = err e
  graded t (ok score) =
      if not (is_finite score) || not (le nought score && le score (f32.literal 10 1))
      then err (inference (concat ("Model trả risk probability ngoài [0,1]: " ∷ shown score ∷ [])))
      else ok (score, risk_level t score)

  abbrev scored : RiskThresholds → Result String (List Output) → Result AppError (Float × String)
  unfolding graded score_of
  scored t (err e) = err (inference (concat ("ONNX Runtime thất bại: " ∷ e ∷ [])))
  scored t (ok outputs) = graded t (score_of outputs)

  abbrev fed :
      RiskThresholds → List Float → Session → Option String → Result AppError (Float × String)
  unfolding graded score_of
  fed t features s (some e) = err (inference (concat ("Tạo input tensor thất bại: " ∷ e ∷ [])))
  fed t features s none = scored t (s.run features)

  -- the use of one session
  unfoldable pub run_session :
      RiskThresholds → List Float → Session → Result AppError (Float × String)
  unfolding graded score_of
  run_session t features s =
      if s.poisoned
      then err (inference "ONNX session mutex bị poison")
      else fed t features s (s.tensor_fault features)

  -- `predict` with the current model; the round-robin counter wraps
  unfoldable pub predict_with :
      LoadedModel → List Float → LoadedModel × Result AppError (Float × String)
  unfolding run_session show_ℕ
  predict_with m features =
      if not (length features == length m.feature_names)
      then (
        m,
        err (
            inference (
              concat (
                "Sai feature count: nhận "
                ∷ show_ℕ (length features)
                ∷ ", model yêu cầu "
                ∷ show_ℕ (length m.feature_names)
                ∷ " ("
                ∷ join m.feature_names
                ∷ ")"
                ∷ []))),
      )
      else if any (λ value. not (is_finite value)) features
      then (m, err (inference "Feature chứa NaN hoặc Infinity"))
      else (
        record m { next_session = (m.next_session + 1) % 2 ^ 64 },
        run_session m.thresholds features (session_at m),
      )

  abbrev predict_if :
      OnnxInferenceEngine
      → List Float
      → Result AppError LoadedModel
      → OnnxInferenceEngine × Result AppError (Float × String)
  unfolding predict_with
  predict_if e features (err x) = (e, err x)
  predict_if e features (ok m) =
      (record e { model = some (predict_with m features).0 }, (predict_with m features).1)

  unfoldable pub predict :
      List Float → OnnxInferenceEngine → OnnxInferenceEngine × Result AppError (Float × String)
  unfolding predict_with current_model
  predict features e = predict_if e features (current_model e)
