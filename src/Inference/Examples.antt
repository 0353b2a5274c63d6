-- ===== src/Inference/Examples.antt =====
-- Runs of the inference service at concrete inputs.
pub mod Starting
pub mod Loading
pub mod Accepting
pub mod Serving
pub mod Predicting
use mathlib.Core.List.{Permᴰ}
use fps_anticheat_data_platf.Prelude.{
  take, ℕ, zero, suc, ◌*◌, ◌≤◌, ◌≡◌, ◌≢◌, ◌↔◌, ◌⊎◌, inl, refl, true, false, String, Option, none,
  some, List, [], ◌∷◌, length, All, arith,
}
use fps_anticheat_data_platf.Prelude.Int.{pos}
use fps_anticheat_data_platf.Prelude.Float.{Float, fin, nought, le, is_finite, Arithmetic}
use fps_anticheat_data_platf.Prelude.Result.{Result, ok, err}
use fps_anticheat_data_platf.Prelude.Text.{trim}
use fps_anticheat_data_platf.Inference.Error.{AppError}
use fps_anticheat_data_platf.Inference.Policy.{
  RuleConfig, PolicyConfig, validate, validate_rules, is_bad_rule, load_from_file,
}
use fps_anticheat_data_platf.Inference.Policy.Ranges.{IsPolicy, validate-ok_iff, load_from_file-ok}
use fps_anticheat_data_platf.Inference.Evidence.{EvidenceItem, EvidenceMatrix, generate_evidence}
use fps_anticheat_data_platf.Inference.Evidence.Top.{
  IsDescending, anomalies, AllReport, generate_evidence_lem,
}
use fps_anticheat_data_platf.Inference.Evaluator.{evaluate, by_lock_error}
use fps_anticheat_data_platf.Inference.Evaluator.Decides.{IsExtreme, evaluate_poisoned}
use fps_anticheat_data_platf.Inference.Engine.{
  RiskThresholds, Session, LoadedModel, OnnxInferenceEngine, current_model, is_available,
  feature_count, version, predict, predict_with, run_session, graded, score_of, probabilities,
  extract_probability, risk_level, hot_swap,
}
use fps_anticheat_data_platf.Inference.Engine.Predicts.{
  IsLevel, predict-ok, version-predict, hot_swap_lem,
}
use fps_anticheat_data_platf.Inference.Engine.Predicts.{HasFinite}
use fps_anticheat_data_platf.Inference.Bundle.{
  ThresholdPolicy, threshold_named, required_threshold, check_order, thresholds_of,
}
use fps_anticheat_data_platf.Inference.Bundle.Accepted.{IsIncreasing, thresholds_of-ok}
use fps_anticheat_data_platf.Inference.Server.{
  IpcPredictRequest, IpcPredictResponse, Written, written, Reading, received, evaluate_request,
  handle_connection,
}
use fps_anticheat_data_platf.Inference.Server.Responds.{
  IsScored, IsRefusal, Concludes, evaluate_request_lem, handle_connection_lem,
}

abbrev pub scaled : ℕ → ℕ → Float
scaled d zero = fin (pos (d * 1000))
scaled d (suc zero) = fin (pos (d * 100))
scaled d (suc (suc zero)) = fin (pos (d * 10))
scaled d _ = fin (pos d)

-- arithmetic on thousandths, in which products and quotients are the first operand
abbrev pub f32 : Arithmetic
f32 = record {
  literal = scaled;
  of_nat = λ n. fin (pos (n * 1000));
  add = λ a b. a;
  powi = λ a n. a;
  sqrt = λ a. a;
  sub = λ a b. a;
  mul = λ a b. a;
  div = λ a b. a;
  round = λ a. a;
  parse = λ s. none;
  show = λ p a. "0";
}

abbrev pub shown : Float → String
shown x = "x"

abbrev suspend : RuleConfig
suspend = record {
  name = "auto_suspend";
  min_score = fin (pos 900);
  max_score = fin (pos 1010);
  min_headshot_zscore = none;
  action = "SUSPEND_ACCOUNT";
  priority = "HIGH";
  reason = "high score";
}

abbrev pub policy : PolicyConfig
policy = record { version = "v2"; default_action = "CLEAR"; rules = suspend ∷ [] }

abbrev pub from_yaml : String → Result String PolicyConfig
from_yaml text = ok policy

loads : load_from_file f32 from_yaml "p.yaml" true (ok "rules") ≡ ok policy
unfolding load_from_file validate validate_rules is_bad_rule trim
loads = refl

load_from_file-ok_example :
    (true ≡ true)
    × ((text : String) × (◌≡◌ {A = Result String String} (ok "rules") (ok text))
        × (from_yaml text ≡ ok policy))
    × IsPolicy (fin (pos 1010)) policy
load_from_file-ok_example =
    load_from_file-ok f32 refl from_yaml "p.yaml" true (ok "rules") policy loads

-- features of which none is extreme
abbrev pub fair : List Float
fair = fin (pos 200) ∷ fin (pos 90) ∷ []

abbrev no_evidence : EvidenceMatrix
no_evidence = record { top_evidence_features = [] }

evaluate_poisoned_example :
    let outcome = evaluate f32 none (fin (pos 10)) no_evidence fair in
    (IsExtreme f32 fair × (outcome.action ≡ "PERMANENT_BAN") × (outcome.priority ≡ "CRITICAL"))
    ⊎ ((¬ IsExtreme f32 fair)
        × (outcome.action ≡ "ESCALATE_TO_MODERATOR")
        × (outcome.priority ≡ "HIGH")
        × (outcome.policy_rule ≡ "fallback_lock_error")
        × (outcome.policy_version ≡ "UNAVAILABLE"))
evaluate_poisoned_example = evaluate_poisoned f32 (fin (pos 10)) no_evidence fair

abbrev measures : List Float
measures = fin (pos 2000) ∷ fin (pos 5000) ∷ fin (pos 9000) ∷ []

generate_evidence_lem_example :
    (items : List EvidenceItem) × (sorted : List EvidenceItem) × AllReport f32
      (anomalies f32 measures)
      items
    × Permᴰ sorted items
    × IsDescending sorted
    × ((generate_evidence f32 measures).top_evidence_features ≡ take 2 sorted)
generate_evidence_lem_example = generate_evidence_lem f32 measures

abbrev pub thresholds : RiskThresholds
thresholds = record { medium = fin (pos 400); high = fin (pos 700); critical = fin (pos 900) }

-- a session that answers two probabilities
abbrev pub session : Session
session = record {
  poisoned = false;
  tensor_fault = λ xs. none;
  run = λ xs.
      ok (("label", err "int64") ∷ ("probabilities", ok (fin (pos 250) ∷ fin (pos 750) ∷ [])) ∷ []);
}

abbrev model : LoadedModel
model = record {
  version = "v7";
  sha256_checksum = "aa";
  feature_names = "a" ∷ "b" ∷ [];
  first_session = session;
  more_sessions = session ∷ [];
  next_session = 3;
  thresholds = thresholds;
}

abbrev engine : OnnxInferenceEngine
engine = record { poisoned = false; model = some model }

engine_current : current_model engine ≡ ok model
unfolding current_model
engine_current = refl

scores : (predict f32 shown fair engine).1 ≡ ok (fin (pos 750), "HIGH")
unfolding predict predict_with run_session graded score_of probabilities extract_probability
    risk_level current_model
scores = refl

engine_finite : (m : LoadedModel) → engine.model ≡ some m → HasFinite m.thresholds
engine_finite m e =
    let same : model ≡ m = cc e in
    rw (← same) (record { medium = refl; high = refl; critical = refl })

predict-ok_example :
    (is_available engine ≡ true)
    × (m : LoadedModel) × (engine.model ≡ some m)
    × (feature_count engine ≡ some (length fair))
    × All (λ v. is_finite v ≡ true) fair
    × (le nought (fin (pos 750)) ≡ true)
    × (le (fin (pos 750)) (fin (pos 1000)) ≡ true)
    × IsLevel m.thresholds (fin (pos 750)) "HIGH"
predict-ok_example = predict-ok f32 shown fair engine (fin (pos 750)) "HIGH" engine_finite scores

abbrev update : Result AppError (Option LoadedModel)
update = ok (some (record model { sha256_checksum = "bb" }))

hot_swap_lem_example :
    (((hot_swap update engine).1 ≡ ok true)
      × (update ≡ ok (hot_swap update engine).0.model)
      × ((hot_swap update engine).0.poisoned ≡ false))
    ⊎ (((hot_swap update engine).1 ≢ ok true) × ((hot_swap update engine).0 ≡ engine))
hot_swap_lem_example = hot_swap_lem update engine

abbrev request : IpcPredictRequest
request = record { op = "predict"; match_id = "m1"; player_id = "p1"; features = fair }

abbrev unchanged : OnnxInferenceEngine → OnnxInferenceEngine
unchanged e = e

evaluate_request_lem_example :
    IsScored f32 shown unchanged request
      (some policy)
      engine
      (evaluate_request f32 shown unchanged request (some policy) engine).1
    ⊎ IsRefusal (evaluate_request f32 shown unchanged request (some policy) engine).1
evaluate_request_lem_example = evaluate_request_lem f32 shown unchanged request (some policy) engine

abbrev from_json : List ℕ → Result String IpcPredictRequest
from_json bytes = ok request

abbrev to_vec : IpcPredictResponse → Result String (List ℕ)
to_vec response = ok (91 ∷ 93 ∷ [])

abbrev write_all : List ℕ → Written
write_all bytes = written

handle_connection_lem_example :
    Concludes f32 shown unchanged 64 from_json to_vec write_all
      (some policy)
      engine
      (received (123 ∷ 125 ∷ 10 ∷ []))
      (handle_connection f32 shown unchanged 64 from_json to_vec write_all
        (some policy)
        engine
        (received (123 ∷ 125 ∷ 10 ∷ []))).1
handle_connection_lem_example =
    handle_connection_lem f32 shown unchanged 64 from_json to_vec write_all (some policy) engine
      (received (123 ∷ 125 ∷ 10 ∷ []))
