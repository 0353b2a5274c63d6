-- ===== src/Inference/Evaluator.antt =====
-- apps/ml-platform/rust-inference/src/decision/evaluator.rs: the decision on a player. The policy
-- behind the lock is `none` when the lock is poisoned.
pub mod Decides
use fps_anticheat_data_platf.Prelude.{
  ℕ, Bool, true, false, ◌&&◌, String, Option, none, some, List, [], ◌∷◌, length, get_elem?,
  unwrap_or, leb, if◌then◌else◌, str_eq,
}
use fps_anticheat_data_platf.Prelude.Float.{Float, lt, le, nought, Arithmetic}
use fps_anticheat_data_platf.Prelude.Text.{concat}
use fps_anticheat_data_platf.Inference.Policy.{RuleConfig, PolicyConfig}
use fps_anticheat_data_platf.Inference.Evidence.{EvidenceItem, EvidenceMatrix}

pub record DecisionOutcome : Type 0 where
  pub action : String
  pub priority : String
  pub reason : String
  pub policy_rule : String
  pub policy_version : String

abbrev ban : String → String → DecisionOutcome
ban reason rule = record {
  action = "PERMANENT_BAN";
  priority = "CRITICAL";
  reason = reason;
  policy_rule = rule;
  policy_version = "v1.0-heuristic";
}

abbrev pub feature : ℕ → List Float → Float
feature i raw = unwrap_or (get_elem? raw i) nought

-- `find(|item| item.feature == "headshot_ratio").map(|item| item.z_score).unwrap_or(0.0)`
unfoldable pub headshot_zscore : List EvidenceItem → Float
headshot_zscore [] = nought
headshot_zscore (item ∷ rest) =
    let later = headshot_zscore rest in
    if str_eq item.feature "headshot_ratio" then item.z_score else later

abbrev pub z_passes : Float → Option Float → Bool
z_passes z none = true
z_passes z (some min_z) = if lt z min_z then false else true

unfoldable pub matches : Float → Float → RuleConfig → Bool
matches risk_score z rule =
    (le rule.min_score risk_score && lt risk_score rule.max_score)
    && z_passes z rule.min_headshot_zscore

abbrev pub by_rule : String → RuleConfig → DecisionOutcome
by_rule version rule = record {
  action = rule.action;
  priority = rule.priority;
  reason = rule.reason;
  policy_rule = rule.name;
  policy_version = version;
}

abbrev pub by_default : PolicyConfig → DecisionOutcome
by_default p = record {
  action = p.default_action;
  priority = "LOW";
  reason = "Không khớp quy tắc cụ thể, áp dụng hành động mặc định";
  policy_rule = "default_action";
  policy_version = p.version;
}

abbrev pub by_lock_error : DecisionOutcome
by_lock_error = record {
  action = "ESCALATE_TO_MODERATOR";
  priority = "HIGH";
  reason = "Policy state không khả dụng; yêu cầu đánh giá thủ công";
  policy_rule = "fallback_lock_error";
  policy_version = "UNAVAILABLE";
}

-- the loop over the rules, with what follows it
unfoldable pub first_rule : PolicyConfig → Float → Float → List RuleConfig → DecisionOutcome
unfolding matches
first_rule p risk_score z [] = by_default p
first_rule p risk_score z (rule ∷ rest) =
    let later = first_rule p risk_score z rest in
    if matches risk_score z rule then by_rule p.version rule else later

abbrev by_policy : Option PolicyConfig → Float → EvidenceMatrix → DecisionOutcome
unfolding first_rule headshot_zscore
by_policy none risk_score evidence = by_lock_error
by_policy (some p) risk_score evidence =
    first_rule p risk_score (headshot_zscore evidence.top_evidence_features) p.rules

module _ (f32 : Arithmetic) where
  -- the tests on the raw features
  unfoldable pub heuristic : List Float → Option DecisionOutcome
  heuristic raw =
      let kills = feature 0 raw in
      let burst_interval = feature 8 raw in
      let teleport_score = feature 9 raw in
      let headshot_streak = feature 10 raw in
      if leb 10 (length raw)
      then (if lt (f32.literal 80 2) teleport_score
          then some (
              ban
                (concat (
                  "Phát hiện Teleport Hack: Chỉ số dịch chuyển vị trí dị thường "
                  ∷ f32.show 2 teleport_score
                  ∷ []))
                "heuristic_teleport_hack")
          else if le (f32.literal 20 1) kills
              && lt nought burst_interval
              && lt burst_interval (f32.literal 2000 1)
          then some (
              ban
                (concat (
                  "Phát hiện Burst Aimbot: Thời gian hạ gục liên tiếp "
                  ∷ f32.show 1 burst_interval
                  ∷ "ms siêu tốc"
                  ∷ []))
                "heuristic_burst_aimbot")
          else if le (f32.literal 50 1) headshot_streak
          then some (
              ban
                (concat (
                  "Phát hiện Headshot Lock: Chuỗi "
                  ∷ f32.show 0 headshot_streak
                  ∷ " lần hạ gục Headshot liên tiếp"
                  ∷ []))
                "heuristic_headshot_streak")
          else none)
      else none

  abbrev or_else : Option DecisionOutcome → DecisionOutcome → DecisionOutcome
  or_else (some outcome) later = outcome
  or_else none later = later

  unfoldable pub evaluate :
      Option PolicyConfig → Float → EvidenceMatrix → List Float → DecisionOutcome
  unfolding heuristic first_rule headshot_zscore
  evaluate config risk_score evidence raw_features =
      or_else (heuristic raw_features) (by_policy config risk_score evidence)
