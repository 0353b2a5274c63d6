-- ===== src/Inference/Evaluator/Decides.antt =====
-- Which decision the evaluator makes, in every case.
use fps_anticheat_data_platf.Prelude.{
  ◌≤◌, ◌≡◌, ◌⊎◌, true, false, Option, none, some, List, ◌∷◌, ◌++◌, length, arith, All,
}
use fps_anticheat_data_platf.Prelude.Float.{Float, lt, le, nought, Arithmetic}
use fps_anticheat_data_platf.Inference.Policy.{RuleConfig, PolicyConfig}
use fps_anticheat_data_platf.Inference.Evidence.{EvidenceMatrix}
use fps_anticheat_data_platf.Inference.Evaluator.{
  DecisionOutcome, feature, by_rule, by_default, heuristic, evaluate,
}

abbrev pub MeetsZ : Float → Option Float → Type 0
MeetsZ z none = Unit
MeetsZ z (some min_z) = lt z min_z ≡ false

-- the score is in the rule's range, and the evidence meets its z-score, if it asks for one
pub record IsMatch (score z : Float) (r : RuleConfig) : Type 0 where
  pub at_least : le r.min_score score ≡ true
  pub below : lt score r.max_score ≡ true
  pub evidence : MeetsZ z r.min_headshot_zscore

-- `r` is the first rule that the player matches
pub record IsFirst (score z : Float) (rules : List RuleConfig) (r : RuleConfig) : Type 0 where
  pub before : List RuleConfig
  pub after : List RuleConfig
  pub splits : rules ≡ before ++ r ∷ after
  pub refused : All (λ x. ¬ IsMatch score z x) before
  pub matched : IsMatch score z r

abbrev pub FollowsPolicy : PolicyConfig → Float → Float → List RuleConfig → DecisionOutcome → Type 0
FollowsPolicy p score z rules outcome =
    ((r : RuleConfig) × IsFirst score z rules r × (outcome ≡ by_rule p.version r))
    ⊎ (All (λ x. ¬ IsMatch score z x) rules × (outcome ≡ by_default p))

module _ (f32 : Arithmetic) where
  -- raw features that no player can reach: a teleport, two kills in under 200 ms, or a streak of
  -- headshots
  pub record IsExtreme (raw : List Float) : Type 0 where
    pub enough : 10 ≤ length raw
    pub reached :
        (lt (f32.literal 80 2) (feature 9 raw) ≡ true)
        ⊎ ((le (f32.literal 20 1) (feature 0 raw) ≡ true)
            × (lt nought (feature 8 raw) ≡ true)
            × (lt (feature 8 raw) (f32.literal 2000 1) ≡ true))
        ⊎ (le (f32.literal 50 1) (feature 10 raw) ≡ true)

  -- With a poisoned lock a player with extreme features is banned for ever with the highest priority,
  -- and every other player is escalated to a moderator with high priority, under the rule that names
  -- the lock error and not under a version of the policy.
  pub evaluate_poisoned :
      (score : Float) (evidence : EvidenceMatrix) (raw : List Float)
      → let outcome = evaluate f32 none score evidence raw in
        (IsExtreme raw × (outcome.action ≡ "PERMANENT_BAN") × (outcome.priority ≡ "CRITICAL"))
        ⊎ ((¬ IsExtreme raw)
            × (outcome.action ≡ "ESCALATE_TO_MODERATOR")
            × (outcome.priority ≡ "HIGH")
            × (outcome.policy_rule ≡ "fallback_lock_error")
            × (outcome.policy_version ≡ "UNAVAILABLE"))
  unfolding evaluate heuristic
  evaluate_poisoned score evidence raw = ground arith
