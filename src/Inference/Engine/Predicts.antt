-- ===== src/Inference/Engine/Predicts.antt =====
-- What a score that the engine answers satisfies, and what a hot swap changes.
use mathlib.Core.Path.{subst}
use fps_anticheat_data_platf.Prelude.{
  sym, Option-cases, ◌≡◌, ◌≢◌, ◌⊎◌, inl, inr, refl, true, false, not, String, Option, none, some,
  List, [], ◌∷◌, length, any, ◌==◌, arith, All, Bool-cases,
}
use fps_anticheat_data_platf.Prelude.Float.{Float, lt, le, is_finite, nought, Arithmetic, le_total}
use fps_anticheat_data_platf.Prelude.Result.{Result, ok, err, Result-cases}
use fps_anticheat_data_platf.Inference.Error.{AppError}
use fps_anticheat_data_platf.Inference.Engine.{
  RiskThresholds, LoadedModel, OnnxInferenceEngine, Session, current_model, is_available,
  feature_count, version, session_at, hot_swap, risk_level, graded, run_session, predict_with,
  predict, score_of,
}

-- three finite thresholds
pub record HasFinite (t : RiskThresholds) : Type 0 where
  pub medium : is_finite t.medium ≡ true
  pub high : is_finite t.high ≡ true
  pub critical : is_finite t.critical ≡ true

-- the interval of the score that a level stands for
abbrev pub IsLevel : RiskThresholds → Float → String → Type 0
IsLevel t score level =
    ((level ≡ "CRITICAL") × (le t.critical score ≡ true))
    ⊎ ((level ≡ "HIGH") × (le t.high score ≡ true) × (lt score t.critical ≡ true))
    ⊎ ((level ≡ "MEDIUM") × (le t.medium score ≡ true) × (lt score t.high ≡ true))
    ⊎ ((level ≡ "LOW") × (lt score t.medium ≡ true))

risk_level-IsLevel :
    (t : RiskThresholds) (score : Float)
    → HasFinite t
    → is_finite score ≡ true
    → IsLevel t score (risk_level t score)
unfolding risk_level
risk_level-IsLevel t score h k =
    ground (arith, h, le_total t.critical score, le_total t.high score, le_total t.medium score)

all_finite :
    (xs : List Float) → any (λ v. not (is_finite v)) xs ≡ false → All (λ v. is_finite v ≡ true) xs
all_finite [] h = tt
all_finite (x ∷ xs) h = ground (arith, h, all_finite xs)

module _ (f32 : Arithmetic) (shown : Float → String) where
  graded-ok :
      (t : RiskThresholds) (r : Result AppError Float) (score : Float) (level : String)
      → graded f32 shown t r ≡ ok (score, level)
      → (is_finite score ≡ true)
        × (le nought score ≡ true)
        × (le score (f32.literal 10 1) ≡ true)
        × (level ≡ risk_level t score)
  unfolding graded
  graded-ok t (err e) score level h = absurd (ground (arith, h))
  graded-ok t (ok v) score level h = ground (arith, h)

  run_session-ok :
      (t : RiskThresholds) (features : List Float) (s : Session) (score : Float) (level : String)
      → run_session f32 shown t features s ≡ ok (score, level)
      → (is_finite score ≡ true)
        × (le nought score ≡ true)
        × (le score (f32.literal 10 1) ≡ true)
        × (level ≡ risk_level t score)
  unfolding run_session
  run_session-ok t features s score level h = elim (Bool-cases s.poisoned) [
    | inl e ↦ absurd (ground (arith, e, h))
    | inr e ↦ elim (Option-cases (s.tensor_fault features)) [
      | inr (x, k) ↦ absurd (ground (arith, e, k, h))
      | inl k ↦ elim (Result-cases (s.run features)) [
        | inr (x, l) ↦ absurd (ground (arith, e, k, l, h))
        | inl (outputs, l) ↦ graded-ok t (score_of outputs) score level (rw (e, k, l) at h)
      ]
    ]
  ]

  predict_with-ok :
      (m : LoadedModel) (features : List Float) (score : Float) (level : String)
      → (predict_with f32 shown m features).1 ≡ ok (score, level)
      → (length features ≡ length m.feature_names)
        × All (λ v. is_finite v ≡ true) features
        × (is_finite score ≡ true)
        × (le nought score ≡ true)
        × (le score (f32.literal 10 1) ≡ true)
        × (level ≡ risk_level m.thresholds score)
  unfolding predict_with
  predict_with-ok m features score level h =
      elim (Bool-cases (length features == length m.feature_names)) [
        | inr e ↦ absurd (ground (arith, e, h))
        | inl e ↦ elim (Bool-cases (any (λ v. not (is_finite v)) features)) [
          | inl k ↦ absurd (ground (arith, e, k, h))
          | inr k ↦
              let (fin_score, low, high, grade) =
                run_session-ok m.thresholds features (session_at m) score level (rw (e, k) at h) in
              (ground (arith, e), all_finite features k, fin_score, low, high, grade)
        ]
      ]

  predict-current :
      (features : List Float) (e : OnnxInferenceEngine) (score : Float) (level : String)
      → (predict f32 shown features e).1 ≡ ok (score, level)
      → (is_available e ≡ true)
        × (m : LoadedModel) × (e.model ≡ some m)
        × (current_model e ≡ ok m)
        × ((predict_with f32 shown m features).1 ≡ ok (score, level))
  unfolding predict current_model is_available
  predict-current features e score level h = elim (Bool-cases e.poisoned) [
    | inl p ↦ absurd (cc (rw p at h))
    | inr p ↦ elim (Option-cases e.model) [
      | inl k ↦ absurd (cc (rw (p, k) at h))
      | inr (m, k) ↦ (rw (p, k) refl, m, k, rw (p, k) refl, rw (p, k) at h)
    ]
  ]

  -- If the models that the engine can hold have finite thresholds, a score is answered only by an
  -- engine that is available and holds a model, and only for as many features as that model counts,
  -- all finite; the score lies in [0, 1], and its level is that of the interval between two
  -- thresholds of the model in which it lies.
  pub predict-ok :
      (features : List Float) (e : OnnxInferenceEngine) (score : Float) (level : String)
      → ((m : LoadedModel) → e.model ≡ some m → HasFinite m.thresholds)
      → (predict f32 shown features e).1 ≡ ok (score, level)
      → (is_available e ≡ true)
        × (m : LoadedModel) × (e.model ≡ some m)
        × (feature_count e ≡ some (length features))
        × All (λ v. is_finite v ≡ true) features
        × (le nought score ≡ true)
        × (le score (f32.literal 10 1) ≡ true)
        × IsLevel m.thresholds score level
  unfolding feature_count
  predict-ok features e score level finite h =
      let (available, m, held, c, scored) = predict-current features e score level h in
      let (count, all, fin_score, low, high, grade) =
        predict_with-ok m features score level scored in
      (
        available,
        m,
        held,
        rw (c, count) refl,
        all,
        low,
        high,
        subst (λ (l : String). IsLevel m.thresholds score l) (sym grade)
            (risk_level-IsLevel m.thresholds score (finite m held) fin_score),
      )

  version-predict_with :
      (m : LoadedModel) (features : List Float)
      → (predict_with f32 shown m features).0.version ≡ m.version
  unfolding predict_with
  version-predict_with m features = ground arith

  -- Scoring, failed or not, does not change the version that the engine reports.
  pub version-predict :
      (features : List Float) (e : OnnxInferenceEngine)
      → version (predict f32 shown features e).0 ≡ version e
  unfolding predict version current_model
  version-predict features e = elim (Option-cases e.model) [
    | inl k ↦ ground (arith, k)
    | inr (m, k) ↦ ground (arith, k, version-predict_with m features)
  ]

-- A hot swap that answers `true` makes the loaded bundle the current model; every other answer, an
-- error among them, leaves the engine as it was.
pub hot_swap_lem :
    (loaded : Result AppError (Option LoadedModel)) (e : OnnxInferenceEngine)
    → (((hot_swap loaded e).1 ≡ ok true)
        × (loaded ≡ ok (hot_swap loaded e).0.model)
        × ((hot_swap loaded e).0.poisoned ≡ false))
      ⊎ (((hot_swap loaded e).1 ≢ ok true) × ((hot_swap loaded e).0 ≡ e))
unfolding hot_swap current_model
hot_swap_lem (err x) e = inr ((λ h. cc h), refl)
hot_swap_lem (ok none) e = inr ((λ h. cc h), refl)
hot_swap_lem (ok (some m)) e = ground arith
