-- ===== src/Inference/Bundle/Accepted.antt =====
-- What the thresholds of an accepted bundle satisfy.
use fps_anticheat_data_platf.Prelude.{◌≡◌, inl, inr, true, String, some, arith, Option-cases}
use fps_anticheat_data_platf.Prelude.Float.{Float, lt, le, is_finite, nought, Arithmetic}
use fps_anticheat_data_platf.Prelude.Result.{ok, Result-cases}
use fps_anticheat_data_platf.Inference.Engine.{RiskThresholds}
use fps_anticheat_data_platf.Inference.Engine.Predicts.{HasFinite}
use fps_anticheat_data_platf.Inference.Bundle.{
  ThresholdPolicy, threshold_named, required_threshold, check_order, thresholds_of,
}

-- 0 < MEDIUM < HIGH < CRITICAL ≤ `one`
pub record IsIncreasing (one : Float) (t : RiskThresholds) : Type 0 where
  pub medium : lt nought t.medium ≡ true
  pub high : lt t.medium t.high ≡ true
  pub critical : lt t.high t.critical ≡ true
  pub top : le t.critical one ≡ true

required_threshold-ok :
    (p : ThresholdPolicy) (name : String) (v : Float)
    → required_threshold p name ≡ ok v
    → (threshold_named name p.thresholds ≡ some v) × (is_finite v ≡ true)
unfolding required_threshold
required_threshold-ok p name v h = elim (Option-cases (threshold_named name p.thresholds)) [
  | inl e ↦ absurd (ground (arith, e, h))
  | inr (x, e) ↦ ground (arith, e, h)
]

module _ (f32 : Arithmetic) (finite_one : is_finite (f32.literal 10 1) ≡ true) where
  check_order-ok :
      (t r : RiskThresholds)
      → HasFinite t
      → check_order f32 t ≡ ok r
      → (r ≡ t) × IsIncreasing (f32.literal 10 1) t
  unfolding check_order
  check_order-ok t r f h = ground (arith, f, h)

  -- If 1.0 is finite in the float format, the thresholds of an accepted policy are its entries
  -- MEDIUM, HIGH and CRITICAL, they are finite, and 0 < MEDIUM < HIGH < CRITICAL ≤ 1.0.
  pub thresholds_of-ok :
      (p : ThresholdPolicy) (t : RiskThresholds)
      → thresholds_of f32 p ≡ ok t
      → (threshold_named "MEDIUM" p.thresholds ≡ some t.medium)
        × (threshold_named "HIGH" p.thresholds ≡ some t.high)
        × (threshold_named "CRITICAL" p.thresholds ≡ some t.critical)
        × HasFinite t
        × IsIncreasing (f32.literal 10 1) t
  unfolding thresholds_of
  thresholds_of-ok p t h = elim (Result-cases (required_threshold p "MEDIUM")) [
    | inr (x, e) ↦ absurd (ground (arith, e, h))
    | inl (m, e) ↦ elim (Result-cases (required_threshold p "HIGH")) [
      | inr (x, k) ↦ absurd (ground (arith, e, k, h))
      | inl (g, k) ↦ elim (Result-cases (required_threshold p "CRITICAL")) [
        | inr (x, l) ↦ absurd (ground (arith, e, k, l, h))
        | inl (c, l) ↦ found m g c e k l (rw (e, k, l) at h)
      ]
    ]
  ]
    where
      found :
          (m g c : Float)
          → required_threshold p "MEDIUM" ≡ ok m
          → required_threshold p "HIGH" ≡ ok g
          → required_threshold p "CRITICAL" ≡ ok c
          → check_order f32 (record { medium = m; high = g; critical = c }) ≡ ok t
          → (threshold_named "MEDIUM" p.thresholds ≡ some t.medium)
            × (threshold_named "HIGH" p.thresholds ≡ some t.high)
            × (threshold_named "CRITICAL" p.thresholds ≡ some t.critical)
            × HasFinite t
            × IsIncreasing (f32.literal 10 1) t
      found m g c e k l h =
          let a = required_threshold-ok p "MEDIUM" m e in
          let b = required_threshold-ok p "HIGH" g k in
          let d = required_threshold-ok p "CRITICAL" c l in
          let (same, increasing) =
            check_order-ok (record { medium = m; high = g; critical = c }) t
              (record { medium = a.1; high = b.1; critical = d.1 }) h in
          rw same (a.0, b.0, d.0, record { medium = a.1; high = b.1; critical = d.1 }, increasing)
