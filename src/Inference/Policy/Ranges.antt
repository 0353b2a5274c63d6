-- ===== src/Inference/Policy/Ranges.antt =====
-- What a policy that the service starts with satisfies.
use mathlib.Core.Path.{subst}
use fps_anticheat_data_platf.Prelude.{
  ◌≡◌, ◌↔◌, ◌∙◌, ap, refl, Bool, true, false, String, List, [], ◌∷◌, is_empty, arith, All, inl, inr,
}
use fps_anticheat_data_platf.Prelude.Float.{Float, lt, le, is_finite, nought, Arithmetic}
use fps_anticheat_data_platf.Prelude.Text.{is_blank, trim}
use fps_anticheat_data_platf.Prelude.Result.{Result, ok, err, Result-cases}
use fps_anticheat_data_platf.Inference.Policy.{
  RuleConfig, PolicyConfig, is_bad_rule, validate_rules, validate, load_from_file,
}

-- a named rule with a range of scores that is not empty, within [0, `top`]
pub record IsRule (top : Float) (r : RuleConfig) : Type 0 where
  pub named : is_blank (trim r.name) ≡ false
  pub finite_min : is_finite r.min_score ≡ true
  pub finite_max : is_finite r.max_score ≡ true
  pub nonneg : le nought r.min_score ≡ true
  pub below : le r.max_score top ≡ true
  pub ordered : lt r.min_score r.max_score ≡ true

pub record IsPolicy (top : Float) (p : PolicyConfig) : Type 0 where
  pub versioned : is_blank (trim p.version) ≡ false
  pub nonempty : is_empty p.rules ≡ false
  pub rules : All (IsRule top) p.rules

module _ (f32 : Arithmetic) (finite_top : is_finite (f32.literal 101 2) ≡ true) where
  is_bad_rule-IsRule : (r : RuleConfig) → (is_bad_rule f32 r ≡ false) ↔ IsRule (f32.literal 101 2) r
  unfolding is_bad_rule
  is_bad_rule-IsRule r = ground arith

  validate_rules-IsRule :
      (rs : List RuleConfig) → (validate_rules f32 rs ≡ ok tt) ↔ All (IsRule (f32.literal 101 2)) rs
  unfolding validate_rules
  validate_rules-IsRule [] = ((λ _. tt), (λ _. refl))
  validate_rules-IsRule (r ∷ rs) = ground (arith, is_bad_rule-IsRule r, validate_rules-IsRule rs)

  -- If 1.01 is finite in the float format, a policy passes `validate` exactly if it has a version
  -- and a rule, and each rule has a name and a range of scores that is not empty within [0, 1.01].
  pub validate-ok_iff :
      (p : PolicyConfig) → (validate f32 p ≡ ok tt) ↔ IsPolicy (f32.literal 101 2) p
  unfolding validate
  validate-ok_iff p = ground (arith, validate_rules-IsRule p.rules)

  -- The service starts with a policy only if the file exists, can be read and parses to that policy,
  -- and the policy satisfies every check: there is no fallback policy.
  pub load_from_file-ok :
      (from_yaml : String → Result String PolicyConfig) (path : String) (found : Bool)
      (content : Result String String) (p : PolicyConfig)
      → load_from_file f32 from_yaml path found content ≡ ok p
      → (found ≡ true)
        × ((text : String) × (content ≡ ok text) × (from_yaml text ≡ ok p))
        × IsPolicy (f32.literal 101 2) p
  unfolding load_from_file
  load_from_file-ok from_yaml path false content p h = absurd (ground (arith, h))
  load_from_file-ok from_yaml path true (err e) p h = absurd (ground (arith, h))
  load_from_file-ok from_yaml path true (ok text) p h = elim (Result-cases (from_yaml text)) [
    | inr (e, k) ↦ absurd (ground (arith, k, h))
    | inl (q, k) ↦ elim (Result-cases (validate f32 q)) [
      | inr (e, l) ↦ absurd (ground (arith, k, l, h))
      | inl (u, l) ↦
          let same : q ≡ p = ground (arith, k, l, h) in
          (
            refl,
            (text, refl, k ∙ ap ok same),
            subst (λ (r : PolicyConfig). IsPolicy (f32.literal 101 2) r) same
                ((validate-ok_iff q).0 l),
          )
    ]
  ]
