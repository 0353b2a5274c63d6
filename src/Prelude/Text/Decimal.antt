-- ===== src/Prelude/Text/Decimal.antt =====
-- The fuel of the decimal digits is enough.
use native.Mathlib.Omega.{arith}
use Prim.Native.Nat.{◌/◌}
use mathlib.Core.Path.{◌≡◌, refl}
use Prim.Native.String.{String}
use fps_anticheat_data_platf.Prelude.{ℕ, zero, suc, ◌<◌, inl, inr, ltb, Bool-cases}
use fps_anticheat_data_platf.Prelude.Text.{show_from, show_ℕ}

-- two amounts of fuel above the number give the same digits
show_from-fuel :
    (f g n : ℕ) (tail : String) → n < f → n < g → show_from f n tail ≡ show_from g n tail
unfolding show_from
show_from-fuel zero g n tail h k = absurd (omega (arith, h))
show_from-fuel (suc f) zero n tail h k = absurd (omega (arith, k))
show_from-fuel (suc f) (suc g) n tail h k = elim (Bool-cases (ltb n 10)) [
  | inl e ↦ rw (e, show_from) refl
  | inr e ↦
      rw (e, show_from)
        (show_from-fuel f g (n / 10) _ (ground (arith, e, h)) (ground (arith, e, k)))
]

-- `show_ℕ` writes the digits that any fuel above the number writes
show_ℕ-fuel : (f n : ℕ) → n < f → show_ℕ n ≡ show_from f n ""
unfolding show_ℕ
show_ℕ-fuel f n h = show_from-fuel (suc n) f n "" (omega arith) h
