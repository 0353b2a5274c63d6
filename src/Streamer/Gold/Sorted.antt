-- ===== src/Streamer/Gold/Sorted.antt =====
-- The order in which gold.rs puts times and distances.
use mathlib.Core.List.{Permᴰ}
use fps_anticheat_data_platf.Prelude.{
  ◌≡◌, refl, true, false, List, [], ◌∷◌, arith, Bool-cases, inl, inr,
}
use fps_anticheat_data_platf.Prelude.Float.{Float, lt}
use fps_anticheat_data_platf.Streamer.Gold.{insert_float, sort_floats}

-- no value is less than the one before it
abbrev pub Above : Float → List Float → Type 0
Above t [] = Unit
Above t (u ∷ us) = lt u t ≡ false

abbrev pub IsAscending : List Float → Type 0
IsAscending [] = Unit
IsAscending (t ∷ us) = Above t us × IsAscending us

-- `ts` is the list in ascending order
pub record IsSortOf (xs ts : List Float) : Type 0 where
  pub ascending : IsAscending ts
  pub same : Permᴰ ts xs

lt_asymm : (a b : Float) → lt a b ≡ true → lt b a ≡ false
lt_asymm a b h = ground arith

Above-insert_float :
    (u t : Float) (us : List Float) → Above u us → lt t u ≡ false → Above u (insert_float t us)
unfolding insert_float
Above-insert_float u t [] h k = k
Above-insert_float u t (v ∷ vs) h k = elim (Bool-cases (lt v t)) [ inl e ↦ rw e h | inr e ↦ rw e k ]

insert_float-IsAscending :
    (t : Float) (us : List Float) → IsAscending us → IsAscending (insert_float t us)
unfolding insert_float
insert_float-IsAscending t [] h = (tt, tt)
insert_float-IsAscending t (u ∷ us) h = elim (Bool-cases (lt u t)) [
  | inl e ↦ rw e (Above-insert_float u t us h.0 (lt_asymm u t e), insert_float-IsAscending t us h.1)
  | inr e ↦ rw e (e, h)
]

insert_float-perm : (t : Float) (us : List Float) → Permᴰ (insert_float t us) (t ∷ us)
unfolding insert_float
insert_float-perm t [] = Permᴰ.cons refl Permᴰ.nil
insert_float-perm t (u ∷ us) = elim (Bool-cases (lt u t)) [
  | inl e ↦ rw e (Permᴰ.trans (Permᴰ.cons refl (insert_float-perm t us)) (Permᴰ.swap refl refl))
  | inr e ↦ rw e (Permᴰ.trans (Permᴰ.swap refl refl) (Permᴰ.swap refl refl))
]

pub sort_floats-IsSortOf : (xs : List Float) → IsSortOf xs (sort_floats xs)
unfolding sort_floats
sort_floats-IsSortOf [] = record { ascending = tt; same = Permᴰ.nil }
sort_floats-IsSortOf (x ∷ xs) =
    let rest = sort_floats-IsSortOf xs in
    record {
      ascending = insert_float-IsAscending x (sort_floats xs) rest.ascending;
      same = Permᴰ.trans (insert_float-perm x (sort_floats xs)) (Permᴰ.cons refl rest.same);
    }
