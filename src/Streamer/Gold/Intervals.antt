-- ===== src/Streamer/Gold/Intervals.antt =====
-- The intervals between the kills of a player, in gold.rs.
use fps_anticheat_data_platf.Prelude.{
  ℕ, zero, suc, ◌-◌, ◌≤◌, ◌≡◌, ◌⊎◌, inl, inr, refl, sym, ap, ◌∙◌, Bool, true, false, Option, none,
  some, List, [], ◌∷◌, length, is_some_and, get_elem?, keep, All, ltb, arith, Bool-cases,
}
use fps_anticheat_data_platf.Prelude.Float.{
  Float, pos_inf, nought, fmin, is_nan, le, le_trans, Arithmetic,
}
use fps_anticheat_data_platf.Streamer.Gold.{
  KillRecord, filter_map, insert_float, sort_floats, fold_min, min_interval_of, intervals_from,
  intervals_of, kill_intervals, short_intervals,
}

-- `v` is one of the values, and no other is less
abbrev pub Among : List Float → Float → Type 0
Among xs v = (i : ℕ) × (get_elem? xs i ≡ some v)

abbrev pub IsLeast : List Float → Option Float → Type 0
IsLeast xs none = xs ≡ []
IsLeast xs (some v) = Among xs v × All (λ x. le v x ≡ true) xs

abbrev pub NonNegative : List Float → Type 0
NonNegative = All (λ x. le nought x ≡ true)

fmin-le :
    (a b : Float)
    → is_nan a ≡ false
    → is_nan b ≡ false
    → (le (fmin a b) a ≡ true) × (le (fmin a b) b ≡ true) × (is_nan (fmin a b) ≡ false)
fmin-le a b h k = ground arith

nonnegative-not_nan : (x : Float) → le nought x ≡ true → is_nan x ≡ false
nonnegative-not_nan x h = ground arith

fmin_choice : (a b : Float) → (fmin a b ≡ a) ⊎ (fmin a b ≡ b)
fmin_choice a b = ground arith

le_refl : (a : Float) → is_nan a ≡ false → le a a ≡ true
le_refl a h = ground arith

-- the fold from `acc`: at most it and each value, and one of them
fold_min_least :
    (acc : Float) (xs : List Float)
    → is_nan acc ≡ false
    → NonNegative xs
    → (le (fold_min acc xs) acc ≡ true)
      × All (λ x. le (fold_min acc xs) x ≡ true) xs
      × ((fold_min acc xs ≡ acc) ⊎ Among xs (fold_min acc xs))
unfolding fold_min
fold_min_least acc [] h k = (le_refl acc h, tt, inl refl)
fold_min_least acc (x ∷ xs) h (kx, k) =
    let (below_acc, below_x, n) = fmin-le acc x h (nonnegative-not_nan x kx) in
    let (l, all, one) = fold_min_least (fmin acc x) xs n k in
    (
      le_trans (fold_min (fmin acc x) xs) (fmin acc x) acc l below_acc,
      (le_trans (fold_min (fmin acc x) xs) (fmin acc x) x l below_x, all),
      elim one [
        | inr (i, e) ↦ inr (suc i, e)
        | inl e ↦ elim (fmin_choice acc x) [
          | inl a ↦ inl (e ∙ a)
          | inr b ↦ inr (0, ap some (sym (e ∙ b)))
        ]
      ],
    )

pos_inf_greatest : (x : Float) → le pos_inf x ≡ true → x ≡ pos_inf
pos_inf_greatest x h = ground arith

pub min_interval_of-IsLeast : (xs : List Float) → NonNegative xs → IsLeast xs (min_interval_of xs)
unfolding min_interval_of
min_interval_of-IsLeast [] k = refl
min_interval_of-IsLeast (x ∷ xs) k =
    let (l, all, one) = fold_min_least pos_inf (x ∷ xs) refl k in
    (
      elim one [
        | inr among ↦ among
        | inl e ↦ (0, ap some (pos_inf_greatest x (rw (← e) all.0) ∙ sym e))
      ],
      all,
    )

keep-some :
    (limit v : Float) (xs : List Float) (i : ℕ)
    → get_elem? xs i ≡ some v
    → le v limit ≡ true
    → ltb 0 (length (keep (λ x. le x limit) xs)) ≡ true
keep-some limit v [] i e h = absurd (ground arith)
keep-some limit v (x ∷ xs) zero e h = ground arith
keep-some limit v (x ∷ xs) (suc i) e h = ground (arith, keep-some limit v xs i e h)

keep-none :
    (limit v : Float) (xs : List Float)
    → All (λ x. le v x ≡ true) xs
    → le v limit ≡ false
    → keep (λ x. le x limit) xs ≡ []
keep-none limit v [] all h = refl
keep-none limit v (x ∷ xs) all h =
    ground (arith, keep-none limit v xs all.1 h, le_trans v x limit all.0)

-- the least value is within a limit exactly if some value is
pub short_iff :
    (xs : List Float) (o : Option Float) (limit : Float)
    → IsLeast xs o
    → is_some_and o (λ v. le v limit) ≡ ltb 0 (length (keep (λ x. le x limit) xs))
short_iff xs none limit e = rw e
short_iff xs (some v) limit least = elim (Bool-cases (le v limit)) [
  | inl h ↦ h ∙ sym (keep-some limit v xs least.0.0 least.0.1 h)
  | inr h ↦ rw (h, keep-none limit v xs least.1 h)
]

module _ {ℓ} {A : Type ℓ} where
  pub length-keep-le : (p : A → Bool) (xs : List A) → length (keep p xs) ≤ length xs
  length-keep-le p [] = omega arith
  length-keep-le p (x ∷ xs) = ground (arith, length-keep-le p xs)

  pub length-filter_map-le :
      {C : Type 0} (g : A → Option C) (xs : List A) → length (filter_map g xs) ≤ length xs
  unfolding filter_map
  length-filter_map-le g [] = omega arith
  length-filter_map-le g (x ∷ xs) = ground (arith, length-filter_map-le g xs)

pub length-insert_float :
    (t : Float) (xs : List Float) → length (insert_float t xs) ≡ suc (length xs)
unfolding insert_float
length-insert_float t [] = refl
length-insert_float t (x ∷ xs) = ground (arith, length-insert_float t xs)

length-sort_floats : (xs : List Float) → length (sort_floats xs) ≡ length xs
unfolding sort_floats
length-sort_floats [] = refl
length-sort_floats (x ∷ xs) =
    length-insert_float x (sort_floats xs) ∙ ap suc (length-sort_floats xs)

module _ (f : Arithmetic) where
  intervals_from-NonNegative : (b : Float) (ts : List Float) → NonNegative (intervals_from f b ts)
  unfolding intervals_from
  intervals_from-NonNegative b [] = tt
  intervals_from-NonNegative b (t ∷ ts) = elim (Bool-cases (le nought (f.sub t b))) [
    | inl h ↦ rw h (h, intervals_from-NonNegative t ts)
    | inr h ↦ rw h (intervals_from-NonNegative t ts)
  ]

  length-intervals_from-le :
      (b : Float) (ts : List Float) → length (intervals_from f b ts) ≤ length ts
  unfolding intervals_from
  length-intervals_from-le b [] = omega arith
  length-intervals_from-le b (t ∷ ts) = ground (arith, length-intervals_from-le t ts)

  pub intervals_of-NonNegative : (ts : List Float) → NonNegative (intervals_of f ts)
  unfolding intervals_of
  intervals_of-NonNegative [] = tt
  intervals_of-NonNegative (t ∷ ts) = intervals_from-NonNegative t ts

  length-intervals_of-le : (ts : List Float) → length (intervals_of f ts) ≤ length ts - 1
  unfolding intervals_of
  length-intervals_of-le [] = omega arith
  length-intervals_of-le (t ∷ ts) = omega (arith, length-intervals_from-le t ts)

  -- between n kills there are at most n - 1 intervals
  pub length-short_intervals-le :
      (records : List KillRecord)
      → length (short_intervals f (kill_intervals f records)) ≤ length records - 1
  unfolding short_intervals kill_intervals
  length-short_intervals-le records =
      let times = filter_map (λ r. r.event_time_secs) records in
      omega (
        arith,
        length-keep-le (λ dt. le dt (f.literal 10 0)) (intervals_of f (sort_floats times)),
        length-intervals_of-le (sort_floats times),
        length-sort_floats times,
        length-filter_map-le (λ r. r.event_time_secs) records,
      )
