-- ===== src/Streamer/Gold/Median.antt =====
-- What gold.rs computes of a list: the middle, the steps between its values, and known distances.
use fps_anticheat_data_platf.Prelude.{
  ℕ, zero, suc, ◌+◌, ◌-◌, ◌/◌, ◌%◌, ◌==◌, ◌<◌, ◌≡◌, ◌⊎◌, inl, inr, refl, sym, ap, ◌∙◌, false,
  Option, none, some, List, [], ◌∷◌, ◌++◌, length, length-append, get_elem?, keep, if◌then◌else◌,
  arith, Bool-cases, Option-cases,
}
use fps_anticheat_data_platf.Prelude.Float.{Float, is_finite, nought, le, Arithmetic}
use fps_anticheat_data_platf.Streamer.Gold.{
  KillRecord, filter_map, finite_distance, distance_of_four, distances_of, median_of, mean_of,
  intervals_from, intervals_of,
}

-- the value at a position, with what stands before and behind it
record IsSplit (xs : List Float) (i : ℕ) : Type 0 where
  low : List Float
  value : Float
  high : List Float
  splits : xs ≡ low ++ value ∷ high
  position : length low ≡ i
  found : get_elem? xs i ≡ some value

IsSplit-at : (xs : List Float) (i : ℕ) → i < length xs → IsSplit xs i
IsSplit-at [] i h = absurd (omega (arith, h))
IsSplit-at (x ∷ xs) zero h = record {
  low = [];
  value = x;
  high = xs;
  splits = refl;
  position = refl;
  found = refl;
}
IsSplit-at (x ∷ xs) (suc i) h =
    let s = IsSplit-at xs i (omega (arith, h)) in
    record {
      low = x ∷ s.low;
      value = s.value;
      high = s.high;
      splits = ap (λ l. x ∷ l) s.splits;
      position = ap suc s.position;
      found = s.found;
    }

-- one value has as many before it as behind it, or two that stand together do
abbrev pub HasMiddle : List Float → Float → Type 0
HasMiddle xs v =
    (low : List Float) × (high : List Float) × (xs ≡ low ++ v ∷ high) × (length low ≡ length high)

abbrev pub HasMiddles : List Float → Float → Float → Type 0
HasMiddles xs a b =
    (low : List Float) × (high : List Float) × (xs ≡ low ++ a ∷ b ∷ high)
    × (length low ≡ length high)

-- the middle value, the mean of the two middle values, or none of no values
abbrev pub IsMedian : Arithmetic → List Float → Option Float → Type 0
IsMedian f xs none = xs ≡ []
IsMedian f xs (some m) =
    HasMiddle xs m
    ⊎ ((a : Float) × (b : Float) × HasMiddles xs a b × (m ≡ f.div (f.add a b) (f.literal 2 0)))

length-split :
    (xs low high : List Float) (v : Float)
    → xs ≡ low ++ v ∷ high
    → length xs ≡ length low + suc (length high)
length-split xs low high v h = ap length h ∙ length-append low (v ∷ high)

behind :
    (low high : List Float) (v : Float)
    → get_elem? (low ++ v ∷ high) (suc (length low)) ≡ get_elem? high 0
behind [] high v = refl
behind (x ∷ low) high v = behind low high v

next_of :
    (xs low high : List Float) (v b : Float)
    → xs ≡ low ++ v ∷ b ∷ high
    → get_elem? xs (suc (length low)) ≡ some b
next_of xs low high v b h = rw h (behind low (b ∷ high) v)

even-IsMedian :
    (f : Arithmetic) (xs : List Float) (mid : ℕ) (s : IsSplit xs (mid - 1)) (high : List Float)
    → s.high ≡ high
    → 0 < mid
    → length xs ≡ mid + mid
    → IsMedian f xs (mean_of f (get_elem? xs (mid - 1)) (get_elem? xs mid))
even-IsMedian f xs mid s [] e some_mid n = absurd (
    omega
      (arith, length-split xs s.low s.high s.value s.splits, ap length e, s.position, some_mid, n))
even-IsMedian f xs mid s (b ∷ high) e some_mid n =
    let splits : xs ≡ s.low ++ s.value ∷ b ∷ high = rw e at s.splits in
    let here : suc (length s.low) ≡ mid = omega (arith, s.position, some_mid) in
    let second : get_elem? xs mid ≡ some b =
      ap (get_elem? xs) (sym here) ∙ next_of xs s.low high s.value b splits in
    rw (s.found, second)
      (inr (
        s.value,
        b,
        (
          s.low,
          high,
          splits,
          omega (arith, length-split xs s.low (b ∷ high) s.value splits, s.position, some_mid, n),
        ),
        refl,
      ))

pub median_of-IsMedian : (f : Arithmetic) (xs : List Float) → IsMedian f xs (median_of f xs)
unfolding median_of
median_of-IsMedian f [] = refl
median_of-IsMedian f (x ∷ xs) =
    let all = x ∷ xs in
    let n = length all in
    elim (Bool-cases (n % 2 == 0)) [
      | inl e ↦
          let even : n ≡ n / 2 + n / 2 = ground (arith, e) in
          let some_mid : 0 < n / 2 = omega (arith, even) in
          let s = IsSplit-at all (n / 2 - 1) (omega (arith, even)) in
          rw (nonempty n (omega arith), e) (even-IsMedian f all (n / 2) s s.high refl some_mid even)
      | inr e ↦
          let odd : n ≡ n / 2 + suc (n / 2) = ground (arith, e) in
          let s = IsSplit-at all (n / 2) (omega (arith, odd)) in
          rw (nonempty n (omega arith), e, s.found)
            (inl (
              s.low,
              s.high,
              s.splits,
              omega (arith, length-split all s.low s.high s.value s.splits, s.position, odd),
            ))
    ]
  where
    nonempty : (n : ℕ) → 0 < n → (n == 0) ≡ false
    nonempty n h = ground (arith, h)

-- from each value to the next one
abbrev pub steps : Arithmetic → List Float → List Float
steps f [] = []
steps f (x ∷ []) = []
steps f (x ∷ y ∷ rest) = f.sub y x ∷ steps f (y ∷ rest)

-- The intervals are the steps that are not negative.
pub intervals_of-steps :
    (f : Arithmetic) (xs : List Float) → intervals_of f xs ≡ keep (λ d. le nought d) (steps f xs)
unfolding intervals_of intervals_from
intervals_of-steps f [] = refl
intervals_of-steps f (x ∷ xs) = from x xs
  where
    from :
        (x : Float) (xs : List Float)
        → intervals_from f x xs ≡ keep (λ d. le nought d) (steps f (x ∷ xs))
    from x [] = refl
    from x (y ∷ rest) = rw (from y rest) refl

-- the distance between killer and victim, where all four coordinates are known
abbrev pub distance_between :
    Arithmetic → Option Float → Option Float → Option Float → Option Float → Option Float
distance_between f (some kx) (some ky) (some vx) (some vy) =
    some (f.sqrt (f.add (f.powi (f.sub kx vx) 2) (f.powi (f.sub ky vy) 2)))
distance_between f _ _ _ _ = none

abbrev pub distance : Arithmetic → KillRecord → Option Float
distance f r = distance_between f r.killer_pos_x r.killer_pos_y r.victim_pos_x r.victim_pos_y

abbrev finite_only : Option Float → Option Float
finite_only none = none
finite_only (some d) = if is_finite d then some d else none

four-between :
    (f : Arithmetic) (a b c d : Option Float)
    → distance_of_four f a b c d ≡ finite_only (distance_between f a b c d)
unfolding finite_distance
four-between f none b c d = refl
four-between f (some a) none c d = refl
four-between f (some a) (some b) none d = refl
four-between f (some a) (some b) (some c) none = refl
four-between f (some a) (some b) (some c) (some d) = refl

filter_map-finite :
    (g h : KillRecord → Option Float)
    → ((r : KillRecord) → g r ≡ finite_only (h r))
    → (records : List KillRecord) → filter_map g records ≡ keep is_finite (filter_map h records)
unfolding filter_map
filter_map-finite g h same [] = refl
filter_map-finite g h same (r ∷ rest) = elim (Option-cases (h r)) [
  | inl e ↦ rw (filter_map, same r, e) (filter_map-finite g h same rest)
  | inr (d, e) ↦ elim (Bool-cases (is_finite d)) [
    | inl k ↦ rw (filter_map, same r, e, k) (ap (λ l. d ∷ l) (filter_map-finite g h same rest))
    | inr k ↦ rw (filter_map, same r, e, k) (filter_map-finite g h same rest)
  ]
]

-- The distances are those that are known and finite.
pub distances_of-known :
    (f : Arithmetic) (records : List KillRecord)
    → distances_of f records ≡ keep is_finite (filter_map (distance f) records)
unfolding distances_of
distances_of-known f =
    filter_map-finite _ (distance f)
      λ r. four-between f r.killer_pos_x r.killer_pos_y r.victim_pos_x r.victim_pos_y
