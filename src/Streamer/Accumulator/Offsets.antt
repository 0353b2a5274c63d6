-- ===== src/Streamer/Accumulator/Offsets.antt =====
-- `partition_offsets` against the plain reading of it: for each partition the least and the
-- greatest offset among the messages tracked.
use fps_anticheat_data_platf.Prelude.{
  ◌≡◌, ◌≢◌, refl, ◌⊎◌, inl, inr, false, Option, none, some, List, [], ◌∷◌, ◌++◌, arith,
  if◌then◌else◌, is_empty, All, Bool-cases,
}
use fps_anticheat_data_platf.Prelude.Int.{ℤ, ltb_ℤ, eqb_ℤ, ◌≤ℤ◌, eqb_ℤ_iff}
use fps_anticheat_data_platf.Streamer.Domain.{ConsumeOutcome, valid, invalid}
use fps_anticheat_data_platf.Streamer.Accumulator.{PartitionOffsets, track_partition_offset}

abbrev pub partition_of : ConsumeOutcome → ℤ
partition_of (valid m) = m.partition
partition_of (invalid m) = m.partition

abbrev pub offset_of : ConsumeOutcome → ℤ
offset_of (valid m) = m.offset
offset_of (invalid m) = m.offset

-- `partition_offsets.get(&q)`
unfoldable pub lookup : ℤ → PartitionOffsets → Option (ℤ × ℤ)
lookup q [] = none
lookup q (s ∷ rest) =
    if eqb_ℤ s.partition q then some (s.min_offset, s.max_offset) else lookup q rest

abbrev lesser : ℤ → ℤ → ℤ
lesser a b = if ltb_ℤ b a then b else a

abbrev greater : ℤ → ℤ → ℤ
greater a b = if ltb_ℤ a b then b else a

abbrev pub stretch : Option (ℤ × ℤ) → ℤ → Option (ℤ × ℤ)
stretch none o = some (o, o)
stretch (some (lo, hi)) o = some (lesser lo o, greater hi o)

-- One more tracked offset changes the entry of its own partition only.
pub lookup-track :
    (q p o : ℤ) (m : PartitionOffsets)
    → lookup q (track_partition_offset p o m)
      ≡ (if eqb_ℤ p q then stretch (lookup q m) o else lookup q m)
unfolding lookup track_partition_offset
lookup-track q p o [] = refl
lookup-track q p o (s ∷ rest) = ground (
  arith,
  lookup-track q p o rest,
  eqb_ℤ_iff p q,
  eqb_ℤ_iff s.partition p,
  eqb_ℤ_iff s.partition q,
)

pub track_nonempty :
    (p o : ℤ) (m : PartitionOffsets) → is_empty (track_partition_offset p o m) ≡ false
unfolding track_partition_offset
track_nonempty p o [] = refl
track_nonempty p o (s ∷ rest) = ground arith

-- the range of a partition's offsets among some messages, oldest first, starting from `acc`
unfoldable pub range_from : ℤ → Option (ℤ × ℤ) → List ConsumeOutcome → Option (ℤ × ℤ)
range_from q acc [] = acc
range_from q acc (x ∷ xs) =
    range_from q (if eqb_ℤ (partition_of x) q then stretch acc (offset_of x) else acc) xs

unfoldable pub range_of : ℤ → List ConsumeOutcome → Option (ℤ × ℤ)
unfolding range_from
range_of q xs = range_from q none xs

pub range_from-snoc :
    (q : ℤ) (acc : Option (ℤ × ℤ)) (xs : List ConsumeOutcome) (x : ConsumeOutcome)
    → range_from q acc (xs ++ x ∷ []) ≡ (
        if eqb_ℤ (partition_of x) q
        then stretch (range_from q acc xs) (offset_of x)
        else range_from q acc xs)
unfolding range_from
range_from-snoc q acc [] x = refl
range_from-snoc q acc (y ∷ ys) x =
    range_from-snoc q (if eqb_ℤ (partition_of y) q then stretch acc (offset_of y) else acc) ys x

-- every message of partition `q` has its offset between `lo` and `hi`
abbrev pub Between : ℤ → ℤ → ℤ → List ConsumeOutcome → Type 0
Between q lo hi = All (λ x. partition_of x ≡ q → (lo ≤ℤ offset_of x) × (offset_of x ≤ℤ hi))

-- some message of partition `q` has offset `o`
abbrev pub Occurs : ℤ → ℤ → List ConsumeOutcome → Type 0
Occurs q o [] = ⊥
Occurs q o (x ∷ xs) = ((partition_of x ≡ q) × (offset_of x ≡ o)) ⊎ Occurs q o xs

-- `(lo, hi)` is the exact range of the partition's offsets, or there are none of it
abbrev pub IsRange : ℤ → Option (ℤ × ℤ) → List ConsumeOutcome → Type 0
IsRange q none xs = All (λ x. partition_of x ≢ q) xs
IsRange q (some (lo, hi)) xs = Between q lo hi xs × Occurs q lo xs × Occurs q hi xs

record Grows (q lo₀ hi₀ lo hi : ℤ) (xs : List ConsumeOutcome) : Type 0 where
  lower : lo ≤ℤ lo₀
  upper : hi₀ ≤ℤ hi
  between : Between q lo hi xs
  low_found : (lo ≡ lo₀) ⊎ Occurs q lo xs
  high_found : (hi ≡ hi₀) ⊎ Occurs q hi xs

Grows-hit :
    (q lo₀ hi₀ lo hi : ℤ) (x : ConsumeOutcome) (xs : List ConsumeOutcome)
    → partition_of x ≡ q
    → Grows q (lesser lo₀ (offset_of x)) (greater hi₀ (offset_of x)) lo hi xs
    → Grows q lo₀ hi₀ lo hi (x ∷ xs)
Grows-hit q lo₀ hi₀ lo hi x xs e g = record {
  lower = ground (arith, g.lower);
  upper = ground (arith, g.upper);
  between = (λ _. (ground (arith, g.lower), ground (arith, g.upper)), g.between);
  low_found = ground (arith, g.low_found);
  high_found = ground (arith, g.high_found);
}

Grows-miss :
    (q lo₀ hi₀ lo hi : ℤ) (x : ConsumeOutcome) (xs : List ConsumeOutcome)
    → partition_of x ≢ q
    → Grows q lo₀ hi₀ lo hi xs
    → Grows q lo₀ hi₀ lo hi (x ∷ xs)
Grows-miss q lo₀ hi₀ lo hi x xs e g = record {
  lower = g.lower;
  upper = g.upper;
  between = (λ h. absurd (e h), g.between);
  low_found = ground (arith, g.low_found);
  high_found = ground (arith, g.high_found);
}

range_from-Grows :
    (q lo₀ hi₀ : ℤ) (xs : List ConsumeOutcome)
    → (lo hi : ℤ) × (range_from q (some (lo₀, hi₀)) xs ≡ some (lo, hi)) × Grows q lo₀ hi₀ lo hi xs
unfolding range_from
range_from-Grows q lo₀ hi₀ [] = (
  lo₀,
  hi₀,
  refl,
  record {
    lower = omega arith;
    upper = omega arith;
    between = tt;
    low_found = inl refl;
    high_found = inl refl;
  },
)
range_from-Grows q lo₀ hi₀ (x ∷ xs) = elim (Bool-cases (eqb_ℤ (partition_of x) q)) [
  | inl e ↦
      let (lo, hi, p, g) =
        range_from-Grows q (lesser lo₀ (offset_of x)) (greater hi₀ (offset_of x)) xs in
      (lo, hi, rw e p, Grows-hit q lo₀ hi₀ lo hi x xs ((eqb_ℤ_iff _ q).0 e) g)
  | inr e ↦
      let (lo, hi, p, g) = range_from-Grows q lo₀ hi₀ xs in
      (lo, hi, rw e p, Grows-miss q lo₀ hi₀ lo hi x xs (λ h. cc ((eqb_ℤ_iff _ q).1 h)) g)
]

IsRange-miss :
    (q : ℤ) (r : Option (ℤ × ℤ)) (x : ConsumeOutcome) (xs : List ConsumeOutcome)
    → partition_of x ≢ q
    → IsRange q r xs
    → IsRange q r (x ∷ xs)
IsRange-miss q none x xs e h = (e, h)
IsRange-miss q (some (lo, hi)) x xs e h = (((λ k. absurd (e k)), h.0), inr h.1, inr h.2)

-- The range of a list of messages is exact for every partition.
pub range_of-IsRange : (q : ℤ) (xs : List ConsumeOutcome) → IsRange q (range_of q xs) xs
unfolding range_of range_from
range_of-IsRange q [] = tt
range_of-IsRange q (x ∷ xs) = elim (Bool-cases (eqb_ℤ (partition_of x) q)) [
  | inl e ↦
      let o = offset_of x in
      let (lo, hi, p, g) = range_from-Grows q o o xs in
      rw (e, p)
        (
          (λ _. (g.lower, g.upper), g.between),
          ground (arith, g.low_found, (eqb_ℤ_iff (partition_of x) q).0 e),
          ground (arith, g.high_found, (eqb_ℤ_iff (partition_of x) q).0 e),
        )
  | inr e ↦ rw e (
      IsRange-miss q (range_from q none xs) x xs (λ h. cc ((eqb_ℤ_iff _ q).1 h))
        (unfold range_of in range_of-IsRange q xs))
]
