-- ===== src/Streamer/Accumulator/Identity.antt =====
-- The batch identifier and the order in which the HashMap gives its entries.
use mathlib.Core.Path.{subst}
use mathlib.Core.List.{Permᴰ}
use fps_anticheat_data_platf.Prelude.{
  ◌≡◌, ◌≢◌, refl, ap, ◌∙◌, String, [], ◌∷◌, arith, All, Bool-cases, inl, inr,
}
use fps_anticheat_data_platf.Prelude.Int.{ℤ, eqb_ℤ, eqb_ℤ_iff}
use fps_anticheat_data_platf.Streamer.Accumulator.{
  Span, PartitionOffsets, track_partition_offset, insert_sorted, sort_by_partition,
  generate_batch_id, widen,
}

-- one entry for each key, as in any HashMap
abbrev pub IsKeyed : PartitionOffsets → Type 0
IsKeyed [] = Unit
IsKeyed (s ∷ rest) = All (λ t. s.partition ≢ t.partition) rest × IsKeyed rest

partition-widen : (s : Span) (o : ℤ) → (widen s o).partition ≡ s.partition
unfolding widen
partition-widen s o = refl

fresh-track :
    (k p o : ℤ) (m : PartitionOffsets)
    → k ≢ p
    → All (λ t. k ≢ t.partition) m
    → All (λ t. k ≢ t.partition) (track_partition_offset p o m)
unfolding track_partition_offset
fresh-track k p o [] n h = (n, tt)
fresh-track k p o (s ∷ rest) n h = elim (Bool-cases (eqb_ℤ s.partition p)) [
  | inl e ↦ rw e (rw partition-widen h.0, h.1)
  | inr e ↦ rw e (h.0, fresh-track k p o rest n h.1)
]

-- Tracking an offset keeps one entry for each partition.
pub track-IsKeyed :
    (p o : ℤ) (m : PartitionOffsets) → IsKeyed m → IsKeyed (track_partition_offset p o m)
unfolding track_partition_offset
track-IsKeyed p o [] h = (tt, tt)
track-IsKeyed p o (s ∷ rest) h = elim (Bool-cases (eqb_ℤ s.partition p)) [
  | inl e ↦ rw e (rw partition-widen h.0, h.1)
  | inr e ↦ rw e (
    fresh-track s.partition p o rest (λ q. cc ((eqb_ℤ_iff s.partition p).1 q)) h.0,
    track-IsKeyed p o rest h.1,
  )
]

insert_comm :
    (s t : Span) (m : PartitionOffsets)
    → s.partition ≢ t.partition
    → insert_sorted s (insert_sorted t m) ≡ insert_sorted t (insert_sorted s m)
unfolding insert_sorted
insert_comm s t [] n = ground (arith, eqb_ℤ_iff s.partition t.partition)
insert_comm s t (u ∷ m) n = ground (arith, eqb_ℤ_iff s.partition t.partition, insert_comm s t m n)

All-perm : (P : Span → Type 0) {l m : PartitionOffsets} → Permᴰ l m → All P l → All P m
All-perm P Permᴰ.nil h = h
All-perm P (Permᴰ.cons e d) h = (subst P e h.0, All-perm P d h.1)
All-perm P (Permᴰ.swap e f) h = (subst P f h.1.0, (subst P e h.0, h.1.1))
All-perm P (Permᴰ.trans d e) h = All-perm P e (All-perm P d h)

IsKeyed-perm : {l m : PartitionOffsets} → Permᴰ l m → IsKeyed l → IsKeyed m
IsKeyed-perm Permᴰ.nil h = h
IsKeyed-perm (Permᴰ.cons {l₂ = l₂} e d) h =
    (subst (λ s. All (λ t. s.partition ≢ t.partition) l₂) e (All-perm _ d h.0), IsKeyed-perm d h.1)
IsKeyed-perm (Permᴰ.swap {l = l} e f) h = (
  (
    (λ k. h.0.0 (cc (ap (λ (s : Span). s.partition) e, ap (λ (s : Span). s.partition) f, k))),
    subst (λ s. All (λ t. s.partition ≢ t.partition) l) f h.1.0,
  ),
  (subst (λ s. All (λ t. s.partition ≢ t.partition) l) e h.0.1, h.1.1),
)
IsKeyed-perm (Permᴰ.trans d e) h = IsKeyed-perm e (IsKeyed-perm d h)

sort-perm :
    {l m : PartitionOffsets} → Permᴰ l m → IsKeyed l → sort_by_partition l ≡ sort_by_partition m
unfolding sort_by_partition
sort-perm Permᴰ.nil h = refl
sort-perm (Permᴰ.cons e d) h = cc (e, sort-perm d h.1)
sort-perm (Permᴰ.swap {a = a} {b = b} {l = l} e f) h =
    cc (e, f, insert_comm a b (sort_by_partition l) h.0.0)
sort-perm (Permᴰ.trans d e) h = sort-perm d h ∙ sort-perm e (IsKeyed-perm d h)

-- Two offset maps with the same entries in any two orders give the same batch identifier.
pub generate_batch_id-perm :
    (sha256 : String → String) (l m : PartitionOffsets)
    → IsKeyed l
    → Permᴰ l m
    → generate_batch_id sha256 l ≡ generate_batch_id sha256 m
unfolding generate_batch_id
generate_batch_id-perm sha256 l m h d = cc (sort-perm d h)
