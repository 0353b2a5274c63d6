-- ===== src/Streamer/Consumer/Positions.antt =====
-- The committed positions against the messages of the batch.
use fps_anticheat_data_platf.Prelude.{
  ◌≡◌, ◌≢◌, ◌∙◌, refl, ap, true, false, Option, none, some, List, [], ◌∷◌, arith, if◌then◌else◌,
  All,
}
use mathlib.Core.Path.{subst}
use fps_anticheat_data_platf.Prelude.Int.{ℤ, pos, ◌+ℤ◌, ltb_ℤ, eqb_ℤ, i64_max, i64_succ}
use fps_anticheat_data_platf.Streamer.Domain.{ConsumeOutcome}
use fps_anticheat_data_platf.Streamer.Accumulator.{PartitionOffsets, CompletedBatch}
use fps_anticheat_data_platf.Streamer.Accumulator.Offsets.{
  lookup, partition_of, offset_of, IsRange, Between, Occurs,
}
use fps_anticheat_data_platf.Streamer.Accumulator.Batches.{IsBatchOf}
use fps_anticheat_data_platf.Streamer.Action.{Position}
use fps_anticheat_data_platf.Streamer.Consumer.{position_of, positions_of}

-- the position that a commit sets for a partition
unfoldable pub next_for : ℤ → List Position → Option ℤ
next_for q [] = none
next_for q (p ∷ rest) = if eqb_ℤ p.partition q then some p.next_offset else next_for q rest

abbrev pub after_span : Option (ℤ × ℤ) → Option ℤ
after_span none = none
after_span (some (lo, hi)) = some (i64_succ hi)

next_for-positions_of :
    (q : ℤ) (m : PartitionOffsets) → next_for q (positions_of m) ≡ after_span (lookup q m)
unfolding next_for positions_of position_of lookup
next_for-positions_of q [] = refl
next_for-positions_of q (s ∷ rest) = ground (arith, next_for-positions_of q rest)

below_next :
    (q lo hi : ℤ) (seg : List ConsumeOutcome)
    → ltb_ℤ hi i64_max ≡ true
    → Between q lo hi seg
    → All (λ x. partition_of x ≡ q → ltb_ℤ (offset_of x) (i64_succ hi) ≡ true) seg
unfolding i64_succ
below_next q lo hi [] b h = tt
below_next q lo hi (x ∷ xs) b h =
    ((λ e. let k = h.0 e in ground (arith, k.1)), below_next q lo hi xs b h.1)

-- A partition without a message in the batch gets no position in the commit.
pub positions_of-none :
    (q : ℤ) (seg : List ConsumeOutcome) (b : CompletedBatch)
    → IsBatchOf seg b
    → lookup q b.partition_offsets ≡ none
    → (next_for q (positions_of b.partition_offsets) ≡ none) × All (λ x. partition_of x ≢ q) seg
positions_of-none q seg b h e = (
  next_for-positions_of q b.partition_offsets ∙ ap after_span e,
  subst (λ (r : Option (ℤ × ℤ)). IsRange q r seg) e (h.spans q),
)

-- The commit of a batch sets, for a partition with a message in the batch, the position just after
-- its greatest offset there, unless that is the greatest `i64`: every message of the batch is then
-- below the position, and the position's predecessor is the offset of one of them.
pub positions_of_lem :
    (q lo hi : ℤ) (seg : List ConsumeOutcome) (b : CompletedBatch)
    → IsBatchOf seg b
    → lookup q b.partition_offsets ≡ some (lo, hi)
    → ltb_ℤ hi i64_max ≡ true
    → (next_for q (positions_of b.partition_offsets) ≡ some (hi +ℤ pos 1))
      × Occurs q hi seg
      × All (λ x. partition_of x ≡ q → ltb_ℤ (offset_of x) (hi +ℤ pos 1) ≡ true) seg
unfolding i64_succ
positions_of_lem q lo hi seg b h e k =
    let range : IsRange q (some (lo, hi)) seg =
      subst (λ (r : Option (ℤ × ℤ)). IsRange q r seg) e (h.spans q) in
    let not_last : eqb_ℤ hi i64_max ≡ false = ground (arith, k) in
    let succ_is : i64_succ hi ≡ hi +ℤ pos 1 = rw not_last in
    (
      next_for-positions_of q b.partition_offsets ∙ ap after_span e ∙ ap some succ_is,
      range.2,
      subst (λ n. All (λ x. partition_of x ≡ q → ltb_ℤ (offset_of x) n ≡ true) seg) succ_is
          (below_next q lo hi seg k range.0),
    )
