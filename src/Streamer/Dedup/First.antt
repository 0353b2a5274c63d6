-- ===== src/Streamer/Dedup/First.antt =====
-- `deduplicate_batch` against its specification: the list without later events of an identifier.
use fps_anticheat_data_platf.Prelude.{
  ℕ, ◌+◌, ◌≡◌, inl, inr, refl, ap, ◌∙◌, sym, true, false, String, List, [], ◌∷◌, ◌++◌, append_assoc,
  append-nil, length, if◌then◌else◌, str_eq, str_eq_iff, arith, Bool-cases,
}
use fps_anticheat_data_platf.Streamer.Domain.{AnyEnvelope, event_id}
use fps_anticheat_data_platf.Streamer.Dedup.{contains, deduplicate_each, deduplicate_batch}

-- the identifiers of a list of events
abbrev pub ids : List AnyEnvelope → List String
ids [] = []
ids (e ∷ es) = event_id e ∷ ids es

-- The events whose identifier is neither in `seen` nor that of an earlier event of the list.
unfoldable pub firsts : List String → List AnyEnvelope → List AnyEnvelope
unfolding contains
firsts seen [] = []
firsts seen (e ∷ es) =
    let rest = firsts (event_id e ∷ seen) es in
    if contains (event_id e) seen then firsts seen es else e ∷ rest

-- no identifier occurs twice, and none is in `seen`
abbrev pub Fresh : List String → List AnyEnvelope → Type 0
Fresh seen [] = Unit
Fresh seen (e ∷ es) = (contains (event_id e) seen ≡ false) × Fresh (event_id e ∷ seen) es

-- `xs` is `ys` with some events left out
pub data IsSubsequence : List AnyEnvelope → List AnyEnvelope → Type 0 where
  done : IsSubsequence [] []
  skip :
      {x : AnyEnvelope} {xs ys : List AnyEnvelope} → IsSubsequence xs ys → IsSubsequence xs (x ∷ ys)
  take :
      {x : AnyEnvelope} {xs ys : List AnyEnvelope}
      → IsSubsequence xs ys
      → IsSubsequence (x ∷ xs) (x ∷ ys)

unique-deduplicate_each :
    (es : List AnyEnvelope) (seen : List String) (unique : List AnyEnvelope) (k : ℕ)
    → (deduplicate_each es seen unique k).0 ≡ unique ++ firsts seen es
unfolding deduplicate_each firsts
unique-deduplicate_each [] seen unique k = sym (append-nil unique)
unique-deduplicate_each (e ∷ es) seen unique k = elim (Bool-cases (contains (event_id e) seen)) [
  | inl h ↦ rw h (unique-deduplicate_each es seen unique (k + 1))
  | inr h ↦ rw h (
      unique-deduplicate_each es (event_id e ∷ seen) (unique ++ e ∷ []) k
      ∙ append_assoc unique (e ∷ []) _)
]

count-deduplicate_each :
    (es : List AnyEnvelope) (seen : List String) (unique : List AnyEnvelope) (k : ℕ)
    → (deduplicate_each es seen unique k).1 + length (firsts seen es) ≡ k + length es
unfolding deduplicate_each firsts
count-deduplicate_each [] seen unique k = omega arith
count-deduplicate_each (e ∷ es) seen unique k = elim (Bool-cases (contains (event_id e) seen)) [
  | inl h ↦ rw h (omega (arith, count-deduplicate_each es seen unique (k + 1)))
  | inr h ↦ rw h (omega (arith, count-deduplicate_each es (event_id e ∷ seen) (unique ++ e ∷ []) k))
]

firsts-Fresh : (es : List AnyEnvelope) (seen : List String) → Fresh seen (firsts seen es)
unfolding firsts
firsts-Fresh [] seen = tt
firsts-Fresh (e ∷ es) seen = elim (Bool-cases (contains (event_id e) seen)) [
  | inl h ↦ rw h (firsts-Fresh es seen)
  | inr h ↦ rw h (h, firsts-Fresh es (event_id e ∷ seen))
]

firsts-IsSubsequence :
    (es : List AnyEnvelope) (seen : List String) → IsSubsequence (firsts seen es) es
unfolding firsts
firsts-IsSubsequence [] seen = done
firsts-IsSubsequence (e ∷ es) seen = elim (Bool-cases (contains (event_id e) seen)) [
  | inl h ↦ rw h (skip (firsts-IsSubsequence es seen))
  | inr h ↦ rw h (take (firsts-IsSubsequence es (event_id e ∷ seen)))
]

seen_and_not :
    (a b : String) (seen : List String)
    → a ≡ b
    → contains a seen ≡ true
    → contains b seen ≡ false
    → ⊥
seen_and_not a b seen e s k = cc

-- an identifier of the input is in `seen` or in the output
firsts_complete :
    (id : String) (es : List AnyEnvelope) (seen : List String)
    → contains id (ids es) ≡ true
    → contains id seen ≡ false
    → contains id (ids (firsts seen es)) ≡ true
unfolding firsts contains
firsts_complete id [] seen h k = cc
firsts_complete id (e ∷ es) seen h k = elim (Bool-cases (contains (event_id e) seen)) [
  | inl s ↦ rw s (elim (Bool-cases (str_eq (event_id e) id)) [
    | inl q ↦ absurd (seen_and_not (event_id e) id seen ((str_eq_iff _ _).0 q) s k)
    | inr q ↦ firsts_complete id es seen (rw q at h) k
  ])
  | inr s ↦ rw s (elim (Bool-cases (str_eq (event_id e) id)) [
    | inl q ↦ rw q
    | inr q ↦ rw q (firsts_complete id es (event_id e ∷ seen) (rw q at h) (rw q k))
  ])
]

from_subsequence :
    (id : String) {xs ys : List AnyEnvelope}
    → IsSubsequence xs ys
    → contains id (ids xs) ≡ true
    → contains id (ids ys) ≡ true
unfolding contains
from_subsequence id done h = h
from_subsequence id (skip p) h = ground (arith, from_subsequence id p h)
from_subsequence id (take p) h = ground (arith, from_subsequence id p)

same_ids :
    (id : String) (es : List AnyEnvelope) → contains id (ids (firsts [] es)) ≡ contains id (ids es)
same_ids id es =
    let back = from_subsequence id (firsts-IsSubsequence es []) in
    let forth : contains id (ids es) ≡ true → contains id (ids (firsts [] es)) ≡ true =
      λ h. firsts_complete id es [] h (unfold contains in refl) in
    elim (Bool-cases (contains id (ids es))) [
      | inl h ↦ forth h ∙ sym h
      | inr h ↦ elim (Bool-cases (contains id (ids (firsts [] es)))) [
        | inl k ↦ cc (back k)
        | inr k ↦ k ∙ sym h
      ]
    ]

-- The unique records are the input with some events left out, no two of them have one identifier,
-- their identifiers are those of the input, and with the duplicates counted they are as many
-- as the input.
pub deduplicate_batch_lem :
    (es : List AnyEnvelope)
    → let out = deduplicate_batch es in
      IsSubsequence out.unique_records es
      × Fresh [] out.unique_records
      × ((id : String) → contains id (ids out.unique_records) ≡ contains id (ids es))
      × (length out.unique_records + out.duplicate_count ≡ length es)
unfolding deduplicate_batch
deduplicate_batch_lem es = rw unique-deduplicate_each (
  firsts-IsSubsequence es [],
  firsts-Fresh es [],
  (λ id. same_ids id es),
  omega (arith, count-deduplicate_each es [] [] 0),
)

firsts-of_Fresh : (es : List AnyEnvelope) (seen : List String) → Fresh seen es → firsts seen es ≡ es
unfolding firsts
firsts-of_Fresh [] seen h = refl
firsts-of_Fresh (e ∷ es) seen h =
    rw h.0 (ap (λ (r : List AnyEnvelope). e ∷ r) (firsts-of_Fresh es (event_id e ∷ seen) h.1))

unique-deduplicate_batch :
    (es : List AnyEnvelope) → (deduplicate_batch es).unique_records ≡ firsts [] es
unfolding deduplicate_batch
unique-deduplicate_batch es = unique-deduplicate_each es [] [] 0

-- Deduplicating the unique records again changes nothing and counts no duplicate.
pub deduplicate_batch_idem :
    (es : List AnyEnvelope)
    → deduplicate_batch (deduplicate_batch es).unique_records
      ≡ record { unique_records = (deduplicate_batch es).unique_records; duplicate_count = 0 }
deduplicate_batch_idem es =
    let us = (deduplicate_batch es).unique_records in
    let fresh : Fresh [] us = rw unique-deduplicate_batch (firsts-Fresh es []) in
    let same : (deduplicate_batch us).unique_records ≡ us =
      unique-deduplicate_batch us ∙ firsts-of_Fresh us [] fresh in
    ground (arith, same, ap length same, (deduplicate_batch_lem us).3)
