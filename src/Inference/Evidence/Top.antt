-- ===== src/Inference/Evidence/Top.antt =====
-- Which items the evidence has, and in what order.
use mathlib.Core.List.{Permᴰ}
use mathlib.Core.Path.{subst}
use fps_anticheat_data_platf.Prelude.{
  ◌≡◌, inl, inr, refl, true, false, List, [], ◌∷◌, ◌++◌, append-nil, keep, take, arith, All,
  Bool-cases,
}
use fps_anticheat_data_platf.Prelude.Float.{Float, lt, Arithmetic}
use fps_anticheat_data_platf.Inference.Evidence.{
  EvidenceItem, Reference, insert_item, sort_onto, references, z_score_of, item_of, collect,
  generate_evidence,
}

-- no item is exceeded by a later one
abbrev pub IsDescending : List EvidenceItem → Type 0
IsDescending [] = Unit
IsDescending (x ∷ xs) = All (λ y. lt x.z_score y.z_score ≡ false) xs × IsDescending xs

module _ (P : EvidenceItem → Type 0) where
  All-insert_item :
      (x : EvidenceItem) (ys : List EvidenceItem) → P x → All P ys → All P (insert_item x ys)
  unfolding insert_item
  All-insert_item x [] p h = (p, tt)
  All-insert_item x (y ∷ ys) p h = elim (Bool-cases (lt y.z_score x.z_score)) [
    | inl e ↦ rw e (p, h)
    | inr e ↦ rw e (h.0, All-insert_item x ys p h.1)
  ]

not_above : (x y z : Float) → lt y x ≡ true → lt y z ≡ false → lt x z ≡ false
not_above x y z h k = ground arith

still_below :
    (x y : EvidenceItem) (ys : List EvidenceItem)
    → lt y.z_score x.z_score ≡ true
    → All (λ z. lt y.z_score z.z_score ≡ false) ys
    → All (λ z. lt x.z_score z.z_score ≡ false) ys
still_below x y [] h k = tt
still_below x y (z ∷ zs) h k =
    (not_above x.z_score y.z_score z.z_score h k.0, still_below x y zs h k.1)

insert-IsDescending :
    (x : EvidenceItem) (ys : List EvidenceItem) → IsDescending ys → IsDescending (insert_item x ys)
unfolding insert_item
insert-IsDescending x [] h = (tt, tt)
insert-IsDescending x (y ∷ ys) h = elim (Bool-cases (lt y.z_score x.z_score)) [
  | inl e ↦ rw e ((ground (arith, e), still_below x y ys e h.0), h)
  | inr e ↦ rw e (
    All-insert_item (λ z. lt y.z_score z.z_score ≡ false) x ys e h.0,
    insert-IsDescending x ys h.1,
  )
]

sort-IsDescending : (xs ys : List EvidenceItem) → IsDescending xs → IsDescending (sort_onto xs ys)
unfolding sort_onto
sort-IsDescending xs [] h = h
sort-IsDescending xs (y ∷ ys) h =
    sort-IsDescending (insert_item y xs) ys (insert-IsDescending y xs h)

insert-perm : (x : EvidenceItem) (ys : List EvidenceItem) → Permᴰ (insert_item x ys) (x ∷ ys)
unfolding insert_item
insert-perm x [] = Permᴰ.cons refl Permᴰ.nil
insert-perm x (y ∷ ys) = elim (Bool-cases (lt y.z_score x.z_score)) [
  | inl e ↦ rw e (Permᴰ.trans (Permᴰ.swap refl refl) (Permᴰ.swap refl refl))
  | inr e ↦ rw e (Permᴰ.trans (Permᴰ.cons refl (insert-perm x ys)) (Permᴰ.swap refl refl))
]

perm-refl : (xs : List EvidenceItem) → Permᴰ xs xs
perm-refl [] = Permᴰ.nil
perm-refl (x ∷ xs) = Permᴰ.cons refl (perm-refl xs)

perm-append :
    (xs : List EvidenceItem) {ys zs : List EvidenceItem} → Permᴰ ys zs → Permᴰ (xs ++ ys) (xs ++ zs)
perm-append [] p = p
perm-append (x ∷ xs) p = Permᴰ.cons refl (perm-append xs p)

perm-middle : (y : EvidenceItem) (ys xs : List EvidenceItem) → Permᴰ (ys ++ y ∷ xs) (y ∷ (ys ++ xs))
perm-middle y [] xs = Permᴰ.cons refl (perm-refl xs)
perm-middle y (z ∷ ys) xs =
    Permᴰ.trans (Permᴰ.cons refl (perm-middle y ys xs)) (Permᴰ.swap refl refl)

sort_onto-perm : (xs ys : List EvidenceItem) → Permᴰ (sort_onto xs ys) (ys ++ xs)
unfolding sort_onto
sort_onto-perm [] [] = Permᴰ.nil
sort_onto-perm (x ∷ xs) [] = Permᴰ.cons refl (sort_onto-perm xs [])
sort_onto-perm xs (y ∷ ys) =
    Permᴰ.trans (sort_onto-perm (insert_item y xs) ys)
      (Permᴰ.trans (perm-append ys (insert-perm y xs)) (perm-middle y ys xs))

-- each feature with its row of the tables, as far as both go
abbrev pub measured : List Reference → List Float → List (Reference × Float)
measured [] vals = []
measured (r ∷ rs) [] = []
measured (r ∷ rs) (val ∷ vals) = (r, val) ∷ measured rs vals

module _ (f32 : Arithmetic) where
  -- the robust score of a value, (X - median) / (MAD * 1.4826)
  abbrev pub score : Reference × Float → Float
  score (r, val) = f32.div (f32.sub val r.median) (f32.mul r.mad (f32.literal 14826 4))

  -- the features whose score is above 1.5
  abbrev pub anomalies : List Float → List (Reference × Float)
  anomalies features =
      keep (λ x. lt (f32.literal 15 1) (score x)) (measured (references f32) features)

  -- the item names the feature, its value, the median and the score to one decimal
  pub record Reports (x : Reference × Float) (item : EvidenceItem) : Type 0 where
    pub feature : item.feature ≡ x.0.feature
    pub value : item.value ≡ x.1
    pub lobby_avg : item.lobby_avg ≡ x.0.median
    pub z_score :
        item.z_score
        ≡ f32.div (f32.round (f32.mul (score x) (f32.literal 100 1))) (f32.literal 100 1)

  -- item by item
  abbrev pub AllReport : List (Reference × Float) → List EvidenceItem → Type 0
  AllReport [] [] = Unit
  AllReport [] (item ∷ items) = ⊥
  AllReport (x ∷ xs) [] = ⊥
  AllReport (x ∷ xs) (item ∷ items) = Reports x item × AllReport xs items

  collect-AllReport :
      (rs : List Reference) (vals : List Float)
      → AllReport
          (keep (λ x. lt (f32.literal 15 1) (score x)) (measured rs vals))
          (collect f32 rs vals)
  unfolding collect z_score_of item_of
  collect-AllReport [] vals = tt
  collect-AllReport (r ∷ rs) [] = tt
  collect-AllReport (r ∷ rs) (val ∷ vals) =
      elim (Bool-cases (lt (f32.literal 15 1) (score (r, val)))) [
        | inl e ↦ rw e (
          record { feature = refl; value = refl; lobby_avg = refl; z_score = refl },
          collect-AllReport rs vals,
        )
        | inr e ↦ rw e (collect-AllReport rs vals)
      ]

  -- The evidence of any features is the first two items, or all if there are fewer, of a list that has
  -- exactly one item for each feature whose score in the tables is above 1.5, and in which no item is
  -- exceeded by a later one in the reported score. An item names the feature, its value, the median
  -- and the score to one decimal.
  pub generate_evidence_lem :
      (features : List Float)
      → (items : List EvidenceItem) × (sorted : List EvidenceItem) × AllReport
          (anomalies features)
          items
        × Permᴰ sorted items
        × IsDescending sorted
        × ((generate_evidence f32 features).top_evidence_features ≡ take 2 sorted)
  unfolding generate_evidence
  generate_evidence_lem features =
      let items = collect f32 (references f32) features in
      (
        items,
        sort_onto [] items,
        collect-AllReport (references f32) features,
        subst (λ (l : List EvidenceItem). Permᴰ (sort_onto [] items) l) (append-nil items)
            (sort_onto-perm [] items),
        sort-IsDescending [] items tt,
        refl,
      )
