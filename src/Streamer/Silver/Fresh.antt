-- ===== src/Streamer/Silver/Fresh.antt =====
-- What is left of a list where an element is skipped if one before it has the same identifier; an
-- element with a blank identifier never is.
use fps_anticheat_data_platf.Prelude.{
  ◌≡◌, refl, sym, ap, ◌∙◌, inl, inr, Bool, true, false, not, ◌&&◌, String, List, [], ◌∷◌, map, any,
  if◌then◌else◌, str_eq, str_eq_iff, arith, Bool-cases, All,
}
use fps_anticheat_data_platf.Prelude.Text.{is_blank}
use fps_anticheat_data_platf.Streamer.Dedup.{contains}
use fps_anticheat_data_platf.Streamer.Silver.{BronzeRow, is_repeated, see}

abbrev pub has_id {ℓ} : {A : Type ℓ} → (A → String) → String → A → Bool
has_id id_of id x = str_eq (id_of x) id

-- an element of `before` has the identifier of `x`
abbrev pub repeats {ℓ} : {A : Type ℓ} → (A → String) → List A → A → Bool
repeats id_of before x = not (is_blank (id_of x)) && any (has_id id_of (id_of x)) before

-- the elements that no element before them repeats; `before` came before the list
unfoldable pub fresh {ℓ} : {A : Type ℓ} → (A → String) → List A → List A → List A
fresh id_of before [] = []
fresh id_of before (x ∷ rest) =
    let later = fresh id_of (x ∷ before) rest in if repeats id_of before x then later else x ∷ later

any-map :
    {A B : Type 0} (f : A → B) (id_of : B → String) (id : String) (xs : List A)
    → any (has_id id_of id) (map f xs) ≡ any (has_id (λ x. id_of (f x)) id) xs
any-map f id_of id [] = refl
any-map f id_of id (x ∷ xs) = rw (any-map f id_of id xs) refl

pub fresh-map :
    {A B : Type 0} (f : A → B) (id_of : B → String) (before xs : List A)
    → fresh id_of (map f before) (map f xs) ≡ map f (fresh (λ x. id_of (f x)) before xs)
unfolding fresh
fresh-map f id_of before [] = refl
fresh-map f id_of before (x ∷ xs) = elim (Bool-cases (repeats (λ y. id_of (f y)) before x)) [
  | inl e ↦ rw (any-map f id_of (id_of (f x)) before, e) (fresh-map f id_of (x ∷ before) xs)
  | inr e ↦
      rw (any-map f id_of (id_of (f x)) before, e)
        (ap (λ l. f x ∷ l) (fresh-map f id_of (x ∷ before) xs))
]

pub fresh-All :
    {A : Type 0} (P : A → Type 0) (id_of : A → String) (before xs : List A)
    → All P xs
    → All P (fresh id_of before xs)
unfolding fresh
fresh-All P id_of before [] h = tt
fresh-All P id_of before (x ∷ xs) h = elim (Bool-cases (repeats id_of before x)) [
  | inl e ↦ rw e (fresh-All P id_of (x ∷ before) xs h.1)
  | inr e ↦ rw e (h.0, fresh-All P id_of (x ∷ before) xs h.1)
]

-- the rows that the loop of silver.rs does not skip, from a set of identifiers
unfoldable pub first_rows : List String → List BronzeRow → List BronzeRow
unfolding contains
first_rows seen [] = []
first_rows seen (r ∷ rest) =
    let skipped = first_rows seen rest in
    let kept = r ∷ first_rows (see r seen) rest in if is_repeated r seen then skipped else kept

abbrev id_of_row : BronzeRow → String
id_of_row r = r.event_id

-- the set has the identifiers of the rows before
abbrev IsSetOf : List String → List BronzeRow → Type 0
IsSetOf seen before =
    (id : String) → is_blank id ≡ false → contains id seen ≡ any (has_id id_of_row id) before

skip-IsSetOf :
    (r : BronzeRow) (seen : List String) (before : List BronzeRow)
    → IsSetOf seen before
    → is_repeated r seen ≡ true
    → IsSetOf seen (r ∷ before)
unfolding contains
skip-IsSetOf r seen before h old id some_id = elim (Bool-cases (str_eq r.event_id id)) [
  | inr e ↦ rw e (h id some_id)
  | inl e ↦
      let same : r.event_id ≡ id = (str_eq_iff r.event_id id).0 e in
      rw e (ground (arith, rw same at old))
]

see-IsSetOf :
    (r : BronzeRow) (seen : List String) (before : List BronzeRow)
    → IsSetOf seen before
    → IsSetOf (see r seen) (r ∷ before)
unfolding contains
see-IsSetOf r seen before h id some_id = elim (Bool-cases (str_eq r.event_id id)) [
  | inr e ↦ ground (arith, e, h id some_id)
  | inl e ↦
      let same : r.event_id ≡ id = (str_eq_iff r.event_id id).0 e in
      let some_row : is_blank r.event_id ≡ false = rw same some_id in rw (some_row, e) refl
]

-- The loop skips exactly the rows that a row before repeats.
first_rows-from :
    (seen : List String) (before rows : List BronzeRow)
    → IsSetOf seen before
    → first_rows seen rows ≡ fresh id_of_row before rows
unfolding first_rows fresh
first_rows-from seen before [] h = refl
first_rows-from seen before (r ∷ rest) h =
    let same : is_repeated r seen ≡ repeats id_of_row before r =
      elim (Bool-cases (is_blank r.event_id)) [
        | inl b ↦ rw b refl
        | inr b ↦ rw (b, h r.event_id b) refl
      ] in
    elim (Bool-cases (is_repeated r seen)) [
      | inl e ↦
          rw (e, sym same ∙ e)
            (first_rows-from seen (r ∷ before) rest (skip-IsSetOf r seen before h e))
      | inr e ↦
          rw (e, sym same ∙ e)
            (ap (λ l. r ∷ l)
              (first_rows-from (see r seen) (r ∷ before) rest (see-IsSetOf r seen before h)))
    ]

pub first_rows-fresh :
    (rows : List BronzeRow) → first_rows [] rows ≡ fresh (λ (r : BronzeRow). r.event_id) [] rows
unfolding contains
first_rows-fresh rows = first_rows-from [] [] rows (λ id h. refl)
