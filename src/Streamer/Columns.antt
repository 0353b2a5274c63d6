-- ===== src/Streamer/Columns.antt =====
-- What the transforms take from the Arrow library: typed columns with nulls, and a table of them.
-- `B` is Arrow's `RecordBatch`.
use fps_anticheat_data_platf.Prelude.{
  ℕ, zero, suc, ◌≡◌, ◌≢◌, refl, Bool, true, false, String, Option, none, some, List, [], ◌∷◌, map,
  length, is_empty, get_elem?, unwrap_or, if◌then◌else◌, str_eq, All, arith,
}
use fps_anticheat_data_platf.Prelude.Int.{ℤ}
use fps_anticheat_data_platf.Prelude.Float.{Float}
use fps_anticheat_data_platf.Prelude.Result.{Result, ok}

-- StringArray, Int64Array and Float64Array
pub data Column : Type 0 where
  text : List (Option String) → Column
  int : List (Option ℤ) → Column
  float : List (Option Float) → Column

pub data DataType : Type 0 where
  utf8 int64 float64 : DataType

pub record Field : Type 0 where
  pub name : String
  pub data_type : DataType
  pub nullable : Bool

abbrev pub Schema : Type 0
Schema = List Field

-- `try_new`, `num_rows` and `column_by_name`, which answers `none` also for a column of another
-- type; and what `value` answers where the cell is null
pub record Arrow (B : Type 0) : Type 0 where
  pub try_new : Schema → List Column → Result String B
  pub num_rows : B → ℕ
  pub column_by_name : B → String → Option Column
  pub null_text : String

abbrev pub text_column : Option Column → Option (List (Option String))
text_column (some (text cells)) = some cells
text_column _ = none

abbrev pub int_column : Option Column → Option (List (Option ℤ))
int_column (some (int cells)) = some cells
int_column _ = none

abbrev pub float_column : Option Column → Option (List (Option Float))
float_column (some (float cells)) = some cells
float_column _ = none

-- the cell of a row; a column is as long as its table
abbrev flat {ℓ} : {A : Type ℓ} → Option (Option A) → Option A
flat none = none
flat (some o) = o

abbrev pub cell {ℓ} : {A : Type ℓ} → List (Option A) → ℕ → Option A
cell cells row = flat (get_elem? cells row)

-- `col.filter(|a| !a.is_null(row)).map(|a| a.value(row))`
abbrev pub opt_cell {ℓ} : {A : Type ℓ} → Option (List (Option A)) → ℕ → Option A
opt_cell none row = none
opt_cell (some cells) row = cell cells row

-- `col.map(|a| a.value(row).to_string()).unwrap_or_default()`
abbrev pub text_or_default : String → Option (List (Option String)) → ℕ → String
text_or_default null_text none row = ""
text_or_default null_text (some cells) row = unwrap_or (cell cells row) null_text

-- the column that `try_new` puts under a name
unfoldable pub column_named : String → Schema → List Column → Option Column
column_named name [] cols = none
column_named name (f ∷ fs) [] = none
column_named name (f ∷ fs) (c ∷ cols) =
    let later = column_named name fs cols in if str_eq f.name name then some c else later

abbrev pub NoNulls {ℓ} : {A : Type ℓ} → Bool → List (Option A) → Type ℓ
NoNulls true cells = Unit
NoNulls false cells = All (λ c. c ≢ none) cells

-- a column of `n` cells for a field: of its type, and without a null unless that is allowed
abbrev pub Fills : ℕ → Field → Column → Type 0
Fills n f (text cells) = (f.data_type ≡ utf8) × (length cells ≡ n) × NoNulls f.nullable cells
Fills n f (int cells) = (f.data_type ≡ int64) × (length cells ≡ n) × NoNulls f.nullable cells
Fills n f (float cells) = (f.data_type ≡ float64) × (length cells ≡ n) × NoNulls f.nullable cells

abbrev pub FillAll : ℕ → Schema → List Column → Type 0
FillAll n [] [] = Unit
FillAll n (f ∷ fs) (c ∷ cs) = Fills n f c × FillAll n fs cs
FillAll n _ _ = ⊥

-- Arrow's contract: columns that fit a schema with a field make a table, which gives them back by
-- name.
pub record IsArrow {B : Type 0} (arrow : Arrow B) : Type 0 where
  pub builds :
      (n : ℕ) (schema : Schema) (cols : List Column)
      → is_empty schema ≡ false
      → FillAll n schema cols
      → (b : B) × (arrow.try_new schema cols ≡ ok b)
  pub rows :
      (n : ℕ) (schema : Schema) (cols : List Column) (b : B)
      → is_empty schema ≡ false
      → FillAll n schema cols
      → arrow.try_new schema cols ≡ ok b
      → arrow.num_rows b ≡ n
  pub columns :
      (n : ℕ) (schema : Schema) (cols : List Column) (b : B) (name : String)
      → is_empty schema ≡ false
      → FillAll n schema cols
      → arrow.try_new schema cols ≡ ok b
      → arrow.column_by_name b name ≡ column_named name schema cols

-- a table of `n` rows that gives the columns back
pub record IsTable {B : Type 0} (arrow : Arrow B) (n : ℕ) (schema : Schema) (cols : List Column)
    (b : B) : Type 0 where
  pub rows : arrow.num_rows b ≡ n
  pub columns : (name : String) → arrow.column_by_name b name ≡ column_named name schema cols

pub build :
    {B : Type 0} (arrow : Arrow B) (n : ℕ) (schema : Schema) (cols : List Column)
    → IsArrow arrow
    → is_empty schema ≡ false
    → FillAll n schema cols
    → (b : B) × (arrow.try_new schema cols ≡ ok b) × IsTable arrow n schema cols b
build arrow n schema cols laws some_field fits =
    let (b, built) = laws.builds n schema cols some_field fits in
    (
      b,
      built,
      record {
        rows = laws.rows n schema cols b some_field fits built;
        columns = λ name. laws.columns n schema cols b name some_field fits built;
      },
    )

-- a column of a function of the rows
cell-map {ℓ κ} :
    {A : Type ℓ} {C : Type κ} (f : A → Option C) (xs : List A) (i : ℕ) (x : A)
    → get_elem? xs i ≡ some x
    → cell (map f xs) i ≡ f x
cell-map f [] i x h = absurd (ground arith)
cell-map f (y ∷ ys) zero x h = ground (arith, h)
cell-map f (y ∷ ys) (suc i) x h = cell-map f ys i x h

pub at_cell :
    {A : Type 0} (xs : List A) (i : ℕ) (x : A)
    → get_elem? xs i ≡ some x
    → {C : Type 0} (f : A → Option C) → cell (map f xs) i ≡ f x
at_cell xs i x h f = cell-map f xs i x h

pub length-map {ℓ κ} :
    {A : Type ℓ} {C : Type κ} (f : A → C) (xs : List A) → length (map f xs) ≡ length xs
length-map f [] = refl
length-map f (x ∷ xs) = omega (arith, length-map f xs)

pub All_some {ℓ κ} :
    {A : Type ℓ} {C : Type κ} (f : A → C) (xs : List A)
    → All (λ (c : Option C). c ≢ none) (map (λ x. some (f x)) xs)
All_some f [] = tt
All_some f (x ∷ xs) = ((λ h. cc h), All_some f xs)
