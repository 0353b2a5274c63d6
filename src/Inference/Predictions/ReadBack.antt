-- ===== src/Inference/Predictions/ReadBack.antt =====
-- What a file of predictions holds.
use Prim.Native.String
use text.Mathlib.TextLemmas.{append_assoc, append-nil, nil-append}
use fps_anticheat_data_platf.Prelude.{
  ◌≡◌, refl, sym, ap, ◌∙◌, inl, inr, false, String, Option, none, some, List, [], ◌∷◌, is_empty,
  All, Bool-cases, Option-cases,
}
use fps_anticheat_data_platf.Prelude.Text.{lines, concat}
use fps_anticheat_data_platf.Prelude.Text.Lines.{IsOneLine, lines-line}
use fps_anticheat_data_platf.Prelude.Result.{Result, ok, ◌>>=◌, Result-cases}
use fps_anticheat_data_platf.Inference.Predictions.{
  PredictionRecord, Output, write_records, write_predictions_json_stream,
}

-- every line, read as a record
abbrev pub parse_all :
    (String → Result String PredictionRecord) → List String → Result String (List PredictionRecord)
parse_all from_str [] = ok []
parse_all from_str (line ∷ rest) = do
  r ← from_str line
  records ← parse_all from_str rest
  ok (r ∷ records)

-- serde_json prints the record on one line, and reads it back
abbrev pub IsJson :
    (PredictionRecord → Result String String)
    → (String → Result String PredictionRecord)
    → PredictionRecord
    → Type 0
IsJson to_string from_str r =
    (line : String) → to_string r ≡ ok line → IsOneLine line × (from_str line ≡ ok r)

-- a write that succeeds appends its text
pub record Appends (out : Output) : Type 0 where
  pub written :
      (held text : String)
      → (out.write held text).0 ≡ none
      → (out.write held text).1 ≡ String.◌++◌ held text

module _ (to_string : PredictionRecord → Result String String)
    (from_str : String → Result String PredictionRecord) (out : Output) (file : Appends out) where
  write_records-reads :
      (records : List PredictionRecord) (held : String)
      → All (IsJson to_string from_str) records
      → (write_records to_string out records held).0 ≡ ok tt
      → (text : String) × ((write_records to_string out records held).1 ≡ String.◌++◌ held text)
        × (parse_all from_str (lines text) ≡ ok records)
  unfolding write_records lines
  write_records-reads [] held serde h = ("", sym (append-nil held), refl)
  write_records-reads (r ∷ rest) held serde h = elim (Result-cases (to_string r)) [
    | inr (e, k) ↦ absurd (cc (rw k at h))
    | inl (line, k) ↦
        let piece = concat (line ∷ "\n" ∷ []) in
        elim (Option-cases (out.write held piece).0) [
          | inr (e, w) ↦ absurd (cc (rw (k, w) at h))
          | inl w ↦
              let after = String.◌++◌ held piece in
              let e : ◌≡◌ {A = Option String × String} (out.write held piece) (none, after) =
                λ i. (w i, file.written held piece w i) in
              let (text, holds, read) = write_records-reads rest after serde.1 (rw (k, e) at h) in
              (
                String.◌++◌ piece text,
                rw (k, e) (holds ∙ append_assoc held piece text),
                rw (lines-line line text (serde.0 line k).0, (serde.0 line k).1, read) refl,
              )
        ]
  ]

  -- Where serde_json prints each of the records on one line and reads it back, and a write that
  -- succeeds appends its text, a file of predictions that was written without an error has records
  -- in it, and its lines read as exactly those records, in order, whatever the path held before.
  pub write_predictions_json_stream-reads :
      (records : List PredictionRecord) (before : Option String)
      → All (IsJson to_string from_str) records
      → (write_predictions_json_stream to_string out records before).0 ≡ ok tt
      → (is_empty records ≡ false)
        × (text : String) × ((write_predictions_json_stream to_string out records before).1
            ≡ some text)
        × (parse_all from_str (lines text) ≡ ok records)
  unfolding write_predictions_json_stream
  write_predictions_json_stream-reads records before serde h =
      elim (Bool-cases (is_empty records)) [
        | inl e ↦ absurd (cc (rw e at h))
        | inr e ↦ elim (Option-cases out.create) [
          | inr (x, c) ↦ absurd (cc (rw (e, c) at h))
          | inl c ↦
              let (text, holds, read) = write_records-reads records "" serde (rw (e, c) at h) in
              (e, text, rw (e, c) (ap some (holds ∙ nil-append text)), read)
        ]
      ]
