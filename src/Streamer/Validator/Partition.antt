-- ===== src/Streamer/Validator/Partition.antt =====
-- `validate_batch` and the two sides of its input.
use fps_anticheat_data_platf.Prelude.{
  ◌+◌, ◌≡◌, refl, ◌⊎◌, inl, inr, Bool, true, false, String, List, [], ◌∷◌, ◌++◌, append_assoc,
  append-nil, length, arith, keep,
}
use fps_anticheat_data_platf.Prelude.Float.{Float}
use fps_anticheat_data_platf.Prelude.Result.{Result, ok, err}
use fps_anticheat_data_platf.Streamer.Domain.{AnyEnvelope}
use fps_anticheat_data_platf.Streamer.Validator.{
  InvalidEnvelopeRecord, validate_any, invalid_record, validate_each, validate_batch,
}

abbrev pub is_accepted : Result (List String) (Unit {0}) → Bool
is_accepted (ok _) = true
is_accepted (err _) = false

abbrev record_if_refused :
    AnyEnvelope
    → Result (List String) (Unit {0})
    → List InvalidEnvelopeRecord
    → List InvalidEnvelopeRecord
record_if_refused e (ok _) rest = rest
record_if_refused e (err reasons) rest = invalid_record e reasons ∷ rest

-- the records of the refused events, each with its identifiers and its own reasons
abbrev pub refused :
    (AnyEnvelope → Result (List String) (Unit {0})) → List AnyEnvelope → List InvalidEnvelopeRecord
refused judge [] = []
refused judge (e ∷ es) = record_if_refused e (judge e) (refused judge es)

judged : (r : Result (List String) (Unit {0})) → (r ≡ ok tt) ⊎ ((x : List String) × (r ≡ err x))
judged (ok tt) = inl refl
judged (err x) = inr (x, refl)

accepted_or_refused :
    (judge : AnyEnvelope → Result (List String) (Unit {0})) (es : List AnyEnvelope)
    → length (keep (λ e. is_accepted (judge e)) es) + length (refused judge es) ≡ length es
accepted_or_refused judge [] = omega arith
accepted_or_refused judge (e ∷ es) = elim (judged (judge e)) [
  | inl h ↦ rw h (omega (arith, accepted_or_refused judge es))
  | inr (x, h) ↦ rw h (omega (arith, accepted_or_refused judge es))
]

module _ (rfc3339 : String → Bool) (one : Float) where
  -- the loop adds to what it has found
  validate_each-append :
      (es : List AnyEnvelope) (good : List AnyEnvelope) (bad : List InvalidEnvelopeRecord)
      → validate_each rfc3339 one es (good, bad) ≡ (
        good ++ keep (λ e. is_accepted (validate_any rfc3339 one e)) es,
        bad ++ refused (validate_any rfc3339 one) es,
      )
  unfolding validate_each
  validate_each-append [] good bad = simp append-nil
  validate_each-append (e ∷ es) good bad = elim (judged (validate_any rfc3339 one e)) [
    | inl h ↦ rw h (simp (validate_each-append es (good ++ e ∷ []) bad, append_assoc))
    | inr (x, h) ↦
        rw h (simp (validate_each-append es good (bad ++ invalid_record e x ∷ []), append_assoc))
  ]

  -- The accepted events of a batch come out in the order of arrival, the refused ones as one record
  -- each, with their identifiers and their reasons, in the order of arrival; the two counts are
  -- the lengths of these lists and add up to the number of events.
  pub validate_batch_partition :
      (events : List AnyEnvelope)
      → let out = validate_batch rfc3339 one events in
        (out.valid_records ≡ keep (λ e. is_accepted (validate_any rfc3339 one e)) events)
        × (out.invalid_records ≡ refused (validate_any rfc3339 one) events)
        × (out.valid_count ≡ length out.valid_records)
        × (out.invalid_count ≡ length out.invalid_records)
        × (out.valid_count + out.invalid_count ≡ length events)
  unfolding validate_batch
  validate_batch_partition events =
      rw validate_each-append
        (refl, refl, refl, refl, accepted_or_refused (validate_any rfc3339 one) events)
