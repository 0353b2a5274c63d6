-- ===== src/Streamer/Consumer/Outcomes.antt =====
-- The outcome of a delivered message against its payload and its place.
use fps_anticheat_data_platf.Prelude.{
  ℕ, zero, suc, Bool-cases, ◌≤◌, ◌<◌, ◌≡◌, ◌⊎◌, inl, inr, refl, String, Option, none, some, List,
  [], ◌∷◌, length, length-take, take, leb, arith,
}
use fps_anticheat_data_platf.Prelude.Result.{Result, ok, err, Result-cases}
use fps_anticheat_data_platf.Streamer.Domain.{AnyEnvelope, ConsumeOutcome, valid, invalid}
use fps_anticheat_data_platf.Streamer.Action.{AppError, kafka}
use fps_anticheat_data_platf.Streamer.Accumulator.Offsets.{partition_of, offset_of}
use fps_anticheat_data_platf.Streamer.Consumer.{BorrowedMessage, classify, recv_outcome}

abbrev pub Parses :
    (List ℕ → Result String AnyEnvelope) → ℕ → Option (List ℕ) → AnyEnvelope → Type 0
Parses from_json limit none e = ⊥
Parses from_json limit (some bytes) e = (length bytes ≤ limit) × (from_json bytes ≡ ok e)

-- how an outcome fits the message's payload
abbrev pub Fits :
    (List ℕ → Result String AnyEnvelope) → ℕ → Option (List ℕ) → ConsumeOutcome → Type 0
Fits from_json limit payload (valid m) = Parses from_json limit payload m.envelope
Fits from_json limit none (invalid m) = m.raw_payload ≡ []
Fits from_json limit (some bytes) (invalid m) =
    (m.raw_payload ≡ take limit bytes)
    × (length m.raw_payload ≤ limit)
    × ((limit < length bytes) ⊎ ((e : String) × (from_json bytes ≡ err e)))

take_all : (n : ℕ) (xs : List ℕ) → length xs ≤ n → take n xs ≡ xs
take_all zero [] h = refl
take_all zero (x ∷ xs) h = absurd (omega arith)
take_all (suc n) [] h = refl
take_all (suc n) (x ∷ xs) h = cc (take_all n xs (omega arith))

classify-Fits :
    (from_utf8 : List ℕ → Option String) (from_json : List ℕ → Result String AnyEnvelope)
    (limit : ℕ) (m : BorrowedMessage) (p : Option (List ℕ))
    → Fits from_json limit p (classify from_utf8 from_json limit m p)
unfolding classify
classify-Fits from_utf8 from_json limit m none = refl
classify-Fits from_utf8 from_json limit m (some bytes) =
    elim (Bool-cases (leb (length bytes) limit)) [
      | inl e ↦ elim (Result-cases (from_json bytes)) [
        | inl (x, k) ↦ rw (e, k) (ground (arith, e), k)
        | inr (x, k) ↦ ground (arith, e, k, take_all (length bytes) bytes, take_all limit bytes)
      ]
      | inr e ↦ ground (arith, e, length-take limit bytes)
    ]

classify_place :
    (from_utf8 : List ℕ → Option String) (from_json : List ℕ → Result String AnyEnvelope)
    (limit : ℕ) (m : BorrowedMessage) (p : Option (List ℕ))
    → (partition_of (classify from_utf8 from_json limit m p) ≡ m.partition)
      × (offset_of (classify from_utf8 from_json limit m p) ≡ m.offset)
unfolding classify
classify_place from_utf8 from_json limit m none = (refl, refl)
classify_place from_utf8 from_json limit m (some bytes) = ground arith

abbrev pub Received :
    (List ℕ → Result String AnyEnvelope)
    → ℕ
    → Result String BorrowedMessage
    → Result AppError ConsumeOutcome
    → Type 0
Received from_json limit (ok m) (ok x) =
    (partition_of x ≡ m.partition) × (offset_of x ≡ m.offset) × Fits from_json limit m.payload x
Received from_json limit (err e) (err (kafka reason)) = Unit
Received from_json limit _ _ = ⊥

-- Every delivered message becomes one outcome with its partition and offset. It is valid exactly
-- with a payload within the limit that parses, and then carries that envelope; otherwise it keeps
-- the payload, cut to the limit, and the payload was over the limit or does not parse. An error of
-- the consumer is a Kafka error.
pub recv_outcome_lem :
    (from_utf8 : List ℕ → Option String) (from_json : List ℕ → Result String AnyEnvelope)
    (limit : ℕ) (r : Result String BorrowedMessage)
    → Received from_json limit r (recv_outcome from_utf8 from_json limit r)
unfolding recv_outcome
recv_outcome_lem from_utf8 from_json limit (ok m) = (
  (classify_place from_utf8 from_json limit m m.payload).0,
  (classify_place from_utf8 from_json limit m m.payload).1,
  classify-Fits from_utf8 from_json limit m m.payload,
)
recv_outcome_lem from_utf8 from_json limit (err e) = tt
