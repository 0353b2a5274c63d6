-- ===== src/Streamer/Validator.antt =====
-- apps/rust-structured-streamer/src/transform/validator.rs: the data quality rules.
-- `&mut Vec<String>` is a list passed through. `rfc3339` says whether chrono parses a text as
-- RFC 3339, and `one` is the `f64` literal 1.0.
pub mod Rules
pub mod Partition
use Prim.Native.String.{len}
use fps_anticheat_data_platf.Prelude.{
  ℕ, ◌≡◌, Bool, true, false, not, ◌&&◌, ◌||◌, String, Option, none, some, List, [], ◌∷◌, ◌++◌,
  length, is_empty, ltb, leb, ◌==◌, is_some_and, if◌then◌else◌, str_eq,
}
use fps_anticheat_data_platf.Prelude.Int.{ℤ, pos, ltb_ℤ, leb_ℤ}
use fps_anticheat_data_platf.Prelude.Float.{Float, is_finite, lt, le, nought}
use fps_anticheat_data_platf.Prelude.Text.{is_blank, concat, trim, all_hex}
use fps_anticheat_data_platf.Prelude.Result.{Result, ok, err}
use fps_anticheat_data_platf.Streamer.Domain.{
  AnyEnvelope, kill, player_stat, event_id, match_id, player_id, EventEnvelope, KillEventEnvelope,
  PlayerStatPayload, KillEventPayload,
}

pub record InvalidEnvelopeRecord : Type 0 where
  pub event_id : String
  pub match_id : String
  pub player_id : String
  pub reasons : List String

pub record ValidationOutcome : Type 0 where
  pub valid_records : List AnyEnvelope
  pub invalid_records : List InvalidEnvelopeRecord
  pub valid_count : ℕ
  pub invalid_count : ℕ

-- `if broken { reasons.push(reason) }`
unfoldable pub push_if : Bool → String → List String → List String
push_if broken reason reasons = if broken then reasons ++ reason ∷ [] else reasons

unfoldable pub validate_event_id : String → List String → List String
unfolding push_if all_hex trim
validate_event_id raw reasons =
    let id = trim raw in
    if is_blank id
    then reasons ++ "event_id không được để trống" ∷ []
    else push_if (not (len id == 64) || not (all_hex id))
        (concat ("event_id '" ∷ id ∷ "' không đúng định dạng 64 ký tự SHA-256 Hex" ∷ [])) reasons

unfoldable pub validate_identifier : String → String → List String → List String
unfolding push_if trim
validate_identifier field raw reasons =
    let value = trim raw in
    if is_blank value
    then reasons ++ concat (field ∷ " không được để trống" ∷ []) ∷ []
    else push_if (ltb 256 (len value)) (concat (field ∷ " vượt quá giới hạn 256 byte" ∷ [])) reasons

-- the loop over `(field, value)` pairs: one reason for each value that `broken` refuses
unfoldable pub check_each {ℓ} :
    {A : Type ℓ} → (A → Bool) → String → List (String × A) → List String → List String
unfolding push_if
check_each broken message [] reasons = reasons
check_each broken message ((field, value) ∷ rest) reasons =
    check_each broken message rest (push_if (broken value) (concat (field ∷ message ∷ [])) reasons)

abbrev pub invalid_record : AnyEnvelope → List String → InvalidEnvelopeRecord
invalid_record event reasons = record {
  event_id = event_id event;
  match_id = match_id event;
  player_id = player_id event;
  reasons = reasons;
}

-- the loop of `validate_batch`, with the two vectors that it fills
abbrev pub sort_event :
    AnyEnvelope
    → Result (List String) (Unit {0})
    → List AnyEnvelope × List InvalidEnvelopeRecord
    → List AnyEnvelope × List InvalidEnvelopeRecord
sort_event event (ok _) (valid_records, invalid_records) =
    (valid_records ++ event ∷ [], invalid_records)
sort_event event (err reasons) (valid_records, invalid_records) =
    (valid_records, invalid_records ++ invalid_record event reasons ∷ [])

module _ (rfc3339 : String → Bool) where
  unfoldable pub validate_common_times : String → String → Option String → List String → List String
  unfolding push_if
  validate_common_times schema_version ingest_time event_time reasons =
      push_if (is_some_and event_time (λ value. not (rfc3339 value)))
        "event_time phải là RFC3339 hợp lệ"
        (push_if (not (rfc3339 ingest_time)) "ingest_time phải là RFC3339 hợp lệ" (
          push_if (not (str_eq schema_version "1.0"))
            (concat ("schema_version '" ∷ schema_version ∷ "' không được hỗ trợ" ∷ [])) reasons))

  unfoldable pub validate_player_stat : Float → EventEnvelope → List String → List String
  unfolding push_if validate_common_times check_each
  validate_player_stat one event reasons =
      let payload = event.payload in
      let timed =
        validate_common_times event.schema_version event.ingest_time event.event_time reasons in
      let named =
        push_if
          (not (
            str_eq event.op "data.player_stat.match_summary"
            || str_eq event.op "data.kill_event.kill_death"))
          (concat ("op '" ∷ event.op ∷ "' không hợp lệ cho player-stat envelope" ∷ [])) timed in
      let counted =
        push_if (ltb_ℤ payload.kills payload.headshot_kills)
          "headshot_kills không được lớn hơn kills"
          (push_if (ltb_ℤ payload.headshot_kills (pos 0)) "headshot_kills không được âm"
            (push_if (ltb_ℤ payload.kills (pos 0)) "kills không được âm" named)) in
      let measured =
        check_each (λ value. not (is_finite value) || lt value nought)
          " phải là số hữu hạn không âm"
          (("damage_dealt", payload.damage_dealt)
            ∷ ("walk_distance", payload.walk_distance)
            ∷ ("ride_distance", payload.ride_distance)
            ∷ ("swim_distance", payload.swim_distance)
            ∷ ("survival_duration", payload.survival_duration)
            ∷ [])
          counted in
      push_if
        (is_some_and payload.win_place_perc
          (λ value. not (is_finite value) || not (le nought value && le value one)))
        "win_place_perc phải nằm trong [0.0, 1.0]" measured

  unfoldable pub validate_kill_event : KillEventEnvelope → List String → List String
  unfolding push_if validate_common_times check_each
  validate_kill_event event reasons =
      let payload = event.payload in
      let timed =
        validate_common_times event.schema_version event.ingest_time event.event_time reasons in
      let named =
        push_if (not (str_eq event.op "data.kill_event.raw"))
          (concat ("op '" ∷ event.op ∷ "' không hợp lệ cho kill-event envelope" ∷ [])) timed in
      let matched =
        push_if (not (str_eq payload.match_id event.match_id))
          "payload.match_id phải trùng envelope.match_id" named in
      let placed =
        check_each (λ value. is_some_and value (λ placement. leb_ℤ placement (pos 0)))
          " phải lớn hơn 0 khi có giá trị"
          (("killer_placement", payload.killer_placement)
            ∷ ("victim_placement", payload.victim_placement)
            ∷ [])
          matched in
      let measured =
        check_each (λ value. is_some_and value (λ metric. not (is_finite metric)))
          " phải là số hữu hạn"
          (("killer_position_x", payload.killer_position_x)
            ∷ ("killer_position_y", payload.killer_position_y)
            ∷ ("victim_position_x", payload.victim_position_x)
            ∷ ("victim_position_y", payload.victim_position_y)
            ∷ ("event_time_seconds", payload.event_time_seconds)
            ∷ [])
          placed in
      push_if (is_some_and payload.event_time_seconds (λ seconds. lt seconds nought))
        "event_time_seconds không được âm" measured

  unfoldable pub validate_payload : Float → AnyEnvelope → List String → List String
  unfolding validate_player_stat validate_kill_event
  validate_payload one (player_stat envelope) reasons = validate_player_stat one envelope reasons
  validate_payload one (kill envelope) reasons = validate_kill_event envelope reasons

  unfoldable pub reasons_of : Float → AnyEnvelope → List String
  unfolding validate_event_id validate_identifier validate_payload
  reasons_of one event = validate_payload one event (
      validate_identifier "player_id" (player_id event)
        (validate_identifier "match_id" (match_id event) (validate_event_id (event_id event) [])))

  unfoldable pub validate_any : Float → AnyEnvelope → Result (List String) (Unit {0})
  unfolding reasons_of
  validate_any one event =
      let reasons = reasons_of one event in if is_empty reasons then ok tt else err reasons

  unfoldable pub validate_each :
      Float
      → List AnyEnvelope
      → List AnyEnvelope × List InvalidEnvelopeRecord
      → List AnyEnvelope × List InvalidEnvelopeRecord
  validate_each one [] found = found
  validate_each one (event ∷ events) found =
      validate_each one events (sort_event event (validate_any one event) found)

  unfoldable pub validate_batch : Float → List AnyEnvelope → ValidationOutcome
  unfolding validate_each
  validate_batch one events =
      let found = validate_each one events ([], []) in
      record {
        valid_records = found.0;
        invalid_records = found.1;
        valid_count = length found.0;
        invalid_count = length found.1;
      }
