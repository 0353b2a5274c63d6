-- ===== src/Streamer/Validator/Rules.antt =====
-- What an accepted event satisfies: `validate_any` against a description by plain predicates.
use Prim.Native.String.{len}
use fps_anticheat_data_platf.Prelude.{
  ◌≡◌, ◌↔◌, ◌⊎◌, inl, inr, refl, ◌≤◌, Bool, true, false, not, ◌&&◌, ◌||◌, String, Option, none,
  some, List, [], ◌∷◌, ◌++◌, is_empty, ltb, ◌==◌, is_some_and, str_eq, str_eq_iff, arith,
  Bool-cases,
}
use fps_anticheat_data_platf.Prelude.Int.{ℤ, pos, leb_ℤ, ◌≤ℤ◌}
use fps_anticheat_data_platf.Prelude.Float.{Float, is_finite, lt, le, nought}
use fps_anticheat_data_platf.Prelude.Text.{is_blank, concat, trim, all_hex}
use fps_anticheat_data_platf.Prelude.Result.{ok}
use fps_anticheat_data_platf.Streamer.Domain.{
  AnyEnvelope, kill, player_stat, event_id, match_id, player_id, EventEnvelope, KillEventEnvelope,
}
use fps_anticheat_data_platf.Streamer.Validator.{
  push_if, validate_event_id, validate_identifier, validate_common_times, validate_player_stat,
  validate_kill_event, validate_payload, reasons_of, validate_any,
}

abbrev IsClean : List String → Type 0
IsClean reasons = is_empty reasons ≡ true

-- 64 hexadecimal digits, blanks around them left out
pub record IsEventId (raw : String) : Type 0 where
  pub size : len (trim raw) ≡ 64
  pub hex : all_hex (trim raw) ≡ true

-- not blank, and at most 256 bytes, blanks around them left out
pub record IsIdentifier (raw : String) : Type 0 where
  pub present : is_blank (trim raw) ≡ false
  pub short : len (trim raw) ≤ 256

pub record IsTimely (rfc3339 : String → Bool) (schema_version ingest_time : String)
    (event_time : Option String) : Type 0 where
  pub version : schema_version ≡ "1.0"
  pub ingest : rfc3339 ingest_time ≡ true
  pub event : is_some_and event_time (λ t. not (rfc3339 t)) ≡ false

abbrev pub IsMeasure : Float → Type 0
IsMeasure x = (is_finite x ≡ true) × (le nought x ≡ true)

abbrev pub IsShare : Float → Option Float → Type 0
IsShare one none = Unit
IsShare one (some x) = (is_finite x ≡ true) × (le nought x ≡ true) × (le x one ≡ true)

abbrev pub IsFinite : Option Float → Type 0
IsFinite none = Unit
IsFinite (some x) = is_finite x ≡ true

abbrev pub IsPlacement : Option ℤ → Type 0
IsPlacement none = Unit
IsPlacement (some p) = pos 1 ≤ℤ p

pub record IsPlayerStat (rfc3339 : String → Bool) (one : Float) (e : EventEnvelope) : Type 0 where
  pub timely : IsTimely rfc3339 e.schema_version e.ingest_time e.event_time
  pub op : (e.op ≡ "data.player_stat.match_summary") ⊎ (e.op ≡ "data.kill_event.kill_death")
  pub kills : pos 0 ≤ℤ e.payload.kills
  pub headshots : pos 0 ≤ℤ e.payload.headshot_kills
  pub headshots_le : e.payload.headshot_kills ≤ℤ e.payload.kills
  pub damage : IsMeasure e.payload.damage_dealt
  pub walk : IsMeasure e.payload.walk_distance
  pub ride : IsMeasure e.payload.ride_distance
  pub swim : IsMeasure e.payload.swim_distance
  pub survival : IsMeasure e.payload.survival_duration
  pub place : IsShare one e.payload.win_place_perc

pub record IsKillEvent (rfc3339 : String → Bool) (e : KillEventEnvelope) : Type 0 where
  pub timely : IsTimely rfc3339 e.schema_version e.ingest_time e.event_time
  pub op : e.op ≡ "data.kill_event.raw"
  pub same_match : e.payload.match_id ≡ e.match_id
  pub killer : IsPlacement e.payload.killer_placement
  pub victim : IsPlacement e.payload.victim_placement
  pub killer_x : IsFinite e.payload.killer_position_x
  pub killer_y : IsFinite e.payload.killer_position_y
  pub victim_x : IsFinite e.payload.victim_position_x
  pub victim_y : IsFinite e.payload.victim_position_y
  pub seconds : IsFinite e.payload.event_time_seconds
  pub seconds_nonneg : is_some_and e.payload.event_time_seconds (λ s. lt s nought) ≡ false

abbrev pub IsPayload : (String → Bool) → Float → AnyEnvelope → Type 0
IsPayload rfc3339 one (player_stat e) = IsPlayerStat rfc3339 one e
IsPayload rfc3339 one (kill e) = IsKillEvent rfc3339 e

pub record IsAcceptable (rfc3339 : String → Bool) (one : Float) (e : AnyEnvelope) : Type 0 where
  pub event_id : IsEventId (event_id e)
  pub match_id : IsIdentifier (match_id e)
  pub player_id : IsIdentifier (player_id e)
  pub payload : IsPayload rfc3339 one e

push_if-IsClean :
    (b : Bool) (r : String) (rs : List String)
    → IsClean (push_if b r rs) ↔ (IsClean rs × (b ≡ false))
unfolding push_if
push_if-IsClean true r [] = ground arith
push_if-IsClean true r (x ∷ xs) = ground arith
push_if-IsClean false r rs = ground arith

not_clean-snoc : (rs : List String) (r : String) → is_empty (rs ++ r ∷ []) ≡ false
not_clean-snoc [] r = refl
not_clean-snoc (x ∷ xs) r = refl

blank_len : (s : String) → is_blank s ≡ true → len s ≡ 0
blank_len String.[] h = refl
blank_len (String.◌∷◌ c s) h = cc

event_id-IsClean :
    (raw : String) (rs : List String)
    → IsClean (validate_event_id raw rs) ↔ (IsClean rs × IsEventId raw)
unfolding validate_event_id
event_id-IsClean raw rs = ground (
  arith,
  blank_len (trim raw),
  not_clean-snoc rs "event_id không được để trống",
  push_if-IsClean (not (len (trim raw) == 64) || not (all_hex (trim raw)))
      (concat ("event_id '" ∷ trim raw ∷ "' không đúng định dạng 64 ký tự SHA-256 Hex" ∷ [])) rs,
)

identifier-IsClean :
    (field raw : String) (rs : List String)
    → IsClean (validate_identifier field raw rs) ↔ (IsClean rs × IsIdentifier raw)
unfolding validate_identifier
identifier-IsClean field raw rs = ground (
  arith,
  not_clean-snoc rs (concat (field ∷ " không được để trống" ∷ [])),
  push_if-IsClean (ltb 256 (len (trim raw))) (concat (field ∷ " vượt quá giới hạn 256 byte" ∷ []))
      rs,
)

IsMeasure-iff : (x : Float) → ((not (is_finite x) || lt x nought) ≡ false) ↔ IsMeasure x
IsMeasure-iff x = ground arith

IsShare-iff :
    (one : Float) (o : Option Float)
    → (is_some_and o (λ x. not (is_finite x) || not (le nought x && le x one)) ≡ false)
      ↔ IsShare one o
IsShare-iff one none = ground arith
IsShare-iff one (some x) = ground arith

IsFinite-iff : (o : Option Float) → (is_some_and o (λ x. not (is_finite x)) ≡ false) ↔ IsFinite o
IsFinite-iff none = ground arith
IsFinite-iff (some x) = ground arith

IsPlacement-iff : (o : Option ℤ) → (is_some_and o (λ p. leb_ℤ p (pos 0)) ≡ false) ↔ IsPlacement o
IsPlacement-iff none = ground arith
IsPlacement-iff (some p) = ground arith

stat_op_iff :
    (s : String)
    → (not (str_eq s "data.player_stat.match_summary" || str_eq s "data.kill_event.kill_death")
        ≡ false)
      ↔ ((s ≡ "data.player_stat.match_summary") ⊎ (s ≡ "data.kill_event.kill_death"))
stat_op_iff s = ground (
  arith,
  str_eq_iff s "data.player_stat.match_summary",
  str_eq_iff s "data.kill_event.kill_death",
)

same_text_iff : (s t : String) → (not (str_eq s t) ≡ false) ↔ (s ≡ t)
same_text_iff s t = ground (arith, str_eq_iff s t)

module _ (rfc3339 : String → Bool) where
  common_times-IsClean :
      (v i : String) (e : Option String) (rs : List String)
      → IsClean (validate_common_times rfc3339 v i e rs) ↔ (IsClean rs × IsTimely rfc3339 v i e)
  unfolding validate_common_times
  common_times-IsClean v i e rs = simp push_if-IsClean (ground (arith, str_eq_iff v "1.0"))

  IsPlayerStat-IsClean :
      (one : Float) (e : EventEnvelope) (rs : List String)
      → IsClean (validate_player_stat rfc3339 one e rs) ↔ (IsClean rs × IsPlayerStat rfc3339 one e)
  unfolding validate_player_stat
  IsPlayerStat-IsClean one e rs =
      simp (push_if-IsClean, IsMeasure-iff, IsShare-iff)
        (ground (arith, stat_op_iff e.op, same_text_iff e.schema_version "1.0"))

  IsKillEvent-IsClean :
      (e : KillEventEnvelope) (rs : List String)
      → IsClean (validate_kill_event rfc3339 e rs) ↔ (IsClean rs × IsKillEvent rfc3339 e)
  unfolding validate_kill_event
  IsKillEvent-IsClean e rs =
      simp (push_if-IsClean, IsFinite-iff, IsPlacement-iff, same_text_iff) (ground arith)

  IsPayload-IsClean :
      (one : Float) (e : AnyEnvelope) (rs : List String)
      → IsClean (validate_payload rfc3339 one e rs) ↔ (IsClean rs × IsPayload rfc3339 one e)
  unfolding validate_payload
  IsPayload-IsClean one (kill e) rs = IsKillEvent-IsClean e rs
  IsPayload-IsClean one (player_stat e) rs = IsPlayerStat-IsClean one e rs

  reasons_of-IsClean :
      (one : Float) (e : AnyEnvelope)
      → IsClean (reasons_of rfc3339 one e) ↔ IsAcceptable rfc3339 one e
  unfolding reasons_of
  reasons_of-IsClean one e =
      simp (IsPayload-IsClean, identifier-IsClean, event_id-IsClean) (ground arith)

  -- An event is accepted exactly when its identifiers, its times, its operation and every figure
  -- of its payload satisfy the rules, for player statistics and for kill events alike.
  pub validate_any-ok_iff :
      (one : Float) (e : AnyEnvelope)
      → (validate_any rfc3339 one e ≡ ok tt) ↔ IsAcceptable rfc3339 one e
  unfolding validate_any
  validate_any-ok_iff one e =
      let clean = reasons_of-IsClean one e in
      elim (Bool-cases (is_empty (reasons_of rfc3339 one e))) [
        | inl h ↦ rw h ((λ _. clean.0 h), (λ _. refl))
        | inr h ↦ rw h ((λ k. cc k), (λ k. cc (clean.1 k)))
      ]
