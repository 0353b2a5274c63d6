-- ===== src/Streamer/Bronze.antt =====
-- apps/rust-structured-streamer/src/transform/arrow.rs: the Bronze table of a list of events. The
-- vectors that the loop fills are written as functions of the event, a column each.
use fps_anticheat_data_platf.Prelude.{
  Bool, true, false, String, Option, none, some, List, [], ◌∷◌, map,
}
use fps_anticheat_data_platf.Prelude.Int.{ℤ}
use fps_anticheat_data_platf.Prelude.Float.{Float}
use fps_anticheat_data_platf.Prelude.Text.{concat}
use fps_anticheat_data_platf.Prelude.Result.{Result, ok, err}
use fps_anticheat_data_platf.Streamer.Domain.{
  AnyEnvelope, kill, player_stat, event_id, match_id, player_id, source,
}
use fps_anticheat_data_platf.Streamer.Columns.{
  Column, text, int, float, DataType, utf8, int64, float64, Field, Schema, Arrow,
}
use fps_anticheat_data_platf.Streamer.Action.{AppError, arrow}

abbrev pub field : String → DataType → Bool → Field
field name data_type nullable = record { name = name; data_type = data_type; nullable = nullable }

abbrev pub build_schema : Schema
build_schema =
    field "event_id" utf8 false
    ∷ field "schema_version" utf8 false
    ∷ field "op" utf8 false
    ∷ field "event_time" utf8 true
    ∷ field "ingest_time" utf8 false
    ∷ field "match_id" utf8 false
    ∷ field "player_id" utf8 false
    ∷ field "source_provider" utf8 false
    ∷ field "source_dataset_id" utf8 false
    ∷ field "source_file" utf8 false
    ∷ field "source_record_index" int64 false
    ∷ field "killer_name" utf8 true
    ∷ field "victim_name" utf8 true
    ∷ field "killer_placement" int64 true
    ∷ field "victim_placement" int64 true
    ∷ field "killer_position_x" float64 true
    ∷ field "killer_position_y" float64 true
    ∷ field "victim_position_x" float64 true
    ∷ field "victim_position_y" float64 true
    ∷ field "event_time_seconds" float64 true
    ∷ field "weapon" utf8 true
    ∷ field "kills" int64 true
    ∷ field "damage_dealt" float64 true
    ∷ field "headshot_kills" int64 true
    ∷ field "walk_distance" float64 true
    ∷ field "ride_distance" float64 true
    ∷ field "swim_distance" float64 true
    ∷ field "survival_duration" float64 true
    ∷ field "win_place_perc" float64 true
    ∷ []

abbrev pub schema_version_of : AnyEnvelope → String
schema_version_of (kill k) = k.schema_version
schema_version_of (player_stat p) = p.schema_version

abbrev pub op_of : AnyEnvelope → String
op_of (kill k) = k.op
op_of (player_stat p) = p.op

abbrev pub event_time_of : AnyEnvelope → Option String
event_time_of (kill k) = k.event_time
event_time_of (player_stat p) = p.event_time

abbrev pub ingest_time_of : AnyEnvelope → String
ingest_time_of (kill k) = k.ingest_time
ingest_time_of (player_stat p) = p.ingest_time

abbrev pub killer_name_of : AnyEnvelope → Option String
killer_name_of (kill k) = k.payload.killer_name
killer_name_of (player_stat p) = some p.player_id

abbrev pub victim_name_of : AnyEnvelope → Option String
victim_name_of (kill k) = k.payload.victim_name
victim_name_of (player_stat p) = none

abbrev pub killer_placement_of : AnyEnvelope → Option ℤ
killer_placement_of (kill k) = k.payload.killer_placement
killer_placement_of (player_stat p) = none

abbrev pub victim_placement_of : AnyEnvelope → Option ℤ
victim_placement_of (kill k) = k.payload.victim_placement
victim_placement_of (player_stat p) = none

abbrev pub killer_position_x_of : AnyEnvelope → Option Float
killer_position_x_of (kill k) = k.payload.killer_position_x
killer_position_x_of (player_stat p) = none

abbrev pub killer_position_y_of : AnyEnvelope → Option Float
killer_position_y_of (kill k) = k.payload.killer_position_y
killer_position_y_of (player_stat p) = none

abbrev pub victim_position_x_of : AnyEnvelope → Option Float
victim_position_x_of (kill k) = k.payload.victim_position_x
victim_position_x_of (player_stat p) = none

abbrev pub victim_position_y_of : AnyEnvelope → Option Float
victim_position_y_of (kill k) = k.payload.victim_position_y
victim_position_y_of (player_stat p) = none

abbrev pub event_time_seconds_of : AnyEnvelope → Option Float
event_time_seconds_of (kill k) = k.payload.event_time_seconds
event_time_seconds_of (player_stat p) = none

abbrev pub weapon_of : AnyEnvelope → Option String
weapon_of (kill k) = k.payload.weapon
weapon_of (player_stat p) = none

abbrev pub kills_of : AnyEnvelope → Option ℤ
kills_of (kill k) = none
kills_of (player_stat p) = some p.payload.kills

abbrev pub damage_dealt_of : AnyEnvelope → Option Float
damage_dealt_of (kill k) = none
damage_dealt_of (player_stat p) = some p.payload.damage_dealt

abbrev pub headshot_kills_of : AnyEnvelope → Option ℤ
headshot_kills_of (kill k) = none
headshot_kills_of (player_stat p) = some p.payload.headshot_kills

abbrev pub walk_distance_of : AnyEnvelope → Option Float
walk_distance_of (kill k) = none
walk_distance_of (player_stat p) = some p.payload.walk_distance

abbrev pub ride_distance_of : AnyEnvelope → Option Float
ride_distance_of (kill k) = none
ride_distance_of (player_stat p) = some p.payload.ride_distance

abbrev pub swim_distance_of : AnyEnvelope → Option Float
swim_distance_of (kill k) = none
swim_distance_of (player_stat p) = some p.payload.swim_distance

abbrev pub survival_duration_of : AnyEnvelope → Option Float
survival_duration_of (kill k) = none
survival_duration_of (player_stat p) = some p.payload.survival_duration

abbrev pub win_place_perc_of : AnyEnvelope → Option Float
win_place_perc_of (kill k) = none
win_place_perc_of (player_stat p) = p.payload.win_place_perc

-- the vectors, in the order of the schema
unfoldable pub bronze_columns : List AnyEnvelope → List Column
bronze_columns events =
    text (map (λ e. some (event_id e)) events)
    ∷ text (map (λ e. some (schema_version_of e)) events)
    ∷ text (map (λ e. some (op_of e)) events)
    ∷ text (map event_time_of events)
    ∷ text (map (λ e. some (ingest_time_of e)) events)
    ∷ text (map (λ e. some (match_id e)) events)
    ∷ text (map (λ e. some (player_id e)) events)
    ∷ text (map (λ e. some (source e).provider) events)
    ∷ text (map (λ e. some (source e).dataset_id) events)
    ∷ text (map (λ e. some (source e).source_file) events)
    ∷ int (map (λ e. some (source e).record_index) events)
    ∷ text (map killer_name_of events)
    ∷ text (map victim_name_of events)
    ∷ int (map killer_placement_of events)
    ∷ int (map victim_placement_of events)
    ∷ float (map killer_position_x_of events)
    ∷ float (map killer_position_y_of events)
    ∷ float (map victim_position_x_of events)
    ∷ float (map victim_position_y_of events)
    ∷ float (map event_time_seconds_of events)
    ∷ text (map weapon_of events)
    ∷ int (map kills_of events)
    ∷ float (map damage_dealt_of events)
    ∷ int (map headshot_kills_of events)
    ∷ float (map walk_distance_of events)
    ∷ float (map ride_distance_of events)
    ∷ float (map swim_distance_of events)
    ∷ float (map survival_duration_of events)
    ∷ float (map win_place_perc_of events)
    ∷ []

abbrev pub arrow_or {ℓ} : {B : Type ℓ} → String → Result String B → Result AppError B
arrow_or what (ok b) = ok b
arrow_or what (err e) = err (arrow (concat (what ∷ e ∷ [])))

module _ {B : Type 0} (lib : Arrow B) where
  unfoldable pub events_to_record_batch : List AnyEnvelope → Result AppError B
  unfolding bronze_columns
  events_to_record_batch events =
      arrow_or "Khởi tạo Arrow RecordBatch thất bại: "
        (lib.try_new build_schema (bronze_columns events))
