-- ===== src/Streamer/Domain.antt =====
-- apps/rust-structured-streamer/src/domain/event.rs, and the message types of ingest/consumer.rs.
-- `i32` and `i64` fields are integers of unlimited size here; no code of the modelled parts
-- computes with them except where a wrap is written out.
use fps_anticheat_data_platf.Prelude.{ℕ, String, Option, List}
use fps_anticheat_data_platf.Prelude.Int.{ℤ}
use fps_anticheat_data_platf.Prelude.Float.{Float}

pub record SourceMetadata : Type 0 where
  pub provider : String
  pub dataset_id : String
  pub source_file : String
  pub record_index : ℤ

pub record KillEventPayload : Type 0 where
  pub match_id : String
  pub killer_name : Option String
  pub victim_name : Option String
  pub killer_placement : Option ℤ
  pub victim_placement : Option ℤ
  pub killer_position_x : Option Float
  pub killer_position_y : Option Float
  pub victim_position_x : Option Float
  pub victim_position_y : Option Float
  pub event_time_seconds : Option Float
  pub weapon : Option String

pub record KillEventEnvelope : Type 0 where
  pub schema_version : String
  pub event_id : String
  pub op : String
  pub event_time : Option String
  pub ingest_time : String
  pub match_id : String
  pub player_id : String
  pub source : SourceMetadata
  pub payload : KillEventPayload

pub record PlayerStatPayload : Type 0 where
  pub kills : ℤ
  pub damage_dealt : Float
  pub headshot_kills : ℤ
  pub walk_distance : Float
  pub ride_distance : Float
  pub swim_distance : Float
  pub survival_duration : Float
  pub win_place_perc : Option Float

pub record EventEnvelope : Type 0 where
  pub schema_version : String
  pub event_id : String
  pub op : String
  pub event_time : Option String
  pub ingest_time : String
  pub match_id : String
  pub player_id : String
  pub source : SourceMetadata
  pub payload : PlayerStatPayload

pub data AnyEnvelope : Type 0 where
  kill : KillEventEnvelope → AnyEnvelope
  player_stat : EventEnvelope → AnyEnvelope

abbrev pub event_id : AnyEnvelope → String
event_id (kill e) = e.event_id
event_id (player_stat e) = e.event_id

abbrev pub match_id : AnyEnvelope → String
match_id (kill e) = e.match_id
match_id (player_stat e) = e.match_id

abbrev pub player_id : AnyEnvelope → String
player_id (kill e) = e.player_id
player_id (player_stat e) = e.player_id

abbrev pub source : AnyEnvelope → SourceMetadata
source (kill e) = e.source
source (player_stat e) = e.source

pub record ConsumedMessage : Type 0 where
  pub envelope : AnyEnvelope
  pub topic : String
  pub partition : ℤ
  pub offset : ℤ
  pub key : Option String

-- `raw_payload` is a list of bytes
pub record InvalidKafkaMessage : Type 0 where
  pub topic : String
  pub partition : ℤ
  pub offset : ℤ
  pub raw_payload : List ℕ
  pub error_reason : String

pub data ConsumeOutcome : Type 0 where
  valid : ConsumedMessage → ConsumeOutcome
  invalid : InvalidKafkaMessage → ConsumeOutcome
