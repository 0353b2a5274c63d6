-- ===== src/Streamer/Examples.antt =====
-- Data for the examples: two events, their messages, and services that answer every call.
pub mod Buffer
pub mod Rules
pub mod Application
pub mod Projection
pub mod Working
pub mod Serving
pub mod Starting
pub mod Progressing
pub mod Letters
use fps_anticheat_data_platf.Prelude.{
  ℕ, Bool, true, false, String, Option, none, some, List, [], ◌∷◌,
}
use fps_anticheat_data_platf.Prelude.Int.{ℤ, pos}
use fps_anticheat_data_platf.Prelude.Float.{Float, fin, nought, Arithmetic}
use fps_anticheat_data_platf.Prelude.Result.{Result, ok, err}
use fps_anticheat_data_platf.Streamer.Domain.{
  SourceMetadata, PlayerStatPayload, EventEnvelope, AnyEnvelope, player_stat, ConsumedMessage,
  InvalidKafkaMessage, ConsumeOutcome, valid, invalid,
}
use fps_anticheat_data_platf.Streamer.Accumulator.{CompletedBatch}
use fps_anticheat_data_platf.Streamer.Breaker.{ResourceCircuitBreaker, closed}
use fps_anticheat_data_platf.Streamer.Storage.{BatchManifest, Date}
use fps_anticheat_data_platf.Streamer.Producer.{
  UploadedArtifact, NativeWorkerResult, KafkaEventProducer, GoldReadyEvent,
}
use fps_anticheat_data_platf.Streamer.Action.{AppError, arrow, World}
use fps_anticheat_data_platf.Streamer.App.{Services}

abbrev pub first_id : String
first_id = "0123456789abcdef0123456789abcdef0123456789abcdef0123456789ABCDEF"

abbrev pub source : SourceMetadata
source = record {
  provider = "kaggle";
  dataset_id = "pubg";
  source_file = "agg.csv";
  record_index = pos 4;
}

abbrev pub stats : ℤ → PlayerStatPayload
stats kills = record {
  kills = kills;
  damage_dealt = fin (pos 120);
  headshot_kills = pos 1;
  walk_distance = fin (pos 900);
  ride_distance = nought;
  swim_distance = nought;
  survival_duration = fin (pos 600);
  win_place_perc = some (fin (pos 1));
}

abbrev pub event_with : String → ℤ → AnyEnvelope
event_with id kills = player_stat (record {
  schema_version = "1.0";
  event_id = id;
  op = "data.player_stat.match_summary";
  event_time = none;
  ingest_time = "2026-01-02T03:04:05Z";
  match_id = "m1";
  player_id = "p1";
  source = source;
  payload = stats kills;
})

abbrev pub good : AnyEnvelope
good = event_with first_id (pos 3)

-- more headshots than kills
abbrev pub bad : AnyEnvelope
bad = event_with "ab" (pos 0)

abbrev pub message : AnyEnvelope → ℤ → ℤ → ConsumedMessage
message e partition offset = record {
  envelope = e;
  topic = "raw";
  partition = partition;
  offset = offset;
  key = none;
}

abbrev pub broken : ℤ → ℤ → InvalidKafkaMessage
broken partition offset = record {
  topic = "raw";
  partition = partition;
  offset = offset;
  raw_payload = 123 ∷ [];
  error_reason = "Malformed JSON: EOF";
}

abbrev pub anything : List ℕ → String
anything bytes = "00"

-- arithmetic in which every result is nought
abbrev pub f32 : Arithmetic
f32 = record {
  literal = λ d p. fin (pos d);
  of_nat = λ n. fin (pos n);
  add = λ a b. nought;
  powi = λ a n. a;
  sqrt = λ a. a;
  sub = λ a b. nought;
  mul = λ a b. nought;
  div = λ a b. nought;
  round = λ a. a;
  parse = λ s. none;
  show = λ p a. "0";
}

abbrev pub watched : ResourceCircuitBreaker
watched = record {
  state = closed;
  high_cpu_watermark = fin (pos 800);
  low_cpu_watermark = fin (pos 750);
  high_mem_watermark = fin (pos 850);
  low_mem_watermark = fin (pos 800);
  prev_idle = 0;
  prev_total = 0;
}

abbrev pub gold : UploadedArtifact
gold = record {
  object_key = "gold/a.parquet";
  checksum_sha256 = "00";
  layer = "gold/player-match-features";
}

abbrev pub silver : UploadedArtifact
silver = record {
  object_key = "silver/a.parquet";
  checksum_sha256 = "00";
  layer = "silver/player-match";
}

abbrev pub result_of : String → NativeWorkerResult
result_of key = record { manifest_key = key; artifacts = silver ∷ gold ∷ [] }

abbrev pub gold_producer : KafkaEventProducer
gold_producer = record { gold_ready_topic = "dataset.gold.ready"; bucket = "lake" }

abbrev pub batch_of : List AnyEnvelope → List InvalidKafkaMessage → CompletedBatch
batch_of events malformed = record {
  batch_id = "b1";
  events = events;
  malformed_messages = malformed;
  partition_offsets = record { partition = pos 0; min_offset = pos 7; max_offset = pos 9 } ∷ [];
  record_count = 3;
  estimated_bytes = 900;
}

abbrev pub start : World
start = record { log = []; breaker = watched }
