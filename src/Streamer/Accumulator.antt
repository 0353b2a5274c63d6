-- ===== src/Streamer/Accumulator.antt =====
-- apps/rust-structured-streamer/src/ingest/accumulator.rs: the buffer that gathers Kafka messages
-- into batches. A method that mutates `&mut self` returns the new record. The clock is a number of
-- milliseconds that the caller passes in (`Instant::now`), and Sha256 a function of the section.
-- A HashMap is an association list with one entry for each key, in no order that a caller may use.
pub mod Offsets
pub mod Batches
pub mod Stream
pub mod Bounds
pub mod Identity
use Prim.Native.String.{len}
use fps_anticheat_data_platf.Prelude.{
  ℕ, zero, suc, ◌+◌, ◌-◌, ◌%◌, ◌^◌, ◌||◌, ◌&&◌, Bool, String, Option, none, some, List, [], ◌∷◌,
  ◌++◌, length, is_empty, leb, ltb, ◌==◌, if◌then◌else◌,
}
use fps_anticheat_data_platf.Prelude.Int.{ℤ, ltb_ℤ, eqb_ℤ}
use fps_anticheat_data_platf.Prelude.Text.{concat, show_ℤ}
use fps_anticheat_data_platf.Streamer.Domain.{
  AnyEnvelope, event_id, match_id, player_id, ConsumedMessage, InvalidKafkaMessage, ConsumeOutcome,
  valid, invalid,
}

-- one entry of `partition_offsets`: partition ↦ (min, max)
pub record Span : Type 0 where
  pub partition : ℤ
  pub min_offset : ℤ
  pub max_offset : ℤ

abbrev pub PartitionOffsets : Type 0
PartitionOffsets = List Span

pub record CompletedBatch : Type 0 where
  pub batch_id : String
  pub events : List AnyEnvelope
  pub malformed_messages : List InvalidKafkaMessage
  pub partition_offsets : PartitionOffsets
  pub record_count : ℕ
  pub estimated_bytes : ℕ

pub record BatchAccumulatorConfig : Type 0 where
  pub max_records : ℕ
  pub max_bytes : ℕ
  pub flush_interval : ℕ

abbrev pub default_config : BatchAccumulatorConfig
default_config = record { max_records = 1000; max_bytes = 10485760; flush_interval = 1000 }

pub record BatchAccumulator : Type 0 where
  pub config : BatchAccumulatorConfig
  pub events : List AnyEnvelope
  pub malformed_messages : List InvalidKafkaMessage
  pub partition_offsets : PartitionOffsets
  pub current_bytes : ℕ
  pub last_flush_time : ℕ

unfoldable pub new : BatchAccumulatorConfig → ℕ → BatchAccumulator
new config now = record {
  config = config;
  events = [];
  malformed_messages = [];
  partition_offsets = [];
  current_bytes = 0;
  last_flush_time = now;
}

-- `usize` addition on a 64-bit target
abbrev pub add_usize : ℕ → ℕ → ℕ
add_usize a b = (a + b) % 2 ^ 64

unfoldable pub widen : Span → ℤ → Span
widen s offset = record s {
  min_offset = if ltb_ℤ offset s.min_offset then offset else s.min_offset;
  max_offset = if ltb_ℤ s.max_offset offset then offset else s.max_offset;
}

unfoldable pub track_partition_offset : ℤ → ℤ → PartitionOffsets → PartitionOffsets
unfolding widen
track_partition_offset p offset [] =
    record { partition = p; min_offset = offset; max_offset = offset } ∷ []
track_partition_offset p offset (s ∷ rest) =
    if eqb_ℤ s.partition p then widen s offset ∷ rest else s ∷ track_partition_offset p offset rest

unfoldable pub pending_count : BatchAccumulator → ℕ
pending_count a = length a.events + length a.malformed_messages

unfoldable pub mark_batch_start_if_empty : ℕ → BatchAccumulator → BatchAccumulator
unfolding pending_count
mark_batch_start_if_empty now a =
    if pending_count a == 0 then record a { last_flush_time = now } else a

unfoldable pub should_flush_timer : ℕ → BatchAccumulator → Bool
unfolding pending_count
should_flush_timer now a =
    ltb 0 (pending_count a) && leb a.config.flush_interval (now - a.last_flush_time)

-- the BTreeMap of `generate_batch_id`: the entries by partition
unfoldable pub insert_sorted : Span → PartitionOffsets → PartitionOffsets
insert_sorted s [] = s ∷ []
insert_sorted s (t ∷ rest) =
    if ltb_ℤ t.partition s.partition then t ∷ insert_sorted s rest else s ∷ t ∷ rest

unfoldable pub sort_by_partition : PartitionOffsets → PartitionOffsets
unfolding insert_sorted
sort_by_partition [] = []
sort_by_partition (s ∷ rest) = insert_sorted s (sort_by_partition rest)

unfoldable pub span_text : Span → String
unfolding show_ℤ
span_text s =
    concat
      ("p" ∷ show_ℤ s.partition ∷ ":" ∷ show_ℤ s.min_offset ∷ "-" ∷ show_ℤ s.max_offset ∷ "|" ∷ [])

unfoldable pub raw_text : PartitionOffsets → String
unfolding span_text
raw_text [] = ""
raw_text (s ∷ rest) = concat (span_text s ∷ raw_text rest ∷ [])

unfoldable pub event_bytes : AnyEnvelope → ℕ
event_bytes e = len (event_id e) + len (match_id e) + len (player_id e) + 250

unfoldable pub invalid_bytes : InvalidKafkaMessage → ℕ
invalid_bytes m = length m.raw_payload + len m.error_reason + 128

-- the part of `push` between the two guards
unfoldable pub store : ConsumedMessage → BatchAccumulator → BatchAccumulator
unfolding track_partition_offset event_bytes
store msg a = record a {
  partition_offsets = track_partition_offset msg.partition msg.offset a.partition_offsets;
  events = a.events ++ msg.envelope ∷ [];
  current_bytes = add_usize a.current_bytes (event_bytes msg.envelope);
}

-- the same part of `push_invalid`
unfoldable pub store_invalid : InvalidKafkaMessage → BatchAccumulator → BatchAccumulator
unfolding track_partition_offset invalid_bytes
store_invalid message a = record a {
  partition_offsets = track_partition_offset message.partition message.offset a.partition_offsets;
  current_bytes = add_usize a.current_bytes (invalid_bytes message);
  malformed_messages = a.malformed_messages ++ message ∷ [];
}

-- `sha256` is the hexadecimal digest of a text
module _ (sha256 : String → String) where
  unfoldable pub generate_batch_id : PartitionOffsets → String
  unfolding sort_by_partition raw_text
  generate_batch_id offsets = sha256 (raw_text (sort_by_partition offsets))

  unfoldable pub flush : ℕ → BatchAccumulator → BatchAccumulator × Option CompletedBatch
  unfolding generate_batch_id pending_count
  flush now a = if is_empty a.events && is_empty a.partition_offsets then (a, none) else (
    record a {
      events = [];
      malformed_messages = [];
      partition_offsets = [];
      current_bytes = 0;
      last_flush_time = now;
    },
    some (record {
      batch_id = generate_batch_id a.partition_offsets;
      events = a.events;
      malformed_messages = a.malformed_messages;
      partition_offsets = a.partition_offsets;
      record_count = pending_count a;
      estimated_bytes = a.current_bytes;
    }),
  )

  unfoldable pub flush_if_full : ℕ → BatchAccumulator → BatchAccumulator × Option CompletedBatch
  unfolding flush pending_count
  flush_if_full now a =
      if leb a.config.max_records (pending_count a) || leb a.config.max_bytes a.current_bytes
      then flush now a
      else (a, none)

  unfoldable pub push :
      ℕ → ConsumedMessage → BatchAccumulator → BatchAccumulator × Option CompletedBatch
  unfolding mark_batch_start_if_empty store flush_if_full
  push now msg a = flush_if_full now (store msg (mark_batch_start_if_empty now a))

  unfoldable pub push_invalid :
      ℕ → InvalidKafkaMessage → BatchAccumulator → BatchAccumulator × Option CompletedBatch
  unfolding mark_batch_start_if_empty store_invalid flush_if_full
  push_invalid now message a =
      flush_if_full now (store_invalid message (mark_batch_start_if_empty now a))

  -- the match on the outcome in `StreamProcessorApp::run`
  unfoldable pub push_outcome :
      ℕ → ConsumeOutcome → BatchAccumulator → BatchAccumulator × Option CompletedBatch
  unfolding push push_invalid
  push_outcome now (valid msg) a = push now msg a
  push_outcome now (invalid message) a = push_invalid now message a

-- What one round of the loop in `StreamProcessorApp::run` sees: a message, an error of the
-- consumer, or 500 ms without a message.
pub data Poll : Type 0 where
  received : ℕ → ConsumeOutcome → Poll
  poll_error : Poll
  timed_out : ℕ → Poll

module _ (sha256 : String → String) where
  -- The round's effect on the buffer, and the batch that it hands on.
  unfoldable pub poll_step : Poll → BatchAccumulator → BatchAccumulator × Option CompletedBatch
  unfolding push_outcome should_flush_timer flush
  poll_step (received now outcome) a = push_outcome sha256 now outcome a
  poll_step poll_error a = (a, none)
  poll_step (timed_out now) a = if should_flush_timer now a then flush sha256 now a else (a, none)
