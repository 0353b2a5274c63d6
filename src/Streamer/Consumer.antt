-- ===== src/Streamer/Consumer.antt =====
-- apps/rust-structured-streamer/src/ingest/consumer.rs: classification of what Kafka delivers, and
-- the offset commit. librdkafka, serde_json and UTF-8 decoding are parameters.
pub mod Outcomes
pub mod Positions
use fps_anticheat_data_platf.Prelude.{
  ℕ, Bool, String, Option, none, some, List, [], ◌∷◌, length, take, leb, is_empty, find?, str_eq,
  ◌==◌, if◌then◌else◌,
}
use fps_anticheat_data_platf.Prelude.Int.{ℤ, i64_succ}
use fps_anticheat_data_platf.Prelude.Text.{concat, show_ℕ, show_ℤ}
use fps_anticheat_data_platf.Prelude.Result.{Result, ok, err}
use fps_anticheat_data_platf.Streamer.Domain.{
  AnyEnvelope, ConsumedMessage, InvalidKafkaMessage, ConsumeOutcome, valid, invalid,
}
use fps_anticheat_data_platf.Streamer.Accumulator.{Span, PartitionOffsets}
use fps_anticheat_data_platf.Streamer.Action.{
  AppError, kafka, Position, Effect, committed, World, Action, pure, lift, call, ◌>>=◌, ◌>>◌,
}

-- what librdkafka hands over; a payload and a key are lists of bytes
pub record BorrowedMessage : Type 0 where
  pub topic : String
  pub partition : ℤ
  pub offset : ℤ
  pub key : Option (List ℕ)
  pub payload : Option (List ℕ)

unfoldable pub oversize_reason : ℕ → ℕ → String
unfolding show_ℕ
oversize_reason got limit = concat (
    "Payload "
    ∷ show_ℕ got
    ∷ " bytes vượt giới hạn "
    ∷ show_ℕ limit
    ∷ " bytes; DLQ chỉ lưu bounded prefix"
    ∷ [])

abbrev decode_key : (List ℕ → Option String) → Option (List ℕ) → Option String
decode_key from_utf8 none = none
decode_key from_utf8 (some k) = from_utf8 k

abbrev parsed :
    (List ℕ → Option String) → BorrowedMessage → List ℕ → Result String AnyEnvelope → ConsumeOutcome
parsed from_utf8 m bytes (ok envelope) = valid (record {
  envelope = envelope;
  topic = m.topic;
  partition = m.partition;
  offset = m.offset;
  key = decode_key from_utf8 m.key;
})
parsed from_utf8 m bytes (err e) = invalid (record {
  topic = m.topic;
  partition = m.partition;
  offset = m.offset;
  raw_payload = bytes;
  error_reason = concat ("Malformed JSON: " ∷ e ∷ []);
})

-- the three cases of the payload
unfoldable pub classify :
    (List ℕ → Option String)
    → (List ℕ → Result String AnyEnvelope)
    → ℕ
    → BorrowedMessage
    → Option (List ℕ)
    → ConsumeOutcome
classify from_utf8 from_json max_payload_bytes m none = invalid (record {
  topic = m.topic;
  partition = m.partition;
  offset = m.offset;
  raw_payload = [];
  error_reason = "Empty payload";
})
classify from_utf8 from_json max_payload_bytes m (some bytes) =
    if leb (length bytes) max_payload_bytes
    then parsed from_utf8 m bytes (from_json bytes)
    else invalid (record {
      topic = m.topic;
      partition = m.partition;
      offset = m.offset;
      raw_payload = take max_payload_bytes bytes;
      error_reason = oversize_reason (length bytes) max_payload_bytes;
    })

unfoldable pub recv_outcome :
    (List ℕ → Option String)
    → (List ℕ → Result String AnyEnvelope)
    → ℕ
    → Result String BorrowedMessage
    → Result AppError ConsumeOutcome
unfolding classify
recv_outcome from_utf8 from_json max_payload_bytes (ok m) =
    ok (classify from_utf8 from_json max_payload_bytes m m.payload)
recv_outcome from_utf8 from_json max_payload_bytes (err e) =
    err (kafka (concat ("Lỗi poll Kafka message: " ∷ e ∷ [])))

unfoldable pub position_of : Span → Position
unfolding i64_succ
position_of s = record { partition = s.partition; next_offset = i64_succ s.max_offset }

unfoldable pub positions_of : PartitionOffsets → List Position
unfolding position_of
positions_of [] = []
positions_of (s ∷ rest) = position_of s ∷ positions_of rest

abbrev refusal_reason : Span → String → AppError
refusal_reason s e = kafka (
    concat (
      "Thêm Partition "
      ∷ show_ℤ s.partition
      ∷ " offset "
      ∷ show_ℤ (i64_succ s.max_offset)
      ∷ " thất bại: "
      ∷ e
      ∷ []))

abbrev add_position :
    Span → Option String → Result AppError (List Position) → Result AppError (List Position)
add_position s (some e) added = err (refusal_reason s e)
add_position s none (ok ps) = ok (position_of s ∷ ps)
add_position s none (err e) = err e

-- the loop that fills the TopicPartitionList; `refuses` is the answer of `add_partition_offset`
unfoldable pub add_positions :
    (Position → Option String) → PartitionOffsets → Result AppError (List Position)
unfolding position_of
add_positions refuses [] = ok []
add_positions refuses (s ∷ rest) =
    add_position s (refuses (position_of s)) (add_positions refuses rest)

module _ (topic : String) (refuses : Position → Option String)
    (fault : List Effect → Option String) where
  unfoldable pub commit_partition_offsets : PartitionOffsets → Action (Unit {0})
  unfolding add_positions call
  commit_partition_offsets offsets = if is_empty offsets then pure tt else do
    tpl ← lift (add_positions refuses offsets)
    call fault (λ e. kafka (concat ("Commit multi-partition offsets thất bại: " ∷ e ∷ [])))
        (committed topic tpl)

pub record TopicMetadata : Type 0 where
  pub name : String
  pub partitions : ℕ

abbrev has_partitions : String → Option TopicMetadata → Result AppError (Unit {0})
has_partitions topic none = err (
    kafka (
      concat ("Topic '" ∷ topic ∷ "' không tồn tại trên Kafka broker (Fail-Close Triggered)" ∷ [])))
has_partitions topic (some t) =
    if t.partitions == 0
    then err (
        kafka (concat ("Topic '" ∷ topic ∷ "' không có partition nào (Fail-Close Triggered)" ∷ [])))
    else ok tt

-- from what `fetch_metadata` answers
unfoldable pub verify_topic_exists :
    String → Result String (List TopicMetadata) → Result AppError (Unit {0})
verify_topic_exists topic (err e) =
    err
      (kafka (concat ("Không thể fetch metadata topic '" ∷ topic ∷ "' từ Kafka broker: " ∷ e ∷ [])))
verify_topic_exists topic (ok topics) =
    has_partitions topic (find? (λ t. str_eq t.name topic) topics)
