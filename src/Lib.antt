-- ===== src/Lib.antt =====
-- The data platform's Rust services: the structured streamer (apps/rust-structured-streamer), which
-- turns telemetry from Kafka into Bronze, Silver and Gold objects, and the inference service
-- (apps/ml-platform/rust-inference), which scores players and decides on sanctions.
--
-- The streamer's loop (app.rs) polls Kafka, classifies what it receives (ingest/consumer.rs), and
-- gathers it in a buffer (ingest/accumulator.rs). A full or an old buffer becomes a batch: its events
-- are validated (transform/validator.rs) and deduplicated (transform/dedup.rs), written as Parquet
-- with a manifest (storage), projected by the native worker behind the circuit breaker (worker),
-- announced (transport/producer.rs), and only then are the batch's offsets committed.
--
-- Files, with the paths under apps/rust-structured-streamer/src:
--   Streamer/Domain       domain/event.rs and the message types of ingest/consumer.rs
--   Streamer/Accumulator  ingest/accumulator.rs and the rounds of the loop as the buffer sees them;
--                         Offsets, Batches, Stream, Bounds and Identity are about it
--   Streamer/Consumer     ingest/consumer.rs; Outcomes and Positions are about it
--   Streamer/Validator    transform/validator.rs; Rules and Partition are about it
--   Streamer/Dedup        transform/dedup.rs; First is about it
--   Streamer/Breaker      worker/circuit_breaker.rs; Hysteresis and Ticks are about it
--   Streamer/Config       config.rs; FailClosed is about it
--   Streamer/Storage      storage/manifest.rs, keys and two uploads of storage/minio.rs; Downloads
--                         and Objects have its other operations; Keys, Consistent and
--                         DeadLetters are about it
--   Streamer/Columns      Arrow tables: what transform takes from that library, and its contract
--   Streamer/Bronze       transform/arrow.rs
--   Streamer/Groups       the HashMap keyed by match and player
--   Streamer/Silver       transform/silver.rs; Fresh, Totals and Reads are about it
--   Streamer/Gold         transform/gold.rs; Intervals, Sorted, Median, Features, Grouping, Reads and
--                         Counts are about it
--   Streamer/Parquet      transform/parquet.rs
--   Streamer/Worker       worker/native_worker.rs, its first part in Local; Projects, Quiet and
--                         Healthy are about it
--   Streamer/Producer     transport/producer.rs; Published is about it
--   Streamer/Action       error.rs and calls of other systems: state, error and a log of effects
--   Streamer/App          app.rs and worker/dynamic_pool.rs; Stored, Durable, Delivery,
--                         Successes, Announced, Healthy, Progress, Loss and Accounts are about it
--   Streamer/Start        main.rs and the constructors it calls, with the settings of each client;
--                         Started is about it
--   Streamer/Examples     data and runs at concrete inputs
--
-- The inference service answers one request per connection (ipc/uds_server.rs): the engine scores the
-- features (inference/onnx_engine.rs), the evidence names what stands out
-- (evidence/evidence_engine.rs), and the evaluator applies heuristics and then the policy
-- (decision/evaluator.rs, decision/policy.rs). Files, under apps/ml-platform/rust-inference/src:
--   Inference/Error       error.rs
--   Inference/Config      config.rs; Usable is about it
--   Inference/Policy      decision/policy.rs; Ranges is about it
--   Inference/Evidence    evidence/evidence_engine.rs; Top is about it
--   Inference/Evaluator   decision/evaluator.rs; Decides is about it
--   Inference/Engine      inference/onnx_engine.rs, without reading a bundle; Predicts is about it
--   Inference/Bundle      inference/onnx_engine.rs, a bundle's schema and thresholds, and in Load its
--                         files; Accepted and Verified are about it
--   Inference/Server      ipc/uds_server.rs, one connection, and in Accepts the accept loop;
--                         Responds, Bounded, Drains and Opens are about it
--   Inference/Predictions storage/parquet_writer.rs; ReadBack is about it
--   Inference/Start       main.rs, with the reload task; Served and Serving are about it
--   Inference/Examples    runs at concrete inputs
--
--   Prelude               tests, lists, integers, floats, texts and results shared by all
--
-- A method that mutates `&mut self` is a function that returns the new record. Code outside the
-- repository is a parameter: Sha256, serde_json, chrono, librdkafka, the object store, Arrow and
-- Parquet, ONNX Runtime, the clock, /proc, and float arithmetic; comparisons of floats are exact.
-- A call of another system is `call`: it may fail depending on all calls before it, and what it
-- acknowledges is appended to the log. Time limits of calls are among their failures. `usize` and
-- `u64` sums wrap where the code adds unchecked; `i64` offsets are unbounded except where one is
-- added to them.
--
-- All recursion is structural. The only fuel is that of the decimal digits of a number, which is the
-- number plus one; Prelude/Text/Decimal shows that more fuel changes nothing.
--
-- Streamer/App runs the worker of Streamer/Worker, which reads the store as the calls before have left
-- it. An Arrow table is a list of columns with nulls, and the contract of the library is `IsArrow`:
-- columns that fit a schema make a table that gives them back by name. A HashMap that the code
-- iterates over has its order as a parameter. `sort_by` is an insertion sort, which agrees with
-- Rust's on values without NaN. The places that read the clock have a reading each, which is the same
-- for all batches. A bundle's directory does not change while it is loaded, and ONNX Runtime reads
-- model.onnx on its own.
--
-- Not modelled: logging, the timers and signals that wake the services, what the client libraries do
-- with their settings, and the services in Go and Python.
mod Prelude
pub mod Streamer
pub mod Inference
