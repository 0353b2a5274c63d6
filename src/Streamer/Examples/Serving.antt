-- ===== src/Streamer/Examples/Serving.antt =====
-- Services that answer every call, over tables and a store in memory, and services whose Arrow library
-- refuses the events.
use fps_anticheat_data_platf.Prelude.{ℕ, true, false, String, Option, none, some, List, [], ◌∷◌}
use fps_anticheat_data_platf.Prelude.Int.{pos}
use fps_anticheat_data_platf.Prelude.Float.{fin}
use fps_anticheat_data_platf.Prelude.Result.{Result, ok, err}
use fps_anticheat_data_platf.Streamer.Bronze.{build_schema, bronze_columns}
use fps_anticheat_data_platf.Streamer.Parquet.{ParquetLibrary}
use fps_anticheat_data_platf.Streamer.Accumulator.{CompletedBatch}
use fps_anticheat_data_platf.Streamer.Storage.{Calendar, generate_bronze_path}
use fps_anticheat_data_platf.Streamer.Storage.Downloads.{not_found}
use fps_anticheat_data_platf.Streamer.Storage.Consistent.{held}
use fps_anticheat_data_platf.Streamer.Worker.Local.{WorkerServices}
use fps_anticheat_data_platf.Streamer.App.{Services}
use fps_anticheat_data_platf.Streamer.Examples.{anything, f32, good, bad, batch_of, gold_producer}
use fps_anticheat_data_platf.Streamer.Examples.Projection.{Table, tables, f64, in_order, height}

abbrev pub three : CompletedBatch
three = batch_of (good ∷ good ∷ bad ∷ []) []

abbrev pub calendar : Calendar
calendar = record {
  parse_from_rfc3339 = λ s. none;
  today = record { year = pos 2026; month = 1; day = 2 };
}

abbrev pub now : String
now = "2026-01-02T03:04:05Z"

-- the Bronze table of the one event of the batch `three` that is kept
abbrev pub bronze_of_three : Table
bronze_of_three = record { schema = build_schema; cols = bronze_columns (good ∷ []) }

-- a library that writes the number of rows, and always reads the one Bronze table
abbrev parquet : ParquetLibrary Table Table (Unit {0})
parquet = record {
  new_writer = λ b. ok b;
  write = λ w b. ok b;
  close = λ w. ok (height w.cols ∷ []);
  new_reader = λ bytes. ok tt;
  build = λ r. ok (ok bronze_of_three ∷ []);
}

abbrev pub answer_get : Option (List ℕ) → Result String (Result String (List ℕ))
answer_get none = err "not found"
answer_get (some bytes) = ok (ok bytes)

-- a store in which every object can be read once it is put
abbrev pub native : WorkerServices Table Table (Unit {0})
native = record {
  lib = tables;
  parquet = parquet;
  f64 = f64;
  iterate = in_order;
  store = record {
    get = λ log key. answer_get (held key log);
    head = λ log key. not_found;
    put_fault = λ log. none;
  };
  disk = record { fault = λ op path. none; buffered = λ path bytes. ok bytes };
  sha256_bytes = anything;
  acquire_owned = λ log. none;
  tempdir = λ log. ok "/tmp/w";
  utf8 = λ bytes. ok "{}";
  from_str = λ content. ok (some (generate_bronze_path calendar "b1" now));
  created_at = "now";
}

abbrev pub services : Services Table Table (Unit {0})
services = record {
  native = native;
  sha256 = λ text. "b1";
  rfc3339 = λ s. true;
  one = fin (pos 1);
  f32 = f32;
  calendar = calendar;
  now = now;
  processing_timestamp = "2026-01-02T03:04:06Z";
  created_at = "2026-01-02T03:04:08Z";
  manifest_json = λ m. ok (1 ∷ []);
  event_json = λ e. ok (2 ∷ []);
  send_fault = λ l. none;
  commit_fault = λ l. none;
  refuses = λ p. none;
  proc = λ l. (none, none);
  poisoned = λ l. false;
  raw_topic = "raw";
  producer = gold_producer;
}

-- the same, but Arrow refuses the events
abbrev pub refusing : Services Table Table (Unit {0})
refusing = record services {
  native = record native { lib = record tables { try_new = λ schema cols. err "schema" } };
}
