-- ===== src/Streamer/Examples/Working.antt =====
-- A run of the native worker over the tables in memory.
use fps_anticheat_data_platf.Prelude.{◌≡◌, refl, String, none, some, [], ◌∷◌, str_eq, if◌then◌else◌}
use fps_anticheat_data_platf.Prelude.Text.{trim}
use fps_anticheat_data_platf.Prelude.Result.{ok}
use fps_anticheat_data_platf.Streamer.Bronze.{build_schema, bronze_columns, events_to_record_batch}
use fps_anticheat_data_platf.Streamer.Parquet.{
  ParquetLibrary, record_batch_to_parquet_bytes, read_parquet_bytes, collect_batches,
}
use fps_anticheat_data_platf.Streamer.Producer.{NativeWorkerResult}
use fps_anticheat_data_platf.Streamer.Action.{World}
use fps_anticheat_data_platf.Streamer.Storage.Downloads.{not_found}
use fps_anticheat_data_platf.Streamer.Worker.Local.{WorkerServices}
use fps_anticheat_data_platf.Streamer.Worker.{process_manifest}
use fps_anticheat_data_platf.Streamer.Worker.Projects.{IsProjected, process_manifest-IsProjected}
use fps_anticheat_data_platf.Streamer.Worker.Healthy.{Works, Holds, process_manifest_succeeds}
use fps_anticheat_data_platf.Streamer.Examples.{anything, start}
use fps_anticheat_data_platf.Streamer.Examples.Projection.{
  Table, tables, tables-IsArrow, f64, in_order, events, height,
}

abbrev bronze : Table
bronze = record { schema = build_schema; cols = bronze_columns events }

-- a library that writes the number of rows, and always reads the one Bronze table
abbrev parquet : ParquetLibrary Table Table (Unit {0})
parquet = record {
  new_writer = λ b. ok b;
  write = λ w b. ok b;
  close = λ w. ok (height w.cols ∷ []);
  new_reader = λ bytes. ok tt;
  build = λ r. ok (ok bronze ∷ []);
}

abbrev manifest_key : String
manifest_key = "manifests/year=2026/month=01/day=02/manifest_b1.json"

abbrev working : WorkerServices Table Table (Unit {0})
working = record {
  lib = tables;
  parquet = parquet;
  f64 = f64;
  iterate = in_order;
  store = record {
    get = λ log key. ok (ok (if str_eq key manifest_key then 1 ∷ [] else 2 ∷ []));
    head = λ log key. not_found;
    put_fault = λ log. none;
  };
  disk = record { fault = λ op path. none; buffered = λ path bytes. ok bytes };
  sha256_bytes = anything;
  acquire_owned = λ log. none;
  tempdir = λ log. ok "/tmp/w";
  utf8 = λ bytes. ok "{}";
  from_str = λ content. ok (some "bronze/b1.parquet");
  created_at = "now";
}

working-Works : Works working
unfolding record_batch_to_parquet_bytes
working-Works = record {
  disk = λ op path. refl;
  buffers = λ path bytes. refl;
  puts = λ log. refl;
  encodes = λ b. (height b.cols ∷ [], refl);
  arrow = tables-IsArrow;
}

working-Holds : Holds working start.log manifest_key bronze
unfolding read_parquet_bytes collect_batches trim
working-Holds = record {
  temp = "/tmp/w";
  manifest = 1 ∷ [];
  content = "{}";
  bronze_key = "bronze/b1.parquet";
  bronze = 2 ∷ [];
  permit = refl;
  directory = refl;
  has_manifest = refl;
  is_text = refl;
  is_json = refl;
  not_blank = refl;
  has_bronze = refl;
  batches = bronze ∷ [];
  decodes = refl;
  some_batch = refl;
  same_rows = refl;
}

bronze_made : events_to_record_batch tables events ≡ ok bronze
unfolding events_to_record_batch
bronze_made = refl

-- a run, as the premise of the theorem about a run that succeeds
worked :
    (r : NativeWorkerResult) × (w' : World) × (process_manifest working manifest_key start
      ≡ (ok r, w'))
worked =
    let (g, t, run, _, _) =
      process_manifest_succeeds working manifest_key events bronze start working-Works bronze_made
        working-Holds in
    (_, _, run)

process_manifest-IsProjected_example : IsProjected working manifest_key start worked.1 worked.0
process_manifest-IsProjected_example =
    process_manifest-IsProjected working manifest_key start worked.1 worked.0 worked.2
