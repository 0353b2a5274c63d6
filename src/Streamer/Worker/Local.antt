-- ===== src/Streamer/Worker/Local.antt =====
-- apps/rust-structured-streamer/src/worker/native_worker.rs, up to the uploads: the manifest and its
-- Bronze object are downloaded, transformed, and written to the temporary directory.
use fps_anticheat_data_platf.Prelude.{
  ℕ, String, Option, none, some, List, [], ◌∷◌, is_empty, unwrap_or, if◌then◌else◌,
}
use fps_anticheat_data_platf.Prelude.Float.{Arithmetic}
use fps_anticheat_data_platf.Prelude.Text.{concat, is_blank, trim, file_stem}
use fps_anticheat_data_platf.Prelude.Result.{Result, ok, err, ◌>>=◌}
use fps_anticheat_data_platf.Streamer.Action.{AppError, storage, worker, io, Effect}
use fps_anticheat_data_platf.Streamer.Columns.{Arrow}
use fps_anticheat_data_platf.Streamer.Silver.{PlayerStatsMap, process_silver}
use fps_anticheat_data_platf.Streamer.Gold.{generate_gold}
use fps_anticheat_data_platf.Streamer.Parquet.{
  ParquetLibrary, record_batch_to_parquet_bytes, read_parquet_bytes,
}
use fps_anticheat_data_platf.Streamer.Storage.Downloads.{
  LocalFile, Disk, read, write, make_dir, ObjectStore, or_error, unless_fault, join,
  download_to_temp,
}

-- a directory of the temporary directory, with the files in it by name
pub record Output : Type 0 where
  pub name : String
  pub file : LocalFile

pub record LocalDir : Type 0 where
  pub subdir : String
  pub path : String
  pub entries : List Output

-- What the worker calls. `utf8` is the check of `read_to_string`, `from_str` parses JSON and answers
-- the text under "data_object_path", if there is one.
pub record WorkerServices (B W R : Type 0) : Type 0 where
  pub lib : Arrow B
  pub parquet : ParquetLibrary B W R
  pub f64 : Arithmetic
  pub iterate : PlayerStatsMap → PlayerStatsMap
  pub store : ObjectStore
  pub disk : Disk
  pub sha256_bytes : List ℕ → String
  pub acquire_owned : List Effect → Option String
  pub tempdir : List Effect → Result String String
  pub utf8 : List ℕ → Result String String
  pub from_str : String → Result String (Option String)
  pub created_at : String

pub record Tables : Type 0 where
  pub silver_ke : List ℕ
  pub silver_pm : List ℕ
  pub gold : List ℕ

abbrev pub output : String → String → String → List ℕ → LocalDir
output temp_path subdir name bytes = record {
  subdir = subdir;
  path = join temp_path subdir;
  entries =
      record {
        name = name;
        file = record { path = join (join temp_path subdir) name; bytes = bytes };
      }
      ∷ [];
}

abbrev pub output_name : String → String → String
output_name stem batch_id = concat (stem ∷ batch_id ∷ ".parquet" ∷ [])

abbrev pub batch_id_of : String → String
batch_id_of manifest_key = unwrap_or (file_stem manifest_key) "batch"

abbrev pub output_dirs : String → String → Tables → List LocalDir
output_dirs temp_path batch_id t =
    output temp_path "silver/kill-events" (output_name "kill_events_" batch_id) t.silver_ke
    ∷ output temp_path "silver/player-match" (output_name "player_match_" batch_id) t.silver_pm
    ∷ output temp_path "gold/player-match-features" (output_name "gold_features_" batch_id) t.gold
    ∷ []

module _ {B W R : Type 0} (s : WorkerServices B W R) where
  abbrev pub not_blank : Option String → Result AppError String
  not_blank none = err (storage "Manifest thiếu data_object_path; không thể chạy Rust projection")
  not_blank (some value) =
      if is_blank (trim value)
      then err (storage "Manifest thiếu data_object_path; không thể chạy Rust projection")
      else ok value

  -- `read_to_string`
  abbrev unless_unreadable : Option String → List ℕ → Result String String
  unless_unreadable none bytes = s.utf8 bytes
  unless_unreadable (some e) bytes = err e

  unfoldable pub parse_bronze_key_from_manifest : LocalFile → Result AppError String
  unfolding trim
  parse_bronze_key_from_manifest manifest = do
    content ←
        or_error
          (λ e. storage (concat ("Đọc manifest local '" ∷ manifest.path ∷ "' thất bại: " ∷ e ∷ [])))
          (unless_unreadable (s.disk.fault read manifest.path) manifest.bytes)
    data_object_path ←
        or_error (λ e. storage (concat ("Parse manifest JSON thất bại: " ∷ e ∷ [])))
          (s.from_str content)
    not_blank data_object_path

  -- the batches of the Bronze object that the manifest names
  unfoldable pub bronze_batches : List Effect → String → String → Result AppError (List B)
  unfolding parse_bronze_key_from_manifest download_to_temp read_parquet_bytes
  bronze_batches log manifest_key temp_path = do
    manifest ← download_to_temp s.store s.disk log manifest_key temp_path
    bronze_key ← parse_bronze_key_from_manifest manifest
    bronze ← download_to_temp s.store s.disk log bronze_key temp_path
    _ ←
        unless_fault (λ e. worker (concat ("Đọc Bronze Parquet file thất bại: " ∷ e ∷ [])))
          (s.disk.fault read bronze.path)
    batches ← read_parquet_bytes s.parquet bronze.bytes
    if is_empty batches
        then err (worker (concat ("Bronze Parquet rỗng cho manifest '" ∷ manifest_key ∷ "'" ∷ [])))
        else ok batches

  -- the three tables, encoded
  unfoldable pub transform : List B → Result AppError Tables
  unfolding process_silver generate_gold record_batch_to_parquet_bytes
  transform batches = do
    (silver_ke_batch, silver_pm_batch) ← process_silver s.lib s.iterate batches
    gold_batch ← generate_gold s.f64 s.lib s.created_at silver_ke_batch silver_pm_batch
    silver_ke_bytes ← record_batch_to_parquet_bytes s.parquet silver_ke_batch
    silver_pm_bytes ← record_batch_to_parquet_bytes s.parquet silver_pm_batch
    gold_bytes ← record_batch_to_parquet_bytes s.parquet gold_batch
    ok (record { silver_ke = silver_ke_bytes; silver_pm = silver_pm_bytes; gold = gold_bytes })

  -- `create_dir_all` and `write` of tokio, with `?` on `io::Error`
  abbrev on_disk : Option String → Result AppError (Unit {0})
  on_disk = unless_fault io

  unfoldable pub make_dirs : List LocalDir → Result AppError (Unit {0})
  make_dirs [] = ok tt
  make_dirs (d ∷ rest) = do _ ← on_disk (s.disk.fault make_dir d.path); make_dirs rest

  unfoldable pub write_entries : List Output → Result AppError (Unit {0})
  write_entries [] = ok tt
  write_entries (o ∷ rest) = do _ ← on_disk (s.disk.fault write o.file.path); write_entries rest

  unfoldable pub write_files : List LocalDir → Result AppError (Unit {0})
  unfolding write_entries
  write_files [] = ok tt
  write_files (d ∷ rest) = do _ ← write_entries d.entries; write_files rest

  -- `process_manifest` up to the uploads, after the calls of a log
  unfoldable pub outputs : List Effect → String → Result AppError (List LocalDir)
  unfolding bronze_batches transform make_dirs write_files
  outputs log manifest_key = do
    _ ←
        unless_fault (λ e. worker (concat ("Semaphore worker đã đóng: " ∷ e ∷ [])))
          (s.acquire_owned log)
    temp_path ←
        or_error (λ e. worker (concat ("Không thể tạo temp directory: " ∷ e ∷ []))) (s.tempdir log)
    batches ← bronze_batches log manifest_key temp_path
    tables ← transform batches
    let dirs = output_dirs temp_path (batch_id_of manifest_key) tables
    _ ← make_dirs dirs
    _ ← write_files dirs
    ok dirs
