-- ===== src/Streamer/Parquet.antt =====
-- apps/rust-structured-streamer/src/transform/parquet.rs. The Parquet library is a parameter: its
-- writer `W` and its reader, whose iterator is the list of what it yields.
use fps_anticheat_data_platf.Prelude.{ℕ, String, List, [], ◌∷◌}
use fps_anticheat_data_platf.Prelude.Text.{concat}
use fps_anticheat_data_platf.Prelude.Result.{Result, ok, err, ◌>>=◌}
use fps_anticheat_data_platf.Streamer.Action.{AppError, parquet}

pub record ParquetLibrary (B W R : Type 0) : Type 0 where
  pub new_writer : B → Result String W
  pub write : W → B → Result String W
  pub close : W → Result String (List ℕ)
  pub new_reader : List ℕ → Result String R
  pub build : R → Result String (List (Result String B))

abbrev pub parquet_or : {A : Type 0} → String → Result String A → Result AppError A
parquet_or what (ok a) = ok a
parquet_or what (err e) = err (parquet (concat (what ∷ e ∷ [])))

module _ {B W R : Type 0} (lib : ParquetLibrary B W R) where
  unfoldable pub record_batch_to_parquet_bytes : B → Result AppError (List ℕ)
  record_batch_to_parquet_bytes batch = do
    fresh ← parquet_or "Khởi tạo Parquet ArrowWriter thất bại: " (lib.new_writer batch)
    writer ← parquet_or "Ghi RecordBatch sang Parquet thất bại: " (lib.write fresh batch)
    parquet_or "Đóng Parquet ArrowWriter thất bại: " (lib.close writer)

  -- the loop over the reader; the first error ends it
  unfoldable pub collect_batches : List (Result String B) → Result AppError (List B)
  collect_batches [] = ok []
  collect_batches (batch_res ∷ rest) = do
    batch ← parquet_or "Đọc RecordBatch từ Parquet byte stream thất bại: " batch_res
    batches ← collect_batches rest
    ok (batch ∷ batches)

  unfoldable pub read_parquet_bytes : List ℕ → Result AppError (List B)
  unfolding collect_batches
  read_parquet_bytes bytes = do
    builder ← parquet_or "Tạo ParquetRecordBatchReaderBuilder thất bại: " (lib.new_reader bytes)
    reader ← parquet_or "Tạo Parquet RecordBatchReader thất bại: " (lib.build builder)
    collect_batches reader
