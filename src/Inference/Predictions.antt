-- ===== src/Inference/Predictions.antt =====
-- apps/ml-platform/rust-inference/src/storage/parquet_writer.rs: predictions as lines of
-- JSON. serde_json and the file system are parameters.
pub mod ReadBack
use fps_anticheat_data_platf.Prelude.{
  String, Option, none, some, List, [], ◌∷◌, is_empty, if◌then◌else◌,
}
use fps_anticheat_data_platf.Prelude.Float.{Float}
use fps_anticheat_data_platf.Prelude.Text.{concat}
use fps_anticheat_data_platf.Prelude.Result.{Result, ok, err}
use fps_anticheat_data_platf.Inference.Error.{AppError, io, json}

pub record PredictionRecord : Type 0 where
  pub match_id : String
  pub player_id : String
  pub risk_score : Float
  pub risk_level : String
  pub model_version : String
  pub timestamp : String

-- What the file system answers: to `create`, and to a write to a file that holds a text, with what
-- the file holds then, also if the write fails.
pub record Output : Type 0 where
  pub create : Option String
  pub write : String → String → Option String × String

module _ (to_string : PredictionRecord → Result String String) (out : Output) where
  abbrev after_write :
      Option String × String
      → (String → Result AppError (Unit {0}) × String)
      → Result AppError (Unit {0}) × String
  after_write (none, held) more = more held
  after_write (some e, held) more = (err (io e), held)

  -- one round of the loop
  abbrev pub write_line :
      Result String String
      → String
      → (String → Result AppError (Unit {0}) × String)
      → Result AppError (Unit {0}) × String
  write_line (err e) held more = (err (json e), held)
  write_line (ok json_line) held more =
      after_write (out.write held (concat (json_line ∷ "\n" ∷ []))) more

  unfoldable pub write_records :
      List PredictionRecord → String → Result AppError (Unit {0}) × String
  write_records [] held = (ok tt, held)
  write_records (r ∷ rest) held = write_line (to_string r) held (λ h. write_records rest h)

  abbrev some_held :
      Result AppError (Unit {0}) × String → Result AppError (Unit {0}) × Option String
  some_held (r, held) = (r, some held)

  abbrev into_file :
      Option String
      → List PredictionRecord
      → Option String
      → Result AppError (Unit {0}) × Option String
  into_file none records before = some_held (write_records records "")
  into_file (some e) records before = (err (io e), before)

  -- with what the path held before, and what it holds then
  unfoldable pub write_predictions_json_stream :
      List PredictionRecord → Option String → Result AppError (Unit {0}) × Option String
  unfolding write_records
  write_predictions_json_stream records before =
      if is_empty records
      then (err (io "Danh sách bản ghi prediction trống"), before)
      else into_file out.create records before
