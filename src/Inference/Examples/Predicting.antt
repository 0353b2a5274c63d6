-- ===== src/Inference/Examples/Predicting.antt =====
-- A file of two predictions.
use Prim.Native.String
use mathlib.Core.Path.{subst}
use fps_anticheat_data_platf.Prelude.{
  ◌≡◌, refl, sym, ap, false, String, none, some, List, [], ◌∷◌, is_empty,
}
use fps_anticheat_data_platf.Prelude.Int.{pos}
use fps_anticheat_data_platf.Prelude.Float.{fin}
use fps_anticheat_data_platf.Prelude.Text.{lines}
use fps_anticheat_data_platf.Prelude.Text.Lines.{IsOneLine}
use fps_anticheat_data_platf.Prelude.Result.{Result, ok}
use fps_anticheat_data_platf.Inference.Predictions.{
  PredictionRecord, Output, write_predictions_json_stream,
}
use fps_anticheat_data_platf.Inference.Predictions.ReadBack.{
  IsJson, Appends, parse_all, write_predictions_json_stream-reads,
}

abbrev prediction : String → PredictionRecord
prediction match_id = record {
  match_id = match_id;
  player_id = "p1";
  risk_score = fin (pos 9);
  risk_level = "CRITICAL";
  model_version = "v7";
  timestamp = "2026-01-02T03:04:05Z";
}

abbrev two : List PredictionRecord
two = prediction "m1" ∷ prediction "m2" ∷ []

-- the match stands for the record
abbrev to_string : PredictionRecord → Result String String
to_string r = ok r.match_id

abbrev from_str : String → Result String PredictionRecord
from_str line = ok (prediction line)

abbrev disk : Output
disk = record { create = none; write = λ held text. (none, String.◌++◌ held text) }

disk-Appends : Appends disk
disk-Appends = record { written = λ held text h. refl }

prediction-IsJson :
    (match_id : String) → IsOneLine match_id → IsJson to_string from_str (prediction match_id)
prediction-IsJson match_id one_line line h =
    let e : match_id ≡ line = cc h in
    (subst IsOneLine e one_line, ap (λ m. ok (prediction m)) (sym e))

two_written : (write_predictions_json_stream to_string disk two (some "old")).0 ≡ ok tt
unfolding write_predictions_json_stream
two_written = refl

write_predictions_json_stream-reads_example :
    (is_empty two ≡ false)
    × (text : String) × ((write_predictions_json_stream to_string disk two (some "old")).1
        ≡ some text)
    × (parse_all from_str (lines text) ≡ ok two)
write_predictions_json_stream-reads_example =
    write_predictions_json_stream-reads to_string from_str disk disk-Appends two (some "old")
      (
        prediction-IsJson "m1" (refl, refl, (refl, refl, tt)),
        (prediction-IsJson "m2" (refl, refl, (refl, refl, tt)), tt),
      )
      two_written
