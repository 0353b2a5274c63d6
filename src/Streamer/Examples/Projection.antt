-- ===== src/Streamer/Examples/Projection.antt =====
-- Runs of the transforms and of the native worker over three events, with tables in memory.
use fps_anticheat_data_platf.Prelude.{
  ℕ, ◌+◌, ◌≡◌, refl, false, String, none, some, List, [], ◌∷◌, map, length, any, is_empty, keep,
  if◌then◌else◌, str_eq_iff, arith,
}
use fps_anticheat_data_platf.Prelude.Int.{pos, sub_ℕ, pos_part, neg_part}
use fps_anticheat_data_platf.Prelude.Float.{Float, nan, fin, Arithmetic}
use fps_anticheat_data_platf.Prelude.Result.{ok}
use fps_anticheat_data_platf.Streamer.Domain.{AnyEnvelope, kill}
use fps_anticheat_data_platf.Streamer.Columns.{
  Column, text, int, float, Schema, Arrow, IsArrow, IsTable, FillAll, column_named,
}
use fps_anticheat_data_platf.Streamer.Groups.{get}
use fps_anticheat_data_platf.Streamer.Silver.{
  BronzeRow, PlayerStatsMap, silver_rows, fresh_state, kill_event_row,
}
use fps_anticheat_data_platf.Streamer.Silver.Totals.{
  kept_rows, mentions, is_of, totals_of, silver_rows_lem,
}
use fps_anticheat_data_platf.Streamer.Silver.Reads.{row_of}
use fps_anticheat_data_platf.Streamer.Gold.{
  KillRow, PlayerRow, group_rows, gold_row, gold_row_of, gold_schema, gold_columns,
}
use fps_anticheat_data_platf.Streamer.Gold.Grouping.{kills_by, IsRowFor, gold_row_lem}
use fps_anticheat_data_platf.Streamer.Gold.Features.{Summarizes, gold_row_of-Summarizes}
use fps_anticheat_data_platf.Streamer.Gold.Reads.{
  kill_row_of, silver_of, gold_of, project, project_lem,
}
use fps_anticheat_data_platf.Streamer.Gold.Counts.{is_stat_of, fresh_events, gold_row_stats}
use fps_anticheat_data_platf.Streamer.Silver.Fresh.{fresh}
use fps_anticheat_data_platf.Streamer.Examples.{first_id, source, event_with, f32}

-- a table in memory, with as many rows as its first column has cells
pub record Table : Type 0 where
  pub schema : Schema
  pub cols : List Column

abbrev pub cells : Column → ℕ
cells (text cs) = length cs
cells (int cs) = length cs
cells (float cs) = length cs

abbrev pub height : List Column → ℕ
height [] = 0
height (c ∷ cs) = cells c

abbrev pub tables : Arrow Table
tables = record {
  try_new = λ schema cols. ok (record { schema = schema; cols = cols });
  num_rows = λ b. height b.cols;
  column_by_name = λ b name. column_named name b.schema b.cols;
  null_text = "";
}

tables_rows :
    (n : ℕ) (schema : Schema) (cols : List Column)
    → is_empty schema ≡ false
    → FillAll n schema cols
    → height cols ≡ n
tables_rows n [] cols h fits = cc
tables_rows n (f ∷ fs) [] h fits = absurd fits
tables_rows n (f ∷ fs) (text cs ∷ rest) h fits = fits.0.1
tables_rows n (f ∷ fs) (int cs ∷ rest) h fits = fits.0.1
tables_rows n (f ∷ fs) (float cs ∷ rest) h fits = fits.0.1

pub tables-IsArrow : IsArrow tables
tables-IsArrow = record {
  builds = λ n schema cols h fits. (record { schema = schema; cols = cols }, refl);
  rows = λ n schema cols b h fits e. cc (e, tables_rows n schema cols h fits);
  columns = λ n schema cols b name h fits e. cc e;
}

-- exact subtraction, so that the intervals are those of the times
abbrev minus : Float → Float → Float
minus (fin a) (fin b) = fin (sub_ℕ (pos_part a + neg_part b) (pos_part b + neg_part a))
minus a b = nan

abbrev pub f64 : Arithmetic
f64 = record f32 { sub = minus }

abbrev pub in_order : PlayerStatsMap → PlayerStatsMap
in_order entries = entries

abbrev killed_at : String → ℕ → String → AnyEnvelope
killed_at id time weapon = kill (record {
  schema_version = "1.0";
  event_id = id;
  op = "data.kill_event.telemetry";
  event_time = none;
  ingest_time = "2026-01-02T03:04:05Z";
  match_id = "m1";
  player_id = "p2";
  source = source;
  payload = record {
    match_id = "m1";
    killer_name = some "p2";
    victim_name = some "p1";
    killer_placement = none;
    victim_placement = none;
    killer_position_x = some (fin (pos 5));
    killer_position_y = some (fin (pos 5));
    victim_position_x = some (fin (pos 2));
    victim_position_y = some (fin (pos 1));
    event_time_seconds = some (fin (pos time));
    weapon = some weapon;
  };
})

-- two kills by p2, the second twice, and the statistics of p1
abbrev pub events : List AnyEnvelope
events =
    killed_at "k1" 40 "AKM"
    ∷ killed_at "k2" 33 "AKM"
    ∷ killed_at "k2" 33 "AKM"
    ∷ event_with first_id (pos 3)
    ∷ []

abbrev rows : List BronzeRow
rows = map row_of events

silver_rows_lem_example :
    ((silver_rows rows fresh_state).kill_events ≡ map kill_event_row (kept_rows rows))
    × (get "m1" "p1" (silver_rows rows fresh_state).player_stats ≡ (
        if any (mentions "m1" "p1") (kept_rows rows)
        then some (totals_of (keep (is_of "m1" "p1") (kept_rows rows)))
        else none))
silver_rows_lem_example = silver_rows_lem rows "m1" "p1"

abbrev kill_rows : List KillRow
kill_rows = map kill_row_of (silver_of events).kill_events

abbrev p2 : PlayerRow
p2 = record { match_id = "m1"; player_id = "p2"; kills = pos 0 }

gold_row_lem_example :
    let g = gold_row f64 (group_rows kill_rows []) p2 in
    (g.match_id ≡ "m1") × (g.player_id ≡ "p2") × IsRowFor f64 p2 (kills_by "m1" "p2" kill_rows) g
gold_row_lem_example = gold_row_lem f64 kill_rows p2

gold_row_of-Summarizes_example :
    Summarizes f64
      (kills_by "m1" "p2" kill_rows)
      (gold_row_of f64 p2 (some (kills_by "m1" "p2" kill_rows)))
gold_row_of-Summarizes_example = gold_row_of-Summarizes f64 p2 (kills_by "m1" "p2" kill_rows)

project_lem_example :
    (g : Table) × (project f64 in_order tables "now" events ≡ ok g)
    × IsTable tables
        (length (gold_of f64 in_order events))
        gold_schema
        (gold_columns "now" (gold_of f64 in_order events))
        g
project_lem_example = project_lem f64 in_order tables "now" events tables-IsArrow

abbrev p1 : PlayerRow
p1 = record { match_id = "m1"; player_id = "p1"; kills = pos 9 }

-- a match summary that reports nine kills, again, and a kill by another player
abbrev summaries : List AnyEnvelope
summaries = event_with first_id (pos 9) ∷ event_with first_id (pos 9) ∷ killed_at "k1" 40 "AKM" ∷ []

one_left : length (keep (is_stat_of "m1" "p1") (fresh_events summaries)) ≡ 1
unfolding fresh
one_left = refl

other : ¬ ◌≡◌ {A = String} "p2" "p1"
other h = cc ((str_eq_iff "p2" "p1").1 h)

gold_row_stats_example :
    (gold_row f64 (group_rows (map kill_row_of (silver_of summaries).kill_events) []) p1).kills
    ≡ pos (length (keep (is_stat_of "m1" "p1") (fresh_events summaries)))
gold_row_stats_example =
    gold_row_stats f64 p1 summaries refl refl (tt, (tt, ((λ h. other h.1), tt)))
      (omega (arith, one_left))
