-- ===== src/Streamer/Silver.antt =====
-- apps/rust-structured-streamer/src/transform/silver.rs: from Bronze tables to the kill events and
-- the totals of each player in a match. The twelve vectors of kill events are one list of records.
-- The iteration order of the HashMap is the parameter `iterate`.
pub mod Fresh
pub mod Totals
pub mod Reads
use fps_anticheat_data_platf.Prelude.{
  ℕ, zero, suc, Bool, true, false, not, ◌&&◌, String, Option, none, some, List, [], ◌∷◌, ◌++◌, map,
  unwrap_or, if◌then◌else◌,
}
use fps_anticheat_data_platf.Prelude.Int.{ℤ, pos, ltb_ℤ}
use fps_anticheat_data_platf.Prelude.Float.{Float, nought, fmax}
use fps_anticheat_data_platf.Prelude.Text.{is_blank}
use fps_anticheat_data_platf.Prelude.Result.{Result, ok, err, ◌>>=◌}
use fps_anticheat_data_platf.Streamer.Dedup.{contains}
use fps_anticheat_data_platf.Streamer.Columns.{
  Column, text, int, float, utf8, int64, float64, Schema, Arrow, text_column, int_column,
  float_column, opt_cell, text_or_default,
}
use fps_anticheat_data_platf.Streamer.Bronze.{field, arrow_or}
use fps_anticheat_data_platf.Streamer.Groups.{Entry, upsert}
use fps_anticheat_data_platf.Streamer.Action.{AppError}

abbrev pub kill_events_schema : Schema
kill_events_schema =
    field "event_id" utf8 false
    ∷ field "match_id" utf8 false
    ∷ field "event_time" utf8 true
    ∷ field "event_time_seconds" float64 true
    ∷ field "killer_name" utf8 true
    ∷ field "victim_name" utf8 true
    ∷ field "killer_position_x" float64 true
    ∷ field "killer_position_y" float64 true
    ∷ field "victim_position_x" float64 true
    ∷ field "victim_position_y" float64 true
    ∷ field "weapon" utf8 true
    ∷ field "damage_dealt" float64 true
    ∷ []

abbrev pub player_match_schema : Schema
player_match_schema =
    field "match_id" utf8 false
    ∷ field "player_id" utf8 false
    ∷ field "kills" int64 true
    ∷ field "headshot_kills" int64 true
    ∷ field "damage_dealt" float64 true
    ∷ field "walk_distance" float64 true
    ∷ field "ride_distance" float64 true
    ∷ field "swim_distance" float64 true
    ∷ field "survival_duration" float64 true
    ∷ field "win_place_perc" float64 true
    ∷ []

-- the cells that one round of the loop reads
pub record BronzeRow : Type 0 where
  pub event_id : String
  pub match_id : String
  pub player_id : String
  pub event_time : Option String
  pub event_time_seconds : Option Float
  pub killer_name : Option String
  pub victim_name : Option String
  pub killer_position_x : Option Float
  pub killer_position_y : Option Float
  pub victim_position_x : Option Float
  pub victim_position_y : Option Float
  pub weapon : Option String
  pub damage_dealt : Option Float
  pub kills : Option ℤ
  pub headshot_kills : Option ℤ
  pub walk_distance : Option Float
  pub ride_distance : Option Float
  pub swim_distance : Option Float
  pub survival_duration : Option Float
  pub win_place_perc : Option Float

-- a row of the silver_kill_events table
pub record KillEventRow : Type 0 where
  pub event_id : String
  pub match_id : String
  pub event_time : Option String
  pub event_time_seconds : Option Float
  pub killer_name : Option String
  pub victim_name : Option String
  pub killer_position_x : Option Float
  pub killer_position_y : Option Float
  pub victim_position_x : Option Float
  pub victim_position_y : Option Float
  pub weapon : Option String
  pub damage_dealt : Option Float

pub record PlayerStats : Type 0 where
  pub kills : ℤ
  pub headshot_kills : ℤ
  pub damage_dealt : Float
  pub walk_distance : Float
  pub ride_distance : Float
  pub swim_distance : Float
  pub survival_duration : Float
  pub win_place_perc : Float

abbrev pub no_stats : PlayerStats
no_stats = record {
  kills = pos 0;
  headshot_kills = pos 0;
  damage_dealt = nought;
  walk_distance = nought;
  ride_distance = nought;
  swim_distance = nought;
  survival_duration = nought;
  win_place_perc = nought;
}

-- the rows `row`, `row + 1`, …, `n` of them
unfoldable pub rows_from : {R : Type 0} → (ℕ → R) → ℕ → ℕ → List R
rows_from read row zero = []
rows_from read row (suc n) = read row ∷ rows_from read (suc row) n

module _ {B : Type 0} (lib : Arrow B) where
  abbrev get_string_col : B → String → Option (List (Option String))
  get_string_col batch name = text_column (lib.column_by_name batch name)

  abbrev get_f64_col : B → String → Option (List (Option Float))
  get_f64_col batch name = float_column (lib.column_by_name batch name)

  abbrev get_i64_col : B → String → Option (List (Option ℤ))
  get_i64_col batch name = int_column (lib.column_by_name batch name)

  unfoldable pub bronze_row : B → ℕ → BronzeRow
  bronze_row batch row = record {
    event_id = text_or_default lib.null_text (get_string_col batch "event_id") row;
    match_id = text_or_default lib.null_text (get_string_col batch "match_id") row;
    player_id = text_or_default lib.null_text (get_string_col batch "player_id") row;
    event_time = opt_cell (get_string_col batch "event_time") row;
    event_time_seconds = opt_cell (get_f64_col batch "event_time_seconds") row;
    killer_name = opt_cell (get_string_col batch "killer_name") row;
    victim_name = opt_cell (get_string_col batch "victim_name") row;
    killer_position_x = opt_cell (get_f64_col batch "killer_position_x") row;
    killer_position_y = opt_cell (get_f64_col batch "killer_position_y") row;
    victim_position_x = opt_cell (get_f64_col batch "victim_position_x") row;
    victim_position_y = opt_cell (get_f64_col batch "victim_position_y") row;
    weapon = opt_cell (get_string_col batch "weapon") row;
    damage_dealt = opt_cell (get_f64_col batch "damage_dealt") row;
    kills = opt_cell (get_i64_col batch "kills") row;
    headshot_kills = opt_cell (get_i64_col batch "headshot_kills") row;
    walk_distance = opt_cell (get_f64_col batch "walk_distance") row;
    ride_distance = opt_cell (get_f64_col batch "ride_distance") row;
    swim_distance = opt_cell (get_f64_col batch "swim_distance") row;
    survival_duration = opt_cell (get_f64_col batch "survival_duration") row;
    win_place_perc = opt_cell (get_f64_col batch "win_place_perc") row;
  }

  unfoldable pub bronze_rows : List B → List BronzeRow
  unfolding bronze_row rows_from
  bronze_rows [] = []
  bronze_rows (batch ∷ rest) =
      rows_from (bronze_row batch) 0 (lib.num_rows batch) ++ bronze_rows rest

abbrev pub killer_of : BronzeRow → String
killer_of r = unwrap_or r.killer_name r.player_id

unfoldable pub kill_event_row : BronzeRow → KillEventRow
kill_event_row r = record {
  event_id = r.event_id;
  match_id = r.match_id;
  event_time = r.event_time;
  event_time_seconds = r.event_time_seconds;
  killer_name = some (killer_of r);
  victim_name = r.victim_name;
  killer_position_x = r.killer_position_x;
  killer_position_y = r.killer_position_y;
  victim_position_x = r.victim_position_x;
  victim_position_y = r.victim_position_y;
  weapon = r.weapon;
  damage_dealt = r.damage_dealt;
}

-- `if let Some(v) = cell { total = total.max(v) }`
abbrev pub raise_int : ℤ → Option ℤ → ℤ
raise_int total none = total
raise_int total (some v) = if ltb_ℤ total v then v else total

abbrev pub raise : Float → Option Float → Float
raise total none = total
raise total (some v) = fmax total v

unfoldable pub raise_stats : BronzeRow → PlayerStats → PlayerStats
raise_stats r entry = record {
  kills = raise_int entry.kills r.kills;
  headshot_kills = raise_int entry.headshot_kills r.headshot_kills;
  damage_dealt = raise entry.damage_dealt r.damage_dealt;
  walk_distance = raise entry.walk_distance r.walk_distance;
  ride_distance = raise entry.ride_distance r.ride_distance;
  swim_distance = raise entry.swim_distance r.swim_distance;
  survival_duration = raise entry.survival_duration r.survival_duration;
  win_place_perc = raise entry.win_place_perc r.win_place_perc;
}

abbrev pub PlayerStatsMap : Type 0
PlayerStatsMap = List (Entry PlayerStats)

-- `Cập nhật Player Match Aggregations`
unfoldable pub count_player : BronzeRow → PlayerStatsMap → PlayerStatsMap
unfolding upsert raise_stats
count_player r stats =
    if not (is_blank r.match_id) && not (is_blank r.player_id)
    then upsert no_stats r.match_id r.player_id (raise_stats r) stats
    else stats

abbrev pub with_victim : String → Option String → PlayerStatsMap → PlayerStatsMap
with_victim m none stats = stats
with_victim m (some victim) stats =
    if is_blank m then stats else upsert no_stats m victim (λ s. s) stats

unfoldable pub count_row : BronzeRow → PlayerStatsMap → PlayerStatsMap
unfolding count_player upsert
count_row r stats = with_victim r.match_id r.victim_name (count_player r stats)

pub record SilverState : Type 0 where
  pub seen_event_ids : List String
  pub kill_events : List KillEventRow
  pub player_stats : PlayerStatsMap

-- a non-empty identifier that was seen before
abbrev pub is_repeated : BronzeRow → List String → Bool
unfolding contains
is_repeated r seen = not (is_blank r.event_id) && contains r.event_id seen

abbrev pub see : BronzeRow → List String → List String
see r seen = if is_blank r.event_id then seen else r.event_id ∷ seen

-- one round of the loop over the rows
unfoldable pub silver_row : BronzeRow → SilverState → SilverState
unfolding contains kill_event_row count_row
silver_row r st = if is_repeated r st.seen_event_ids then st else record {
  seen_event_ids = see r st.seen_event_ids;
  kill_events = st.kill_events ++ kill_event_row r ∷ [];
  player_stats = count_row r st.player_stats;
}

unfoldable pub silver_rows : List BronzeRow → SilverState → SilverState
silver_rows [] st = st
silver_rows (r ∷ rest) st = silver_rows rest (silver_row r st)

unfoldable pub kill_event_columns : List KillEventRow → List Column
kill_event_columns rows =
    text (map (λ r. some r.event_id) rows)
    ∷ text (map (λ r. some r.match_id) rows)
    ∷ text (map (λ r. r.event_time) rows)
    ∷ float (map (λ r. r.event_time_seconds) rows)
    ∷ text (map (λ r. r.killer_name) rows)
    ∷ text (map (λ r. r.victim_name) rows)
    ∷ float (map (λ r. r.killer_position_x) rows)
    ∷ float (map (λ r. r.killer_position_y) rows)
    ∷ float (map (λ r. r.victim_position_x) rows)
    ∷ float (map (λ r. r.victim_position_y) rows)
    ∷ text (map (λ r. r.weapon) rows)
    ∷ float (map (λ r. r.damage_dealt) rows)
    ∷ []

unfoldable pub player_match_columns : PlayerStatsMap → List Column
player_match_columns entries =
    text (map (λ e. some e.match_id) entries)
    ∷ text (map (λ e. some e.player_id) entries)
    ∷ int (map (λ e. some e.value.kills) entries)
    ∷ int (map (λ e. some e.value.headshot_kills) entries)
    ∷ float (map (λ e. some e.value.damage_dealt) entries)
    ∷ float (map (λ e. some e.value.walk_distance) entries)
    ∷ float (map (λ e. some e.value.ride_distance) entries)
    ∷ float (map (λ e. some e.value.swim_distance) entries)
    ∷ float (map (λ e. some e.value.survival_duration) entries)
    ∷ float (map (λ e. some e.value.win_place_perc) entries)
    ∷ []

abbrev pub fresh_state : SilverState
fresh_state = record { seen_event_ids = []; kill_events = []; player_stats = [] }

module _ {B : Type 0} (lib : Arrow B) (iterate : PlayerStatsMap → PlayerStatsMap) where
  unfoldable pub process_silver : List B → Result AppError (B × B)
  unfolding silver_rows kill_event_columns player_match_columns
  process_silver batches =
      let st = silver_rows (bronze_rows lib batches) fresh_state in
      do
        ke_batch ←
            arrow_or "Khởi tạo silver_kill_events RecordBatch thất bại: "
              (lib.try_new kill_events_schema (kill_event_columns st.kill_events))
        pm_batch ←
            arrow_or "Khởi tạo silver_player_match RecordBatch thất bại: "
              (lib.try_new player_match_schema (player_match_columns (iterate st.player_stats)))
        ok (ke_batch, pm_batch)
