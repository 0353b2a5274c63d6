-- ===== src/Streamer/Gold.antt =====
-- apps/rust-structured-streamer/src/transform/gold.rs: the features of a player in a match, from the
-- two Silver tables. Float arithmetic is the parameter `f`; `sort_by` is a stable insertion sort,
-- whose order of NaN is not Rust's, which leaves it open.
pub mod Median
pub mod Intervals
pub mod Features
pub mod Sorted
pub mod Grouping
pub mod Reads
pub mod Counts
use fps_anticheat_data_platf.Prelude.{
  ℕ, zero, suc, ◌-◌, ◌/◌, ◌%◌, Bool, true, false, not, ◌&&◌, String, Option, none, some, List, [],
  ◌∷◌, ◌++◌, map, length, is_empty, get_elem?, unwrap_or, keep, if◌then◌else◌, ◌==◌,
}
use fps_anticheat_data_platf.Prelude.Int.{ℤ, pos}
use fps_anticheat_data_platf.Prelude.Float.{
  Float, pos_inf, nought, lt, le, fmin, is_finite, Arithmetic,
}
use fps_anticheat_data_platf.Prelude.Text.{is_blank}
use fps_anticheat_data_platf.Prelude.Result.{Result}
use fps_anticheat_data_platf.Streamer.Dedup.{contains}
use fps_anticheat_data_platf.Streamer.Columns.{
  Column, text, int, float, utf8, int64, float64, Schema, Arrow, text_column, int_column,
  float_column, opt_cell, text_or_default,
}
use fps_anticheat_data_platf.Streamer.Bronze.{field, arrow_or}
use fps_anticheat_data_platf.Streamer.Groups.{Entry, get, upsert}
use fps_anticheat_data_platf.Streamer.Silver.{rows_from}
use fps_anticheat_data_platf.Streamer.Action.{AppError}

abbrev pub gold_schema : Schema
gold_schema =
    field "match_id" utf8 false
    ∷ field "player_id" utf8 false
    ∷ field "kills" int64 true
    ∷ field "minimum_kill_interval_seconds" float64 true
    ∷ field "median_kill_distance_coordinate_units" float64 true
    ∷ field "short_kill_interval_count" int64 true
    ∷ field "unique_weapons_used" int64 true
    ∷ field "feature_version" utf8 false
    ∷ field "created_at" utf8 false
    ∷ []

pub record KillRecord : Type 0 where
  pub event_time_secs : Option Float
  pub killer_pos_x : Option Float
  pub killer_pos_y : Option Float
  pub victim_pos_x : Option Float
  pub victim_pos_y : Option Float
  pub weapon : Option String

-- the cells that one round of each of the two loops reads
pub record KillRow : Type 0 where
  pub match_id : String
  pub killer_name : String
  pub details : KillRecord

pub record PlayerRow : Type 0 where
  pub match_id : String
  pub player_id : String
  pub kills : ℤ

-- what is pushed for a player
pub record GoldRow : Type 0 where
  pub match_id : String
  pub player_id : String
  pub kills : ℤ
  pub min_interval : Option Float
  pub median_distance : Option Float
  pub short_interval_count : ℤ
  pub unique_weapons : ℤ

module _ {B : Type 0} (lib : Arrow B) where
  unfoldable pub kill_row : B → ℕ → KillRow
  kill_row ke r = record {
    match_id = text_or_default lib.null_text (text_column (lib.column_by_name ke "match_id")) r;
    killer_name = unwrap_or (opt_cell (text_column (lib.column_by_name ke "killer_name")) r) "";
    details = record {
      event_time_secs = opt_cell (float_column (lib.column_by_name ke "event_time_seconds")) r;
      killer_pos_x = opt_cell (float_column (lib.column_by_name ke "killer_position_x")) r;
      killer_pos_y = opt_cell (float_column (lib.column_by_name ke "killer_position_y")) r;
      victim_pos_x = opt_cell (float_column (lib.column_by_name ke "victim_position_x")) r;
      victim_pos_y = opt_cell (float_column (lib.column_by_name ke "victim_position_y")) r;
      weapon = opt_cell (text_column (lib.column_by_name ke "weapon")) r;
    };
  }

  unfoldable pub player_row : B → ℕ → PlayerRow
  player_row pm r = record {
    match_id = text_or_default lib.null_text (text_column (lib.column_by_name pm "match_id")) r;
    player_id = text_or_default lib.null_text (text_column (lib.column_by_name pm "player_id")) r;
    kills = unwrap_or (opt_cell (int_column (lib.column_by_name pm "kills")) r) (pos 0);
  }

abbrev pub KillsByPlayer : Type 0
KillsByPlayer = List (Entry (List KillRecord))

unfoldable pub group_row : KillRow → KillsByPlayer → KillsByPlayer
unfolding upsert
group_row r kills_by_player =
    if not (is_blank r.match_id) && not (is_blank r.killer_name)
    then upsert [] r.match_id r.killer_name (λ records. records ++ r.details ∷ []) kills_by_player
    else kills_by_player

unfoldable pub group_rows : List KillRow → KillsByPlayer → KillsByPlayer
unfolding group_row
group_rows [] kills_by_player = kills_by_player
group_rows (r ∷ rest) kills_by_player = group_rows rest (group_row r kills_by_player)

-- `iter().filter_map(f).collect()`
unfoldable pub filter_map {ℓ κ} : {A : Type ℓ} {C : Type κ} → (A → Option C) → List A → List C
filter_map g [] = []
filter_map g (x ∷ xs) = let rest = filter_map g xs in elim (g x) [ none ↦ rest | some y ↦ y ∷ rest ]

-- `sort_by(|a, b| a.partial_cmp(b).unwrap_or(Equal))`
unfoldable pub insert_float : Float → List Float → List Float
insert_float t [] = t ∷ []
insert_float t (u ∷ us) = let later = insert_float t us in if lt u t then u ∷ later else t ∷ u ∷ us

unfoldable pub sort_floats : List Float → List Float
unfolding insert_float
sort_floats [] = []
sort_floats (t ∷ ts) = insert_float t (sort_floats ts)

-- `intervals.iter().cloned().fold(f64::INFINITY, f64::min)`
unfoldable pub fold_min : Float → List Float → Float
fold_min acc [] = acc
fold_min acc (x ∷ xs) = fold_min (fmin acc x) xs

unfoldable pub min_interval_of : List Float → Option Float
unfolding fold_min
min_interval_of intervals = if is_empty intervals then none else some (fold_min pos_inf intervals)

-- the HashSet of the texts, as the list of those inserted
unfoldable pub collect_set : List String → List String → List String
unfolding contains
collect_set set [] = set
collect_set set (w ∷ ws) = collect_set (if contains w set then set else w ∷ set) ws

unfoldable pub unique_weapons_of : List KillRecord → List String
unfolding filter_map collect_set
unique_weapons_of records =
    collect_set [] (keep (λ w. not (is_blank w)) (filter_map (λ r. r.weapon) records))

module _ (f : Arithmetic) where
  unfoldable pub intervals_from : Float → List Float → List Float
  intervals_from before [] = []
  intervals_from before (t ∷ ts) =
      let diff = f.sub t before in
      let rest = intervals_from t ts in if le nought diff then diff ∷ rest else rest

  unfoldable pub intervals_of : List Float → List Float
  unfolding intervals_from
  intervals_of [] = []
  intervals_of (t ∷ ts) = intervals_from t ts

  unfoldable pub kill_intervals : List KillRecord → List Float
  unfolding filter_map sort_floats intervals_of
  kill_intervals records = intervals_of (sort_floats (filter_map (λ r. r.event_time_secs) records))

  -- `dt <= 10.0`
  unfoldable pub short_intervals : List Float → List Float
  short_intervals = keep (λ dt. le dt (f.literal 10 0))

  -- the distance, where all four coordinates are given and it is a finite number
  unfoldable pub finite_distance : Float → Float → Float → Float → Option Float
  finite_distance kx ky vx vy =
      let dist = f.sqrt (f.add (f.powi (f.sub kx vx) 2) (f.powi (f.sub ky vy) 2)) in
      if is_finite dist then some dist else none

  abbrev pub distance_of_four :
      Option Float → Option Float → Option Float → Option Float → Option Float
  unfolding finite_distance
  distance_of_four (some kx) (some ky) (some vx) (some vy) = finite_distance kx ky vx vy
  distance_of_four _ _ _ _ = none

  unfoldable pub distances_of : List KillRecord → List Float
  unfolding filter_map
  distances_of =
      filter_map λ r. distance_of_four r.killer_pos_x r.killer_pos_y r.victim_pos_x r.victim_pos_y

  -- `(distances[mid - 1] + distances[mid]) / 2.0`; `none` also where an index is out of range
  abbrev pub mean_of : Option Float → Option Float → Option Float
  mean_of (some a) (some b) = some (f.div (f.add a b) (f.literal 2 0))
  mean_of _ _ = none

  unfoldable pub median_of : List Float → Option Float
  median_of sorted =
      let n = length sorted in
      let mid = n / 2 in
      if n == 0
      then none
      else if n % 2 == 0
      then mean_of (get_elem? sorted (mid - 1)) (get_elem? sorted mid)
      else get_elem? sorted mid

  unfoldable pub gold_row_of : PlayerRow → Option (List KillRecord) → GoldRow
  unfolding kill_intervals min_interval_of short_intervals sort_floats distances_of median_of
      unique_weapons_of
  gold_row_of row (some records) = record {
    match_id = row.match_id;
    player_id = row.player_id;
    kills = pos (length records);
    min_interval = min_interval_of (kill_intervals records);
    median_distance = median_of (sort_floats (distances_of records));
    short_interval_count = pos (length (short_intervals (kill_intervals records)));
    unique_weapons = pos (length (unique_weapons_of records));
  }
  gold_row_of row none = record {
    match_id = row.match_id;
    player_id = row.player_id;
    kills = row.kills;
    min_interval = none;
    median_distance = none;
    short_interval_count = pos 0;
    unique_weapons = pos 0;
  }

  -- one round of the loop over the players
  unfoldable pub gold_row : KillsByPlayer → PlayerRow → GoldRow
  unfolding get gold_row_of
  gold_row kills_by_player row = gold_row_of row (get row.match_id row.player_id kills_by_player)

unfoldable pub gold_columns : String → List GoldRow → List Column
gold_columns created_at rows =
    text (map (λ r. some r.match_id) rows)
    ∷ text (map (λ r. some r.player_id) rows)
    ∷ int (map (λ r. some r.kills) rows)
    ∷ float (map (λ r. r.min_interval) rows)
    ∷ float (map (λ r. r.median_distance) rows)
    ∷ int (map (λ r. some r.short_interval_count) rows)
    ∷ int (map (λ r. some r.unique_weapons) rows)
    ∷ text (map (λ r. some "v1.0.0") rows)
    ∷ text (map (λ r. some created_at) rows)
    ∷ []

module _ (f : Arithmetic) {B : Type 0} (lib : Arrow B) (created_at_iso : String) where
  unfoldable pub generate_gold : B → B → Result AppError B
  unfolding kill_row player_row group_rows gold_row gold_columns rows_from
  generate_gold silver_ke silver_pm =
      let kills_by_player =
        group_rows (rows_from (kill_row lib silver_ke) 0 (lib.num_rows silver_ke)) [] in
      let rows =
        map (gold_row f kills_by_player)
          (rows_from (player_row lib silver_pm) 0 (lib.num_rows silver_pm)) in
      arrow_or "Khởi tạo gold RecordBatch thất bại: "
        (lib.try_new gold_schema (gold_columns created_at_iso rows))
