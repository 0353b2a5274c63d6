-- ===== src/Streamer/Gold/Reads.antt =====
-- The tables that transform/silver.rs writes, as transform/gold.rs reads them, and the three steps
-- from events to features.
use fps_anticheat_data_platf.Prelude.{◌≡◌, refl, String, List, [], ◌∷◌, map, length, unwrap_or}
use fps_anticheat_data_platf.Prelude.Float.{Arithmetic}
use fps_anticheat_data_platf.Prelude.Result.{Result, ok, ◌>>=◌}
use fps_anticheat_data_platf.Streamer.Action.{AppError}
use fps_anticheat_data_platf.Streamer.Domain.{AnyEnvelope}
use fps_anticheat_data_platf.Streamer.Columns.{
  Arrow, IsArrow, IsTable, build, FillAll, column_named, at_cell, length-map, All_some,
}
use fps_anticheat_data_platf.Streamer.Groups.{Entry}
use fps_anticheat_data_platf.Streamer.Bronze.{events_to_record_batch}
use fps_anticheat_data_platf.Streamer.Silver.{
  KillEventRow, PlayerStats, PlayerStatsMap, SilverState, kill_events_schema, player_match_schema,
  kill_event_columns, player_match_columns, rows_from, silver_rows, fresh_state, process_silver,
}
use fps_anticheat_data_platf.Streamer.Silver.Reads.{
  row_of, table_rows, bronze_rows-events_to_record_batch,
}
use fps_anticheat_data_platf.Streamer.Gold.{
  KillRow, PlayerRow, GoldRow, kill_row, player_row, group_rows, gold_row, gold_schema,
  gold_columns, generate_gold,
}

abbrev pub kill_row_of : KillEventRow → KillRow
kill_row_of r = record {
  match_id = r.match_id;
  killer_name = unwrap_or r.killer_name "";
  details = record {
    event_time_secs = r.event_time_seconds;
    killer_pos_x = r.killer_position_x;
    killer_pos_y = r.killer_position_y;
    victim_pos_x = r.victim_position_x;
    victim_pos_y = r.victim_position_y;
    weapon = r.weapon;
  };
}

abbrev pub player_row_of : Entry PlayerStats → PlayerRow
player_row_of e = record { match_id = e.match_id; player_id = e.player_id; kills = e.value.kills }

kill_event_columns-FillAll :
    (rows : List KillEventRow) → FillAll (length rows) kill_events_schema (kill_event_columns rows)
unfolding kill_event_columns
kill_event_columns-FillAll rows = search (length-map, All_some)

player_match_columns-FillAll :
    (entries : PlayerStatsMap)
    → FillAll (length entries) player_match_schema (player_match_columns entries)
unfolding player_match_columns
player_match_columns-FillAll entries = search (length-map, All_some)

gold_columns-FillAll :
    (created_at : String) (rows : List GoldRow)
    → FillAll (length rows) gold_schema (gold_columns created_at rows)
unfolding gold_columns
gold_columns-FillAll created_at rows = search (length-map, All_some)

module _ {B : Type 0} (lib : Arrow B) where
  kill_rows-map :
      (rows : List KillEventRow) (b : B)
      → IsTable lib (length rows) kill_events_schema (kill_event_columns rows) b
      → rows_from (kill_row lib b) 0 (lib.num_rows b) ≡ map kill_row_of rows
  unfolding kill_row kill_event_columns column_named
  kill_rows-map rows b table = rw table.rows (
      table_rows (kill_row lib b) kill_row_of rows λ i r h.
        rw
          (
            table.columns "match_id",
            table.columns "killer_name",
            table.columns "event_time_seconds",
            table.columns "killer_position_x",
            table.columns "killer_position_y",
            table.columns "victim_position_x",
            table.columns "victim_position_y",
            table.columns "weapon",
          )
          (simp (at_cell rows i r h)))

  player_rows-map :
      (entries : PlayerStatsMap) (b : B)
      → IsTable lib (length entries) player_match_schema (player_match_columns entries) b
      → rows_from (player_row lib b) 0 (lib.num_rows b) ≡ map player_row_of entries
  unfolding player_row player_match_columns column_named
  player_rows-map entries b table = rw table.rows (
      table_rows (player_row lib b) player_row_of entries λ i e h.
        rw (table.columns "match_id", table.columns "player_id", table.columns "kills")
          (simp (at_cell entries i e h)))

-- what the three steps mean on lists of rows
abbrev pub silver_of : List AnyEnvelope → SilverState
silver_of events = silver_rows (map row_of events) fresh_state

module _ (f : Arithmetic) (iterate : PlayerStatsMap → PlayerStatsMap) where
  abbrev pub gold_of : List AnyEnvelope → List GoldRow
  gold_of events =
      map (gold_row f (group_rows (map kill_row_of (silver_of events).kill_events) []))
        (map player_row_of (iterate (silver_of events).player_stats))

  module _ {B : Type 0} (lib : Arrow B) (created_at : String) where
    -- arrow.rs, then silver.rs, then gold.rs
    unfoldable pub project : List AnyEnvelope → Result AppError B
    unfolding events_to_record_batch process_silver generate_gold
    project events = do
      batch ← events_to_record_batch lib events
      (silver_ke, silver_pm) ← process_silver lib iterate (batch ∷ [])
      generate_gold f lib created_at silver_ke silver_pm

-- A table of features for every list of events: the three steps never fail, and their last table
-- has the columns of the rows that the steps mean on lists, where the Arrow library keeps the
-- columns it is given.
pub project_lem :
    (f : Arithmetic) (iterate : PlayerStatsMap → PlayerStatsMap) {B : Type 0} (lib : Arrow B)
    (created_at : String) (events : List AnyEnvelope)
    → IsArrow lib
    → (g : B) × (project f iterate lib created_at events ≡ ok g)
      × IsTable lib
          (length (gold_of f iterate events))
          gold_schema
          (gold_columns created_at (gold_of f iterate events))
          g
unfolding project process_silver generate_gold
project_lem f iterate lib created_at events laws =
    let (b, made, _, read) = bronze_rows-events_to_record_batch lib events laws in
    let kills = (silver_of events).kill_events in
    let players = iterate (silver_of events).player_stats in
    let rows = gold_of f iterate events in
    let (ke, ke_built, ke_table) =
      build lib (length kills) kill_events_schema (kill_event_columns kills) laws refl
        (kill_event_columns-FillAll kills) in
    let (pm, pm_built, pm_table) =
      build lib (length players) player_match_schema (player_match_columns players) laws refl
        (player_match_columns-FillAll players) in
    let (g, g_built, g_table) =
      build lib (length rows) gold_schema (gold_columns created_at rows) laws refl
        (gold_columns-FillAll created_at rows) in
    (
      g,
      rw
          (
            made,
            read,
            ke_built,
            pm_built,
            kill_rows-map lib kills ke ke_table,
            player_rows-map lib players pm pm_table,
            g_built,
          )
          refl,
      g_table,
    )
