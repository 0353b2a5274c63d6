-- ===== src/Streamer/Silver/Reads.antt =====
-- What transform/silver.rs reads of a table that transform/arrow.rs wrote.
use fps_anticheat_data_platf.Prelude.{
  ℕ, suc, ◌+◌, ◌≡◌, refl, ap, ◌∙◌, some, List, [], ◌∷◌, map, length, get_elem?, arith, append-nil,
}
use fps_anticheat_data_platf.Prelude.Result.{ok}
use fps_anticheat_data_platf.Streamer.Domain.{AnyEnvelope, event_id, match_id, player_id}
use fps_anticheat_data_platf.Streamer.Columns.{
  Arrow, IsArrow, IsTable, build, FillAll, column_named, at_cell, length-map, All_some,
}
use fps_anticheat_data_platf.Streamer.Bronze.{
  build_schema, bronze_columns, events_to_record_batch, event_time_of, killer_name_of,
  victim_name_of, killer_position_x_of, killer_position_y_of, victim_position_x_of,
  victim_position_y_of, event_time_seconds_of, weapon_of, kills_of, damage_dealt_of,
  headshot_kills_of, walk_distance_of, ride_distance_of, swim_distance_of, survival_duration_of,
  win_place_perc_of,
}
use fps_anticheat_data_platf.Streamer.Silver.{BronzeRow, bronze_row, bronze_rows, rows_from}

-- the row that an event is written to
abbrev pub row_of : AnyEnvelope → BronzeRow
row_of e = record {
  event_id = event_id e;
  match_id = match_id e;
  player_id = player_id e;
  event_time = event_time_of e;
  event_time_seconds = event_time_seconds_of e;
  killer_name = killer_name_of e;
  victim_name = victim_name_of e;
  killer_position_x = killer_position_x_of e;
  killer_position_y = killer_position_y_of e;
  victim_position_x = victim_position_x_of e;
  victim_position_y = victim_position_y_of e;
  weapon = weapon_of e;
  damage_dealt = damage_dealt_of e;
  kills = kills_of e;
  headshot_kills = headshot_kills_of e;
  walk_distance = walk_distance_of e;
  ride_distance = ride_distance_of e;
  swim_distance = swim_distance_of e;
  survival_duration = survival_duration_of e;
  win_place_perc = win_place_perc_of e;
}

pub rows_from-map {ℓ} :
    {A : Type ℓ} {R : Type 0} (read : ℕ → R) (f : A → R) (k : ℕ) (xs : List A)
    → ((i : ℕ) (x : A) → get_elem? xs i ≡ some x → read (i + k) ≡ f x)
    → rows_from read k (length xs) ≡ map f xs
unfolding rows_from
rows_from-map read f k [] same = refl
rows_from-map read f k (x ∷ xs) same =
    let first : read k ≡ f x = ap read (omega arith) ∙ same 0 x refl in
    let rest =
      rows_from-map read f (suc k) xs (λ i y h. ap read (omega arith) ∙ same (suc i) y h) in
    rw first (ap (λ t. f x ∷ t) rest)

bronze_columns-FillAll :
    (events : List AnyEnvelope) → FillAll (length events) build_schema (bronze_columns events)
unfolding bronze_columns
bronze_columns-FillAll events = search (length-map, All_some)

-- all the rows of a table
pub table_rows {ℓ} :
    {A : Type ℓ} {R : Type 0} (read : ℕ → R) (f : A → R) (xs : List A)
    → ((i : ℕ) (x : A) → get_elem? xs i ≡ some x → read i ≡ f x)
    → rows_from read 0 (length xs) ≡ map f xs
table_rows read f xs same = rows_from-map read f 0 xs (λ i x h. ap read (omega arith) ∙ same i x h)

module _ {B : Type 0} (lib : Arrow B) (events : List AnyEnvelope) (b : B)
    (table : IsTable lib (length events) build_schema (bronze_columns events) b) where
  bronze_row-row_of :
      (i : ℕ) (e : AnyEnvelope) → get_elem? events i ≡ some e → bronze_row lib b i ≡ row_of e
  unfolding bronze_row bronze_columns column_named
  bronze_row-row_of i e h =
      rw
        (
          table.columns "event_id",
          table.columns "match_id",
          table.columns "player_id",
          table.columns "event_time",
          table.columns "event_time_seconds",
          table.columns "killer_name",
          table.columns "victim_name",
          table.columns "killer_position_x",
          table.columns "killer_position_y",
          table.columns "victim_position_x",
          table.columns "victim_position_y",
          table.columns "weapon",
          table.columns "damage_dealt",
          table.columns "kills",
          table.columns "headshot_kills",
          table.columns "walk_distance",
          table.columns "ride_distance",
          table.columns "swim_distance",
          table.columns "survival_duration",
          table.columns "win_place_perc",
        )
        (simp (at_cell events i e h))

  bronze_rows-map : bronze_rows lib (b ∷ []) ≡ map row_of events
  unfolding bronze_rows
  bronze_rows-map =
      rw (table.rows, append-nil) (table_rows (bronze_row lib b) row_of events bronze_row-row_of)

pub bronze_rows-events_to_record_batch :
    {B : Type 0} (lib : Arrow B) (events : List AnyEnvelope)
    → IsArrow lib
    → (b : B) × (events_to_record_batch lib events ≡ ok b)
      × (lib.num_rows b ≡ length events)
      × (bronze_rows lib (b ∷ []) ≡ map row_of events)
unfolding events_to_record_batch
bronze_rows-events_to_record_batch lib events laws =
    let (b, built, table) =
      build lib (length events) build_schema (bronze_columns events) laws refl
        (bronze_columns-FillAll events) in
    (b, rw built, table.rows, bronze_rows-map lib events b table)
