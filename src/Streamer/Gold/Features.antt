-- ===== src/Streamer/Gold/Features.antt =====
-- The features that gold.rs computes from a player's kills.
use mathlib.Core.Path.{subst}
use fps_anticheat_data_platf.Prelude.{
  ◌+◌, ◌-◌, ◌≤◌, ◌≡◌, refl, ◌∙◌, Bool, false, not, ◌&&◌, ◌||◌, String, Option, none, some, List, [],
  ◌∷◌, length, is_some_and, keep, any, if◌then◌else◌, ltb, str_eq, str_eq_iff, arith,
}
use fps_anticheat_data_platf.Prelude.Int.{pos}
use fps_anticheat_data_platf.Prelude.Float.{Float, is_finite, nought, le, Arithmetic}
use fps_anticheat_data_platf.Prelude.Text.{is_blank}
use fps_anticheat_data_platf.Streamer.Dedup.{contains}
use fps_anticheat_data_platf.Streamer.Gold.{
  KillRecord, PlayerRow, GoldRow, filter_map, sort_floats, min_interval_of, collect_set,
  unique_weapons_of, kill_intervals, short_intervals, distances_of, gold_row_of,
}
use fps_anticheat_data_platf.Streamer.Gold.Sorted.{IsSortOf, sort_floats-IsSortOf}
use fps_anticheat_data_platf.Streamer.Gold.Median.{
  IsMedian, median_of-IsMedian, steps, intervals_of-steps, distance, distances_of-known,
}
use fps_anticheat_data_platf.Streamer.Gold.Intervals.{
  IsLeast, min_interval_of-IsLeast, short_iff, intervals_of-NonNegative, length-short_intervals-le,
  length-keep-le, length-filter_map-le,
}

-- the list holds no text twice
abbrev pub Distinct : List String → Type 0
unfolding contains
Distinct [] = Unit
Distinct (w ∷ ws) = (contains w ws ≡ false) × Distinct ws

contains-collect_set :
    (set ws : List String) (w : String)
    → contains w (collect_set set ws) ≡ (contains w set || contains w ws)
unfolding contains collect_set
contains-collect_set set [] w = ground arith
contains-collect_set set (v ∷ ws) w =
    ground
      (arith, contains-collect_set (if contains v set then set else v ∷ set) ws w, str_eq_iff v w)

collect_set-Distinct : (set ws : List String) → Distinct set → Distinct (collect_set set ws)
unfolding collect_set
collect_set-Distinct set [] d = d
collect_set-Distinct set (w ∷ ws) d =
    collect_set-Distinct (if contains w set then set else w ∷ set) ws (ground arith)

length-collect_set-le :
    (set ws : List String) → length (collect_set set ws) ≤ length set + length ws
unfolding collect_set
length-collect_set-le set [] = omega arith
length-collect_set-le set (w ∷ ws) =
    ground (arith, length-collect_set-le (if contains w set then set else w ∷ set) ws)

abbrev pub weapon_in : String → Option String → Bool
weapon_in w none = false
weapon_in w (some v) = not (is_blank v) && str_eq v w

contains-weapons :
    (records : List KillRecord) (w : String)
    → contains w (keep (λ v. not (is_blank v)) (filter_map (λ (r : KillRecord). r.weapon) records))
      ≡ any (λ r. weapon_in w r.weapon) records
unfolding contains filter_map
contains-weapons [] w = refl
contains-weapons (r ∷ rest) w = ground (arith, contains-weapons rest w)

-- A row of features as a summary of the kills it is made of.
pub record Summarizes (f : Arithmetic) (records : List KillRecord) (g : GoldRow) : Type 0 where
  pub kills : g.kills ≡ pos (length records)
  pub intervals : List Float
  pub times :
      (ts : List Float) × IsSortOf (filter_map (λ r. r.event_time_secs) records) ts
      × (intervals ≡ keep (λ d. le nought d) (steps f ts))
  pub least : IsLeast intervals g.min_interval
  pub short : g.short_interval_count ≡ pos (length (keep (λ v. le v (f.literal 10 0)) intervals))
  pub some_short :
      (length (keep (λ v. le v (f.literal 10 0)) intervals) ≤ length records - 1)
      × (is_some_and g.min_interval (λ v. le v (f.literal 10 0))
          ≡ ltb 0 (length (keep (λ v. le v (f.literal 10 0)) intervals)))
  pub median :
      (ds : List Float) × IsSortOf (keep is_finite (filter_map (distance f) records)) ds
      × IsMedian f ds g.median_distance
  pub weapons :
      (ws : List String) × (g.unique_weapons ≡ pos (length ws))
      × (length ws ≤ length records)
      × Distinct ws
      × ((w : String) → contains w ws ≡ any (λ r. weapon_in w r.weapon) records)

-- The features of a player with kills: the kills are counted; the intervals are the steps from each
-- known time to the next, in ascending order, that are not negative; the minimum interval is one of
-- them and none is less, or there is none; the short intervals are those of at most ten seconds, and
-- are fewer than the kills; the median is the middle of the known finite distances in ascending
-- order, the mean of the two in the middle where their number is even, or none if there is no such
-- distance; and the weapons counted are the different non-empty ones, at most as many as the kills.
pub gold_row_of-Summarizes :
    (f : Arithmetic) (row : PlayerRow) (records : List KillRecord)
    → Summarizes f records (gold_row_of f row (some records))
unfolding gold_row_of short_intervals unique_weapons_of kill_intervals contains
gold_row_of-Summarizes f row records =
    let intervals = kill_intervals f records in
    let times = filter_map (λ (r : KillRecord). r.event_time_secs) records in
    let least =
      min_interval_of-IsLeast intervals (intervals_of-NonNegative f (sort_floats times)) in
    let names = filter_map (λ (r : KillRecord). r.weapon) records in
    let named = keep (λ w. not (is_blank w)) names in
    record {
      kills = refl;
      intervals = intervals;
      times =
          (sort_floats times, sort_floats-IsSortOf times, intervals_of-steps f (sort_floats times));
      least = least;
      short = refl;
      some_short = (
        length-short_intervals-le f records,
        short_iff intervals (min_interval_of intervals) (f.literal 10 0) least,
      );
      median = (
        sort_floats (distances_of f records),
        subst (λ (l : List Float). IsSortOf l (sort_floats (distances_of f records)))
            (distances_of-known f records) (sort_floats-IsSortOf (distances_of f records)),
        median_of-IsMedian f (sort_floats (distances_of f records)),
      );
      weapons = (
        collect_set [] named,
        refl,
        omega (
          arith,
          length-collect_set-le [] named,
          length-keep-le (λ (w : String). not (is_blank w)) names,
          length-filter_map-le (λ (r : KillRecord). r.weapon) records,
        ),
        collect_set-Distinct [] named tt,
        λ w. contains-collect_set [] named w ∙ contains-weapons records w,
      );
    }
