-- ===== src/Streamer/Silver/Totals.antt =====
-- The rows that silver.rs keeps, and what a player's totals are made of.
use fps_anticheat_data_platf.Prelude.{
  ◌≡◌, refl, sym, ap, ◌∙◌, inl, inr, Bool, false, not, ◌&&◌, ◌||◌, String, Option, none, some, List,
  [], ◌∷◌, ◌++◌, map, unwrap_or, is_some, any, if◌then◌else◌, str_eq, arith, Bool-cases,
  Option-cases, keep, append_assoc, append-nil,
}
use fps_anticheat_data_platf.Prelude.Int.{ℤ, pos, ltb_ℤ}
use fps_anticheat_data_platf.Prelude.Float.{Float, nought, fmax}
use fps_anticheat_data_platf.Prelude.Text.{is_blank}
use fps_anticheat_data_platf.Streamer.Silver.Fresh.{fresh, first_rows, first_rows-fresh}
use fps_anticheat_data_platf.Streamer.Groups.{get, get-upsert}
use fps_anticheat_data_platf.Streamer.Silver.{
  BronzeRow, PlayerStats, PlayerStatsMap, no_stats, kill_event_row, raise_int, raise, raise_stats,
  count_player, with_victim, count_row, SilverState, is_repeated, see, silver_row, silver_rows,
  fresh_state,
}

-- the row is the player's own, or names the player as the victim
abbrev pub is_of : String → String → BronzeRow → Bool
is_of m p r =
    not (is_blank r.match_id)
    && not (is_blank r.player_id)
    && str_eq r.match_id m
    && str_eq r.player_id p

abbrev pub is_victim : String → Option String → Bool
is_victim p none = false
is_victim p (some v) = str_eq v p

abbrev pub names : String → String → BronzeRow → Bool
names m p r = is_victim p r.victim_name && not (is_blank r.match_id) && str_eq r.match_id m

-- the largest of each statistic over the player's own rows
unfoldable pub maxima : String → String → List BronzeRow → PlayerStats → PlayerStats
unfolding raise_stats
maxima m p [] s = s
maxima m p (r ∷ rest) s = maxima m p rest (if is_of m p r then raise_stats r s else s)

abbrev pub mentions : String → String → BronzeRow → Bool
mentions m p r = is_of m p r || names m p r

-- the player's entry, where a row mentions it
abbrev pub entry_after : String → String → List BronzeRow → Option PlayerStats → Option PlayerStats
entry_after m p rows before =
    if any (mentions m p) rows || is_some before
    then some (maxima m p rows (unwrap_or before no_stats))
    else none

get-count_player :
    (r : BronzeRow) (m p : String) (stats : PlayerStatsMap)
    → get m p (count_player r stats) ≡ (
        if is_of m p r
        then some (raise_stats r (unwrap_or (get m p stats) no_stats))
        else get m p stats)
unfolding count_player
get-count_player r m p stats =
    ground (arith, get-upsert no_stats r.match_id r.player_id m p (raise_stats r) stats)

get-with_victim :
    (n m p : String) (v : Option String) (stats : PlayerStatsMap)
    → get m p (with_victim n v stats) ≡ (
        if is_victim p v && not (is_blank n) && str_eq n m
        then some (unwrap_or (get m p stats) no_stats)
        else get m p stats)
get-with_victim n m p none stats = ground arith
get-with_victim n m p (some v) stats = ground (arith, get-upsert no_stats n v m p (λ s. s) stats)

get-count_row :
    (r : BronzeRow) (m p : String) (stats : PlayerStatsMap)
    → get m p (count_row r stats) ≡ entry_after m p (r ∷ []) (get m p stats)
unfolding count_row maxima
get-count_row r m p stats = ground (
  arith,
  get-with_victim r.match_id m p r.victim_name (count_player r stats),
  get-count_player r m p stats,
)

entry_after-cons :
    (m p : String) (r : BronzeRow) (rest : List BronzeRow) (before : Option PlayerStats)
    → entry_after m p rest (entry_after m p (r ∷ []) before) ≡ entry_after m p (r ∷ rest) before
unfolding maxima
entry_after-cons m p r rest before = ground arith

-- What the loop has gathered, from any state it starts in.
record Gathers (kept : List BronzeRow) (st end : SilverState) : Type 0 where
  kill_events : end.kill_events ≡ st.kill_events ++ map kill_event_row kept
  totals :
      (m p : String) → get m p end.player_stats ≡ entry_after m p kept (get m p st.player_stats)

silver_rows-Gathers :
    (rows : List BronzeRow) (st : SilverState)
    → Gathers (first_rows st.seen_event_ids rows) st (silver_rows rows st)
unfolding silver_rows first_rows silver_row maxima
silver_rows-Gathers [] st = record {
  kill_events = sym (append-nil st.kill_events);
  totals = λ m p. ground arith;
}
silver_rows-Gathers (r ∷ rest) st = elim (Bool-cases (is_repeated r st.seen_event_ids)) [
  | inl old ↦ rw old (silver_rows-Gathers rest st)
  | inr new ↦ rw new (
      let st' : SilverState = record {
        seen_event_ids = see r st.seen_event_ids;
        kill_events = st.kill_events ++ kill_event_row r ∷ [];
        player_stats = count_row r st.player_stats;
      } in
      let later = silver_rows-Gathers rest st' in
      record {
        kill_events =
            later.kill_events
            ∙ append_assoc st.kill_events (kill_event_row r ∷ [])
                (map kill_event_row (first_rows st'.seen_event_ids rest));
        totals = λ m p.
            later.totals m p
            ∙ ap (entry_after m p (first_rows st'.seen_event_ids rest))
                (get-count_row r m p st.player_stats)
            ∙ entry_after-cons m p r (first_rows st'.seen_event_ids rest) (get m p st.player_stats);
      })
]

entry_after-none :
    (m p : String) (rows : List BronzeRow)
    → entry_after m p rows none
      ≡ (if any (mentions m p) rows then some (maxima m p rows no_stats) else none)
entry_after-none m p rows = elim (Bool-cases (any (mentions m p) rows)) [
  | inl e ↦ rw e
  | inr e ↦ rw e
]

-- the values that the rows have in a column
abbrev pub given : {V : Type 0} → (BronzeRow → Option V) → List BronzeRow → List V
given column [] = []
given column (r ∷ rest) =
    let later = given column rest in elim (column r) [ none ↦ later | some v ↦ v ∷ later ]

-- the largest of some values and of a first one
abbrev pub largest_int : ℤ → List ℤ → ℤ
largest_int n [] = n
largest_int n (v ∷ vs) = largest_int (if ltb_ℤ n v then v else n) vs

abbrev pub largest : Float → List Float → Float
largest n [] = n
largest n (v ∷ vs) = largest (fmax n v) vs

-- for each statistic the largest value of the rows, and 0 where they have none above it
abbrev pub totals_of : List BronzeRow → PlayerStats
totals_of own = record {
  kills = largest_int (pos 0) (given (λ r. r.kills) own);
  headshot_kills = largest_int (pos 0) (given (λ r. r.headshot_kills) own);
  damage_dealt = largest nought (given (λ r. r.damage_dealt) own);
  walk_distance = largest nought (given (λ r. r.walk_distance) own);
  ride_distance = largest nought (given (λ r. r.ride_distance) own);
  swim_distance = largest nought (given (λ r. r.swim_distance) own);
  survival_duration = largest nought (given (λ r. r.survival_duration) own);
  win_place_perc = largest nought (given (λ r. r.win_place_perc) own);
}

module _ (m p : String) where
  int-maxima :
      (field : PlayerStats → ℤ) (column : BronzeRow → Option ℤ)
      → ((r : BronzeRow) (s : PlayerStats)
          → field (raise_stats r s) ≡ raise_int (field s) (column r))
      → (rows : List BronzeRow) (s : PlayerStats)
      → field (maxima m p rows s) ≡ largest_int (field s) (given column (keep (is_of m p) rows))
  unfolding maxima
  int-maxima field column h [] s = refl
  int-maxima field column h (r ∷ rest) s = elim (Bool-cases (is_of m p r)) [
    | inr e ↦ rw e (int-maxima field column h rest s)
    | inl e ↦ elim (Option-cases (column r)) [
      | inl c ↦ rw (e, c) (int-maxima field column h rest (raise_stats r s) ∙ rw (h r s, c) refl)
      | inr (v, c) ↦
          rw (e, c) (int-maxima field column h rest (raise_stats r s) ∙ rw (h r s, c) refl)
    ]
  ]

  float-maxima :
      (field : PlayerStats → Float) (column : BronzeRow → Option Float)
      → ((r : BronzeRow) (s : PlayerStats) → field (raise_stats r s) ≡ raise (field s) (column r))
      → (rows : List BronzeRow) (s : PlayerStats)
      → field (maxima m p rows s) ≡ largest (field s) (given column (keep (is_of m p) rows))
  unfolding maxima
  float-maxima field column h [] s = refl
  float-maxima field column h (r ∷ rest) s = elim (Bool-cases (is_of m p r)) [
    | inr e ↦ rw e (float-maxima field column h rest s)
    | inl e ↦ elim (Option-cases (column r)) [
      | inl c ↦ rw (e, c) (float-maxima field column h rest (raise_stats r s) ∙ rw (h r s, c) refl)
      | inr (v, c) ↦
          rw (e, c) (float-maxima field column h rest (raise_stats r s) ∙ rw (h r s, c) refl)
    ]
  ]

  maxima-totals_of :
      (rows : List BronzeRow) → maxima m p rows no_stats ≡ totals_of (keep (is_of m p) rows)
  unfolding raise_stats
  maxima-totals_of rows = cc (
    int-maxima (λ s. s.kills) (λ r. r.kills) (λ r s. refl) rows no_stats,
    int-maxima (λ s. s.headshot_kills) (λ r. r.headshot_kills) (λ r s. refl) rows no_stats,
    float-maxima (λ s. s.damage_dealt) (λ r. r.damage_dealt) (λ r s. refl) rows no_stats,
    float-maxima (λ s. s.walk_distance) (λ r. r.walk_distance) (λ r s. refl) rows no_stats,
    float-maxima (λ s. s.ride_distance) (λ r. r.ride_distance) (λ r s. refl) rows no_stats,
    float-maxima (λ s. s.swim_distance) (λ r. r.swim_distance) (λ r s. refl) rows no_stats,
    float-maxima (λ s. s.survival_duration) (λ r. r.survival_duration) (λ r s. refl) rows no_stats,
    float-maxima (λ s. s.win_place_perc) (λ r. r.win_place_perc) (λ r s. refl) rows no_stats,
  )

gathered :
    (rows : List BronzeRow) (m p : String)
    → ((silver_rows rows fresh_state).kill_events ≡ map kill_event_row (first_rows [] rows))
      × (get m p (silver_rows rows fresh_state).player_stats ≡ (
          if any (mentions m p) (first_rows [] rows)
          then some (totals_of (keep (is_of m p) (first_rows [] rows)))
          else none))
unfolding get
gathered rows m p =
    let all = silver_rows-Gathers rows fresh_state in
    (
      all.kill_events,
      all.totals m p
          ∙ entry_after-none m p (first_rows [] rows)
          ∙ rw (maxima-totals_of m p (first_rows [] rows)),
    )

-- the rows that no row before repeats
abbrev pub kept_rows : List BronzeRow → List BronzeRow
kept_rows rows = fresh (λ r. r.event_id) [] rows

-- The loop over the Bronze rows, however long: a row is skipped exactly if its identifier is not
-- blank and a row before it has the same; the kill events are the other rows, in order; and a player
-- has totals in a match exactly if one of those rows is the player's own or names the player as
-- victim, and they are the largest values that the player's own rows have for each statistic, and at
-- least 0.
pub silver_rows_lem :
    (rows : List BronzeRow) (m p : String)
    → ((silver_rows rows fresh_state).kill_events ≡ map kill_event_row (kept_rows rows))
      × (get m p (silver_rows rows fresh_state).player_stats ≡ (
          if any (mentions m p) (kept_rows rows)
          then some (totals_of (keep (is_of m p) (kept_rows rows)))
          else none))
silver_rows_lem rows m p = rw (← first_rows-fresh rows) (gathered rows m p)
