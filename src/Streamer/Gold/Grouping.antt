-- ===== src/Streamer/Gold/Grouping.antt =====
-- Which kill rows gold.rs counts for a player.
use fps_anticheat_data_platf.Prelude.{
  ◌≡◌, refl, sym, ap, ◌∙◌, inl, inr, Bool, not, ◌&&◌, String, Option, none, some, List, [], ◌∷◌,
  ◌++◌, unwrap_or, if◌then◌else◌, str_eq, arith, Bool-cases, append_assoc, append-nil,
}
use fps_anticheat_data_platf.Prelude.Float.{Arithmetic}
use fps_anticheat_data_platf.Prelude.Int.{pos}
use fps_anticheat_data_platf.Streamer.Gold.Features.{Summarizes, gold_row_of-Summarizes}
use fps_anticheat_data_platf.Prelude.Text.{is_blank}
use fps_anticheat_data_platf.Streamer.Groups.{get, get-upsert}
use fps_anticheat_data_platf.Streamer.Gold.{
  KillRecord, KillRow, PlayerRow, KillsByPlayer, GoldRow, group_row, group_rows, gold_row,
  gold_row_of,
}

abbrev pub is_kill_by : String → String → KillRow → Bool
is_kill_by m p r =
    not (is_blank r.match_id)
    && not (is_blank r.killer_name)
    && str_eq r.match_id m
    && str_eq r.killer_name p

-- the records of the player's kills in the match, in order
abbrev pub kills_by : String → String → List KillRow → List KillRecord
kills_by m p [] = []
kills_by m p (r ∷ rest) =
    let later = kills_by m p rest in if is_kill_by m p r then r.details ∷ later else later

abbrev pub some_unless_empty : List KillRecord → Option (List KillRecord)
some_unless_empty [] = none
some_unless_empty (k ∷ ks) = some (k ∷ ks)

abbrev joined : List KillRecord → Option (List KillRecord) → Option (List KillRecord)
joined ks none = some_unless_empty ks
joined ks (some earlier) = some (earlier ++ ks)

get-group_row :
    (r : KillRow) (m p : String) (map : KillsByPlayer)
    → get m p (group_row r map) ≡ (
        if is_kill_by m p r
        then some (unwrap_or (get m p map) [] ++ r.details ∷ [])
        else get m p map)
unfolding group_row
get-group_row r m p map =
    ground
      (arith, get-upsert [] r.match_id r.killer_name m p (λ records. records ++ r.details ∷ []) map)

joined-none : (o : Option (List KillRecord)) → joined [] o ≡ o
joined-none none = refl
joined-none (some ks) = ap some (append-nil ks)

joined-cons :
    (ks : List KillRecord) (k : KillRecord) (o : Option (List KillRecord))
    → joined ks (some (unwrap_or o [] ++ k ∷ [])) ≡ joined (k ∷ ks) o
joined-cons ks k none = refl
joined-cons ks k (some earlier) = ap some (append_assoc earlier (k ∷ []) ks)

get-group_rows :
    (rows : List KillRow) (m p : String) (map : KillsByPlayer)
    → get m p (group_rows rows map) ≡ joined (kills_by m p rows) (get m p map)
unfolding group_rows
get-group_rows [] m p map = sym (joined-none _)
get-group_rows (r ∷ rest) m p map = elim (Bool-cases (is_kill_by m p r)) [
  | inl e ↦
      get-group_rows rest m p (group_row r map)
      ∙ (rw (get-group_row r m p map, e) (joined-cons (kills_by m p rest) r.details (get m p map)))
  | inr e ↦ get-group_rows rest m p (group_row r map) ∙ (rw (get-group_row r m p map, e) refl)
]

-- The row of a player without kill rows: the kills of the totals, and nothing else.
pub record IsBare (row : PlayerRow) (g : GoldRow) : Type 0 where
  pub kills : g.kills ≡ row.kills
  pub min_interval : g.min_interval ≡ none
  pub median_distance : g.median_distance ≡ none
  pub short_interval_count : g.short_interval_count ≡ pos 0
  pub unique_weapons : g.unique_weapons ≡ pos 0

pub gold_row-grouped :
    (f : Arithmetic) (rows : List KillRow) (row : PlayerRow)
    → gold_row f (group_rows rows []) row
      ≡ gold_row_of f row (some_unless_empty (kills_by row.match_id row.player_id rows))
unfolding gold_row get
gold_row-grouped f rows row =
    ap (gold_row_of f row) (get-group_rows rows row.match_id row.player_id [])

-- what the row is made of: the player's kills, or the totals if there are none
abbrev pub IsRowFor : Arithmetic → PlayerRow → List KillRecord → GoldRow → Type 0
IsRowFor f row [] g = IsBare row g
IsRowFor f row (k ∷ ks) g = Summarizes f (k ∷ ks) g

gold_row_of-IsRowFor :
    (f : Arithmetic) (row : PlayerRow) (records : List KillRecord)
    → ((gold_row_of f row (some_unless_empty records)).match_id ≡ row.match_id)
      × ((gold_row_of f row (some_unless_empty records)).player_id ≡ row.player_id)
      × IsRowFor f row records (gold_row_of f row (some_unless_empty records))
unfolding gold_row_of
gold_row_of-IsRowFor f row [] = (
  refl,
  refl,
  record {
    kills = refl;
    min_interval = refl;
    median_distance = refl;
    short_interval_count = refl;
    unique_weapons = refl;
  },
)
gold_row_of-IsRowFor f row (k ∷ ks) = (refl, refl, gold_row_of-Summarizes f row (k ∷ ks))

-- A player's row of features has the player's match and identifier, and summarises exactly the kill
-- rows of the match that name the player as killer, in order; where there is none, the kills are those
-- of the totals and the rest is empty.
pub gold_row_lem :
    (f : Arithmetic) (rows : List KillRow) (row : PlayerRow)
    → let g = gold_row f (group_rows rows []) row in
      (g.match_id ≡ row.match_id)
      × (g.player_id ≡ row.player_id)
      × IsRowFor f row (kills_by row.match_id row.player_id rows) g
gold_row_lem f rows row =
    rw (gold_row-grouped f rows row)
      (gold_row_of-IsRowFor f row (kills_by row.match_id row.player_id rows))
