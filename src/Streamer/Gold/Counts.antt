-- ===== src/Streamer/Gold/Counts.antt =====
-- What gold.rs counts as a kill.
use fps_anticheat_data_platf.Prelude.{
  ◌<◌, ◌≡◌, Bool, ◌&&◌, suc, keep, unwrap_or, str_eq, refl, ap, ◌∙◌, inl, inr, false, String, List,
  [], ◌∷◌, map, length, All, str_eq_iff, arith, Bool-cases,
}
use fps_anticheat_data_platf.Prelude.Int.{pos}
use fps_anticheat_data_platf.Prelude.Float.{Arithmetic}
use fps_anticheat_data_platf.Prelude.Text.{is_blank}
use fps_anticheat_data_platf.Streamer.Domain.{
  AnyEnvelope, kill, player_stat, event_id, match_id, player_id,
}
use fps_anticheat_data_platf.Streamer.Silver.{BronzeRow, kill_event_row}
use fps_anticheat_data_platf.Streamer.Silver.Totals.{kept_rows, silver_rows_lem}
use fps_anticheat_data_platf.Streamer.Silver.Fresh.{fresh, fresh-map, fresh-All}
use fps_anticheat_data_platf.Streamer.Silver.Reads.{row_of}
use fps_anticheat_data_platf.Streamer.Gold.{
  KillRecord, PlayerRow, group_rows, gold_row, gold_row_of,
}
use fps_anticheat_data_platf.Streamer.Gold.Grouping.{
  is_kill_by, kills_by, some_unless_empty, gold_row-grouped,
}
use fps_anticheat_data_platf.Streamer.Gold.Reads.{kill_row_of, silver_of}

-- the event is no kill of the player in the match
abbrev pub IsNoKillBy : String → String → AnyEnvelope → Type 0
IsNoKillBy m p (kill k) =
    ¬ ((match_id (kill k) ≡ m) × (unwrap_or k.payload.killer_name (player_id (kill k)) ≡ p))
IsNoKillBy m p (player_stat s) = Unit

-- the event is a statistic of the player in the match
abbrev pub is_stat_of : String → String → AnyEnvelope → Bool
is_stat_of m p (kill k) = false
is_stat_of m p (player_stat s) = str_eq s.match_id m && str_eq s.player_id p

-- the events whose identifier no event before them has
abbrev pub fresh_events : List AnyEnvelope → List AnyEnvelope
fresh_events = fresh event_id []

module _ (m p : String) where
  kills_by-kill :
      (e : AnyEnvelope)
      → is_blank m ≡ false
      → is_blank p ≡ false
      → IsNoKillBy m p e
      → is_kill_by m p (kill_row_of (kill_event_row (row_of e))) ≡ is_stat_of m p e
  unfolding kill_event_row
  kills_by-kill (player_stat s) hm hp h =
      ground (arith, str_eq_iff s.match_id m, str_eq_iff s.player_id p)
  kills_by-kill (kill k) hm hp h =
      let row = kill_row_of (kill_event_row (row_of (kill k))) in
      elim (Bool-cases (is_kill_by m p row)) [
        | inr e ↦ e
        | inl e ↦
            let (a, b) : (row.match_id ≡ m) × (row.killer_name ≡ p) =
              ground (arith, e, str_eq_iff row.match_id m, str_eq_iff row.killer_name p) in
            absurd (h (a, b))
      ]

  length-kills_by :
      (events : List AnyEnvelope)
      → is_blank m ≡ false
      → is_blank p ≡ false
      → All (IsNoKillBy m p) events
      → length (kills_by m p (map kill_row_of (map kill_event_row (map row_of events))))
        ≡ length (keep (is_stat_of m p) events)
  length-kills_by [] hm hp h = refl
  length-kills_by (e ∷ rest) hm hp h = elim (Bool-cases (is_stat_of m p e)) [
    | inl k ↦ rw (kills_by-kill e hm hp h.0, k) (ap suc (length-kills_by rest hm hp h.1))
    | inr k ↦ rw (kills_by-kill e hm hp h.0, k) (length-kills_by rest hm hp h.1)
  ]

gold_row_of-kills :
    (f : Arithmetic) (row : PlayerRow) (ks : List KillRecord)
    → 0 < length ks
    → (gold_row_of f row (some_unless_empty ks)).kills ≡ pos (length ks)
unfolding gold_row_of
gold_row_of-kills f row [] h = absurd (omega arith)
gold_row_of-kills f row (k ∷ ks) h = refl

-- Player statistics are counted as kills. Among any events of a batch, a player who has no kill in a
-- match, but has statistics in it that are not repeated events, has as many kills in the features as
-- there are such statistics, whatever kills they report.
pub gold_row_stats :
    (f : Arithmetic) (row : PlayerRow) (events : List AnyEnvelope)
    → is_blank row.match_id ≡ false
    → is_blank row.player_id ≡ false
    → All (IsNoKillBy row.match_id row.player_id) events
    → 0 < length (keep (is_stat_of row.match_id row.player_id) (fresh_events events))
    → (gold_row f (group_rows (map kill_row_of (silver_of events).kill_events) []) row).kills
      ≡ pos (length (keep (is_stat_of row.match_id row.player_id) (fresh_events events)))
gold_row_stats f row events hm hp none_by some_stat =
    let m = row.match_id in
    let p = row.player_id in
    let left = fresh_events events in
    let kept : kept_rows (map row_of events) ≡ map row_of left =
      fresh-map row_of (λ (r : BronzeRow). r.event_id) [] events in
    let ks = kills_by m p (map kill_row_of (map kill_event_row (map row_of left))) in
    let counted : length ks ≡ length (keep (is_stat_of m p) left) =
      length-kills_by m p left hm hp (fresh-All (IsNoKillBy m p) event_id [] events none_by) in
    rw
      (
        (silver_rows_lem (map row_of events) m p).0,
        kept,
        gold_row-grouped f (map kill_row_of (map kill_event_row (map row_of left))) row,
      )
      (gold_row_of-kills f row ks (rw counted some_stat) ∙ ap pos counted)
