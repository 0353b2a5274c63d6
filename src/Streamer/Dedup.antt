-- ===== src/Streamer/Dedup.antt =====
-- apps/rust-structured-streamer/src/transform/dedup.rs: the first event of each `event_id` stays.
-- The HashSet of seen identifiers is the list of those inserted.
pub mod First
use fps_anticheat_data_platf.Prelude.{
  ℕ, ◌+◌, ◌≡◌, Bool, true, false, String, List, [], ◌∷◌, ◌++◌, if◌then◌else◌, str_eq,
}
use fps_anticheat_data_platf.Streamer.Domain.{AnyEnvelope, event_id}

pub record DeduplicateOutcome : Type 0 where
  pub unique_records : List AnyEnvelope
  pub duplicate_count : ℕ

-- `seen_event_ids.contains(id)`
unfoldable pub contains : String → List String → Bool
contains id [] = false
contains id (s ∷ seen) = if str_eq s id then true else contains id seen

-- the loop, over the set, the vector and the counter
unfoldable pub deduplicate_each :
    List AnyEnvelope → List String → List AnyEnvelope → ℕ → List AnyEnvelope × ℕ
unfolding contains
deduplicate_each [] seen unique duplicates = (unique, duplicates)
deduplicate_each (event ∷ events) seen unique duplicates =
    let known = deduplicate_each events seen unique (duplicates + 1) in
    let new = deduplicate_each events (event_id event ∷ seen) (unique ++ event ∷ []) duplicates in
    if contains (event_id event) seen then known else new

unfoldable pub deduplicate_batch : List AnyEnvelope → DeduplicateOutcome
unfolding deduplicate_each
deduplicate_batch events =
    let found = deduplicate_each events [] [] 0 in
    record { unique_records = found.0; duplicate_count = found.1 }
