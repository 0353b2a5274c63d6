-- ===== src/Streamer/Groups.antt =====
-- A HashMap keyed by (match, player), as transform/silver.rs and transform/gold.rs use it: a list with
-- one entry for each key. Its order is that of the first insertions; where the code iterates over
-- the map, the order is a parameter.
use fps_anticheat_data_platf.Prelude.{
  ◌≡◌, Bool, ◌&&◌, String, Option, none, some, List, [], ◌∷◌, unwrap_or, if◌then◌else◌, str_eq,
  str_eq_iff, arith,
}

pub record Entry {ℓ} (V : Type ℓ) : Type ℓ where
  pub match_id : String
  pub player_id : String
  pub value : V

abbrev pub has_key {ℓ} : {V : Type ℓ} → String → String → Entry V → Bool
has_key m p e = str_eq e.match_id m && str_eq e.player_id p

module _ {ℓ} {V : Type ℓ} where
  -- `get`
  unfoldable pub get : String → String → List (Entry V) → Option V
  get m p [] = none
  get m p (e ∷ rest) = let later = get m p rest in if has_key m p e then some e.value else later

  -- `entry((m, p)).or_default()`, changed by `f`
  unfoldable pub upsert : V → String → String → (V → V) → List (Entry V) → List (Entry V)
  upsert default m p f [] = record { match_id = m; player_id = p; value = f default } ∷ []
  upsert default m p f (e ∷ rest) =
      let later = upsert default m p f rest in
      if has_key m p e then record e { value = f e.value } ∷ rest else e ∷ later

  -- The changed entry is found under its key, and every other one as before.
  pub get-upsert :
      (default : V) (m p n q : String) (f : V → V) (map : List (Entry V))
      → get n q (upsert default m p f map) ≡ (
          if str_eq m n && str_eq p q
          then some (f (unwrap_or (get n q map) default))
          else get n q map)
  unfolding get upsert
  get-upsert default m p n q f [] = ground arith
  get-upsert default m p n q f (e ∷ rest) = ground (
    arith,
    get-upsert default m p n q f rest,
    str_eq_iff m n,
    str_eq_iff p q,
    str_eq_iff e.match_id m,
    str_eq_iff e.player_id p,
    str_eq_iff e.match_id n,
    str_eq_iff e.player_id q,
  )
