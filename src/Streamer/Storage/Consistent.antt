-- ===== src/Streamer/Storage/Consistent.antt =====
-- What an object store holds after the calls of a log, and a store that always answers so.
use fps_anticheat_data_platf.Prelude.{
  ℕ, ◌≡◌, refl, true, false, String, Option, none, some, List, [], ◌∷◌, ◌++◌, str_eq, str_eq_iff,
  if◌then◌else◌, arith,
}
use fps_anticheat_data_platf.Prelude.Result.{ok}
use fps_anticheat_data_platf.Streamer.Action.{Effect, put, sent, committed}
use fps_anticheat_data_platf.Streamer.Storage.Downloads.{ObjectStore}

abbrev pub or_else {ℓ} : {A : Type ℓ} → Option A → Option A → Option A
or_else none y = y
or_else (some x) y = some x

abbrev pub written_by : String → Effect → Option (List ℕ)
written_by key (put k bytes) = if str_eq k key then some bytes else none
written_by key (sent topic k bytes) = none
written_by key (committed topic positions) = none

-- the bytes of the last `put` under the key
unfoldable pub held : String → List Effect → Option (List ℕ)
held key [] = none
held key (e ∷ later) = or_else (held key later) (written_by key e)

-- read-after-write consistency: an object that was put can be read, with the bytes put last
pub record IsConsistent (store : ObjectStore) : Type 0 where
  pub reads :
      (log : List Effect) (key : String) (bytes : List ℕ)
      → held key log ≡ some bytes
      → store.get log key ≡ ok (ok bytes)

held-append :
    (key : String) (log : List Effect) (e : Effect)
    → held key (log ++ e ∷ []) ≡ or_else (written_by key e) (held key log)
unfolding held
held-append key [] e = ground arith
held-append key (x ∷ log) e = ground (arith, held-append key log e)

str_eq_refl : (s : String) → str_eq s s ≡ true
str_eq_refl s = (str_eq_iff s s).1 refl

pub held-put :
    (key : String) (log : List Effect) (bytes : List ℕ)
    → held key (log ++ put key bytes ∷ []) ≡ some bytes
held-put key log bytes = rw (held-append, str_eq_refl key) refl

pub held-put_other :
    (key other : String) (log : List Effect) (bytes : List ℕ)
    → str_eq other key ≡ false
    → held key (log ++ put other bytes ∷ []) ≡ held key log
held-put_other key other log bytes h = rw (held-append, h) refl
