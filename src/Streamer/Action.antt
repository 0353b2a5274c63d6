-- ===== src/Streamer/Action.antt =====
-- Calls that may fail and that reach other systems. `AppError` is error.rs; the log holds the calls
-- that other systems acknowledged, oldest first.
pub mod Extends
pub mod Inversion
use fps_anticheat_data_platf.Prelude.{ℕ, Bool, String, Option, none, some, List, [], ◌∷◌, ◌++◌}
use fps_anticheat_data_platf.Prelude.Int.{ℤ}
use fps_anticheat_data_platf.Prelude.Text.{concat}
use fps_anticheat_data_platf.Prelude.Result.{Result, ok, err}
use fps_anticheat_data_platf.Streamer.Breaker.{ResourceCircuitBreaker}

pub data AppError : Type 0 where
  config kafka arrow parquet storage worker io : String → AppError

-- one entry of the TopicPartitionList: partition and next offset to read
pub record Position : Type 0 where
  pub partition : ℤ
  pub next_offset : ℤ

pub data Effect : Type 0 where
  -- an object written under a key
  put : String → List ℕ → Effect
  -- a record sent to a topic under a key
  sent : String → String → List ℕ → Effect
  -- offsets committed for the consumer group
  committed : String → List Position → Effect

pub record World : Type 0 where
  pub log : List Effect
  pub breaker : ResourceCircuitBreaker

abbrev pub Action {ℓ} : Type ℓ → Type ℓ
Action A = World → Result AppError A × World

module _ {ℓ} {A : Type ℓ} where
  abbrev pub pure : A → Action A
  pure a w = (ok a, w)

  abbrev pub raise : AppError → Action A
  raise e w = (err e, w)

  abbrev pub lift : Result AppError A → Action A
  lift r w = (r, w)

module _ {ℓ κ} {A : Type ℓ} {B : Type κ} where
  abbrev pub continue :
      Result AppError A × World
      → (A → World → Result AppError B × World)
      → Result AppError B × World
  continue (ok a, w) f = f a w
  continue (err e, w) f = (err e, w)

  infixl 5 ◌>>=◌ ◌>>◌
  abbrev pub ◌>>=◌ :
      (World → Result AppError A × World)
      → (A → World → Result AppError B × World)
      → World
      → Result AppError B × World
  ◌>>=◌ m f w = continue (m w) f

  abbrev pub ◌>>◌ :
      (World → Result AppError A × World)
      → (World → Result AppError B × World)
      → World
      → Result AppError B × World
  m >> k = m >>= λ _. k

-- A call of another system: it may answer with an error, and its answer may depend on every call
-- before; what it acknowledges is logged.
abbrev answer : Option String → (String → AppError) → Effect → Action (Unit {0})
answer none wrap effect w = (ok tt, record w { log = w.log ++ effect ∷ [] })
answer (some e) wrap effect w = (err (wrap e), w)

unfoldable pub call :
    (List Effect → Option String) → (String → AppError) → Effect → Action (Unit {0})
call fault wrap effect w = answer (fault w.log) wrap effect w

-- the `#[error("…")]` texts of error.rs
unfoldable pub display : AppError → String
display (config e) = concat ("Lỗi cấu hình: " ∷ e ∷ [])
display (kafka e) = concat ("Lỗi Kafka: " ∷ e ∷ [])
display (arrow e) = concat ("Lỗi Arrow: " ∷ e ∷ [])
display (parquet e) = concat ("Lỗi Parquet: " ∷ e ∷ [])
display (storage e) = concat ("Lỗi S3 Storage: " ∷ e ∷ [])
display (worker e) = concat ("Lỗi worker: " ∷ e ∷ [])
display (io e) = concat ("Lỗi I/O hệ thống: " ∷ e ∷ [])
