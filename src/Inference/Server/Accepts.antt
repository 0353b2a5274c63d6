-- ===== src/Inference/Server/Accepts.antt =====
-- apps/ml-platform/rust-inference/src/ipc/uds_server.rs: the server's start, and its accept loop as a step
-- relation over the loop, the permits of the semaphore and the spawned handlers. What the file system
-- answers is a parameter.
pub mod Bounded
pub mod Drains
pub mod Opens
use fps_anticheat_data_platf.Prelude.{
  ℕ, zero, suc, ◌≡◌, Bool, true, false, not, ◌||◌, String, Option, none, some, [], ◌∷◌, ◌==◌,
  if◌then◌else◌,
}
use fps_anticheat_data_platf.Prelude.Text.{concat}
use fps_anticheat_data_platf.Prelude.Result.{Result, ok, err, ◌>>=◌}
use fps_anticheat_data_platf.Inference.Error.{AppError, config, ipc, io}

-- the fields of `UdsIpcServer` that the loop reads
pub record Limits : Type 0 where
  pub socket_path : String
  pub max_concurrency : ℕ
  pub max_request_bytes : ℕ

abbrev with_evaluator {ℓ} : {E : Type ℓ} → Limits → Result AppError E → Result AppError (Limits × E)
with_evaluator l (ok e) = ok (l, e)
with_evaluator l (err x) = err x

-- `UdsIpcServer::new`, from what `DecisionEvaluator::new` answers
unfoldable pub new {ℓ} : {E : Type ℓ} → Limits → Result AppError E → Result AppError (Limits × E)
new l evaluator =
    if l.max_concurrency == 0 || l.max_request_bytes == 0
    then err (config "IPC concurrency và request limit phải lớn hơn 0")
    else with_evaluator l evaluator

-- the path of the socket: whether it is there, whether it is a socket, and what removing it answers
pub record SocketFile : Type 0 where
  pub exists : Bool
  pub is_socket : Result String Bool
  pub remove_file : Option String

-- `?` on the error of a call of the file system
abbrev removed : Option String → Result AppError (Unit {0})
removed none = ok tt
removed (some e) = err (io e)

abbrev remove_socket : String → Option String → Result String Bool → Result AppError (Unit {0})
remove_socket path fault (err e) = err (io e)
remove_socket path fault (ok is_socket) =
    if not is_socket
    then err (ipc (concat ("Từ chối ghi đè non-socket path '" ∷ path ∷ "'" ∷ [])))
    else removed fault

unfoldable pub prepare_socket_path : Limits → SocketFile → Result AppError (Unit {0})
prepare_socket_path l file =
    if not file.exists then ok tt else remove_socket l.socket_path file.remove_file file.is_socket

abbrev bound : String → Option String → Result AppError (Unit {0})
bound path none = ok tt
bound path (some e) =
    err (ipc (concat ("Không thể bind Unix Domain Socket '" ∷ path ∷ "': " ∷ e ∷ [])))

-- `run_until_shutdown` before its loop, with what `bind` and `set_permissions` answer
unfoldable pub open_listener :
    Limits → SocketFile → Option String → Option String → Result AppError (Unit {0})
unfolding prepare_socket_path
open_listener l file bind_fault permission_fault = do
  _ ← prepare_socket_path l file
  _ ← bound l.socket_path bind_fault
  removed permission_fault

-- and after it: whether the path is there still, and what removing it answers
unfoldable pub close_listener : Bool → Option String → Result AppError (Unit {0})
close_listener exists remove_fault = if exists then removed remove_fault else ok tt

-- what the file system answers while the server runs; the path may be gone at its end
pub record Listener : Type 0 where
  pub file : SocketFile
  pub bind_fault : Option String
  pub permission_fault : Option String
  pub still_exists : Bool
  pub remove_fault : Option String

-- `run_until_shutdown`, with its loop left to `Step`
unfoldable pub run_until_shutdown : Limits → Listener → Result AppError (Unit {0})
unfolding open_listener close_listener
run_until_shutdown l x = do
  _ ← open_listener l x.file x.bind_fault x.permission_fault
  close_listener x.still_exists x.remove_fault

-- where the loop stands: at `select!`, or with a connection that waits for a permit, or at its end
pub data Phase : Type 0 where
  selecting awaiting stopped : Phase

-- the loop with the semaphore's free permits, the handlers that run, and how many connections were
-- accepted and how many handlers were spawned
pub record Loop : Type 0 where
  pub phase : Phase
  pub permits : ℕ
  pub handlers : ℕ
  pub accepted : ℕ
  pub spawned : ℕ

abbrev pub listening : ℕ → Loop
listening max = record { phase = selecting; permits = max; handlers = 0; accepted = 0; spawned = 0 }

abbrev pub is_running : Phase → Bool
is_running selecting = true
is_running awaiting = true
is_running stopped = false

-- One step of the loop or of a handler while the loop runs. The shutdown is seen at `select!` only,
-- and a handler gives its permit back when it ends, however it ends. The code does not wait for the
-- handlers when it returns, so that there is no step after `stopped`.
pub data Step : Loop → Loop → Type 0 where
  shuts_down : (s : Loop) → s.phase ≡ selecting → Step s (record s { phase = stopped })
  accept_fails : (s : Loop) → s.phase ≡ selecting → Step s s
  accepts :
      (s : Loop)
      → s.phase ≡ selecting
      → Step s (record s { phase = awaiting; accepted = suc s.accepted })
  spawns :
      (s : Loop) (permits : ℕ)
      → s.phase ≡ awaiting
      → s.permits ≡ suc permits
      → Step s (record s {
        phase = selecting;
        permits = permits;
        handlers = suc s.handlers;
        spawned = suc s.spawned;
      })
  handler_ends :
      (s : Loop) (handlers : ℕ)
      → is_running s.phase ≡ true
      → s.handlers ≡ suc handlers
      → Step s (record s { permits = suc s.permits; handlers = handlers })

pub data Reaches (start : Loop) : Loop → Type 0 where
  here : Reaches start start
  then_step : {s t : Loop} → Reaches start s → Step s t → Reaches start t
