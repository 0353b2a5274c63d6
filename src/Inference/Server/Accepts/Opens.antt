-- ===== src/Inference/Server/Accepts/Opens.antt =====
-- What holds of the socket's path when the server has run.
use fps_anticheat_data_platf.Prelude.{◌≡◌, ◌⊎◌, true, false, none, arith}
use fps_anticheat_data_platf.Prelude.Result.{ok}
use fps_anticheat_data_platf.Inference.Server.Accepts.{
  Limits, Listener, prepare_socket_path, open_listener, close_listener, run_until_shutdown,
}

-- The path was free or held a socket, which was removed; every call answered well, and at the end the
-- path is gone.
pub record IsOpened (x : Listener) : Type 0 where
  pub path : (x.file.exists ≡ false) ⊎ ((x.file.is_socket ≡ ok true) × (x.file.remove_file ≡ none))
  pub bound : x.bind_fault ≡ none
  pub permitted : x.permission_fault ≡ none
  pub gone : (x.still_exists ≡ false) ⊎ (x.remove_fault ≡ none)

-- A server that ends well never replaced a path that is not a socket, and left no socket behind.
pub run_until_shutdown-IsOpened :
    (l : Limits) (x : Listener) → run_until_shutdown l x ≡ ok tt → IsOpened x
unfolding run_until_shutdown open_listener prepare_socket_path close_listener
run_until_shutdown-IsOpened l x h = ground (arith, h)
