-- ===== src/Inference/Config.antt =====
-- apps/ml-platform/rust-inference/src/config.rs: the settings that the environment gives. `env` answers
-- `none` for a variable that is not set or is no text.
pub mod Usable
use fps_anticheat_data_platf.Prelude.{
  ℕ, Bool, true, false, ◌||◌, String, Option, none, some, List, [], ◌∷◌, ◌==◌, if◌then◌else◌,
}
use fps_anticheat_data_platf.Prelude.Text.{concat, parse_u64}
use fps_anticheat_data_platf.Prelude.Result.{Result, ok, err, ◌>>=◌}
use fps_anticheat_data_platf.Inference.Error.{AppError, config}

pub record Config : Type 0 where
  pub model_dir : String
  pub ipc_socket_path : String
  pub policy_path : String
  pub inference_session_pool_size : ℕ
  pub model_reload_interval_seconds : ℕ
  pub ipc_max_concurrency : ℕ
  pub ipc_max_request_bytes : ℕ

abbrev required : String → Option String → Result AppError String
required key (some value) = ok value
required key none =
    err
      (config (concat ("Thiếu biến môi trường bắt buộc '" ∷ key ∷ "' (Fail-Close Triggered)" ∷ [])))

unfoldable pub get_required_env : (String → Option String) → String → Result AppError String
get_required_env env key = required key (env key)

-- `parse::<usize>()` or `parse::<u64>()` of a required variable; `err` is the parser's message
abbrev number_or : String → String → Option ℕ → Result AppError ℕ
number_or key message (some n) = ok n
number_or key message none = err (config (concat (key ∷ " không hợp lệ: " ∷ message ∷ [])))

unfoldable pub required_number :
    (String → Option String) → (String → String) → String → Result AppError ℕ
unfolding get_required_env parse_u64
required_number env message key = do
  value ← get_required_env env key
  number_or key (message value) (parse_u64 value)

unfoldable pub check_limits : Config → Result AppError Config
check_limits c =
    if c.inference_session_pool_size == 0
      || c.model_reload_interval_seconds == 0
      || c.ipc_max_concurrency == 0
      || c.ipc_max_request_bytes == 0
    then err (config "Pool size, reload interval và IPC limits phải lớn hơn 0")
    else ok c

unfoldable pub from_env : (String → Option String) → (String → String) → Result AppError Config
unfolding get_required_env required_number check_limits
from_env env message = do
  model_dir ← get_required_env env "MODEL_DIR"
  ipc_socket_path ← get_required_env env "IPC_SOCKET_PATH"
  policy_path ← get_required_env env "POLICY_PATH"
  inference_session_pool_size ← required_number env message "INFERENCE_SESSION_POOL_SIZE"
  model_reload_interval_seconds ← required_number env message "MODEL_RELOAD_INTERVAL_SECONDS"
  ipc_max_concurrency ← required_number env message "IPC_MAX_CONCURRENCY"
  ipc_max_request_bytes ← required_number env message "IPC_MAX_REQUEST_BYTES"
  check_limits (record {
    model_dir = model_dir;
    ipc_socket_path = ipc_socket_path;
    policy_path = policy_path;
    inference_session_pool_size = inference_session_pool_size;
    model_reload_interval_seconds = model_reload_interval_seconds;
    ipc_max_concurrency = ipc_max_concurrency;
    ipc_max_request_bytes = ipc_max_request_bytes;
  })
