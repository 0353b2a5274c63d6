-- ===== src/Inference/Examples/Starting.antt =====
-- A start of the inference service from an environment.
use fps_anticheat_data_platf.Prelude.{◌≡◌, refl, String, Option, some, str_eq, if◌then◌else◌}
use fps_anticheat_data_platf.Prelude.Text.{parse_u64}
use fps_anticheat_data_platf.Prelude.Result.{ok}
use fps_anticheat_data_platf.Inference.Config.{
  Config, get_required_env, required_number, check_limits, from_env,
}

abbrev pub environment : String → Option String
environment key =
    if str_eq key "MODEL_DIR"
    then some "/models/current"
    else if str_eq key "IPC_SOCKET_PATH"
    then some "/run/inference.sock"
    else if str_eq key "POLICY_PATH"
    then some "/etc/policy.yaml"
    else some "16"

abbrev pub settings : Config
settings = record {
  model_dir = "/models/current";
  ipc_socket_path = "/run/inference.sock";
  policy_path = "/etc/policy.yaml";
  inference_session_pool_size = 16;
  model_reload_interval_seconds = 16;
  ipc_max_concurrency = 16;
  ipc_max_request_bytes = 16;
}

pub settings_read : from_env environment (λ s. "invalid digit found in string") ≡ ok settings
unfolding from_env get_required_env required_number check_limits parse_u64
settings_read = refl
