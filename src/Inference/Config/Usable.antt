-- ===== src/Inference/Config/Usable.antt =====
-- The settings that the inference service starts with.
use fps_anticheat_data_platf.Prelude.{
  ℕ, ◌<◌, ◌≡◌, inl, inr, String, Option, some, arith, Option-cases,
}
use fps_anticheat_data_platf.Prelude.Text.{parse_u64}
use fps_anticheat_data_platf.Prelude.Result.{ok, bind-ok}
use fps_anticheat_data_platf.Inference.Config.{
  Config, get_required_env, required_number, check_limits, from_env,
}

-- the variable is set to a text that reads as a number above 0
abbrev pub IsPositive : (String → Option String) → String → ℕ → Type 0
IsPositive env key n =
    (value : String) × (env key ≡ some value) × (parse_u64 value ≡ some n) × (0 < n)

pub record IsUsable (env : String → Option String) (c : Config) : Type 0 where
  pub model_dir : env "MODEL_DIR" ≡ some c.model_dir
  pub socket : env "IPC_SOCKET_PATH" ≡ some c.ipc_socket_path
  pub policy : env "POLICY_PATH" ≡ some c.policy_path
  pub pool : IsPositive env "INFERENCE_SESSION_POOL_SIZE" c.inference_session_pool_size
  pub reload : IsPositive env "MODEL_RELOAD_INTERVAL_SECONDS" c.model_reload_interval_seconds
  pub concurrency : IsPositive env "IPC_MAX_CONCURRENCY" c.ipc_max_concurrency
  pub request_bytes : IsPositive env "IPC_MAX_REQUEST_BYTES" c.ipc_max_request_bytes

get_required_env-ok :
    (env : String → Option String) (key v : String)
    → get_required_env env key ≡ ok v
    → env key ≡ some v
unfolding get_required_env
get_required_env-ok env key v h = elim (Option-cases (env key)) [
  | inl e ↦ absurd (ground (arith, e, h))
  | inr (value, e) ↦ ground (arith, e, h)
]

required_number-ok :
    (env : String → Option String) (message : String → String) (key : String) (n : ℕ)
    → required_number env message key ≡ ok n
    → (value : String) × (env key ≡ some value) × (parse_u64 value ≡ some n)
unfolding required_number
required_number-ok env message key n h =
    let (value, e, k) = bind-ok (get_required_env env key) _ h in
    (
      value,
      get_required_env-ok env key value e,
      elim (Option-cases (parse_u64 value)) [
        | inl p ↦ absurd (ground (arith, p, k))
        | inr (m, p) ↦ ground (arith, p, k)
      ],
    )

check_limits-ok :
    (c d : Config)
    → check_limits c ≡ ok d
    → (d ≡ c)
      × (0 < c.inference_session_pool_size)
      × (0 < c.model_reload_interval_seconds)
      × (0 < c.ipc_max_concurrency)
      × (0 < c.ipc_max_request_bytes)
unfolding check_limits
check_limits-ok c d h = ground (arith, h)

positive :
    (env : String → Option String) (message : String → String) (key : String) (n : ℕ)
    → required_number env message key ≡ ok n
    → 0 < n
    → IsPositive env key n
positive env message key n h p =
    let (value, e, k) = required_number-ok env message key n h in (value, e, k, p)

-- The inference service starts only with settings from the environment: all seven variables are
-- set, and the four numbers parse and are above 0.
pub from_env-IsUsable :
    (env : String → Option String) (message : String → String) (c : Config)
    → from_env env message ≡ ok c
    → IsUsable env c
unfolding from_env
from_env-IsUsable env message c h0 =
    let (a1, e1, h1) = bind-ok (get_required_env env "MODEL_DIR") _ h0 in
    let (a2, e2, h2) = bind-ok (get_required_env env "IPC_SOCKET_PATH") _ h1 in
    let (a3, e3, h3) = bind-ok (get_required_env env "POLICY_PATH") _ h2 in
    let (n1, k1, i1) = bind-ok (required_number env message "INFERENCE_SESSION_POOL_SIZE") _ h3 in
    let (n2, k2, i2) = bind-ok (required_number env message "MODEL_RELOAD_INTERVAL_SECONDS") _ i1 in
    let (n3, k3, i3) = bind-ok (required_number env message "IPC_MAX_CONCURRENCY") _ i2 in
    let (n4, k4, i4) = bind-ok (required_number env message "IPC_MAX_REQUEST_BYTES") _ i3 in
    let (same, p1, p2, p3, p4) = check_limits-ok _ c i4 in
    rw same (record {
      model_dir = get_required_env-ok env "MODEL_DIR" a1 e1;
      socket = get_required_env-ok env "IPC_SOCKET_PATH" a2 e2;
      policy = get_required_env-ok env "POLICY_PATH" a3 e3;
      pool = positive env message "INFERENCE_SESSION_POOL_SIZE" n1 k1 p1;
      reload = positive env message "MODEL_RELOAD_INTERVAL_SECONDS" n2 k2 p2;
      concurrency = positive env message "IPC_MAX_CONCURRENCY" n3 k3 p3;
      request_bytes = positive env message "IPC_MAX_REQUEST_BYTES" n4 k4 p4;
    })
