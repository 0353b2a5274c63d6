-- ===== src/Inference/Start.antt =====
-- apps/ml-platform/rust-inference/src/main.rs: the start of the service, and its engine while the
-- reload task, the requests and the shutdown meet it. A reload and a request are one step each; where
-- a request overlaps a swap, the code counts it in the model that the request has read, and that
-- count is lost with the model. Logging, the ticker and the signals are left out: what they trigger
-- is an event.
pub mod Served
pub mod Serving
use fps_anticheat_data_platf.Prelude.{
  ℕ, zero, suc, Bool, true, false, not, ◌&&◌, String, Option, none, some, List, [], ◌∷◌,
  if◌then◌else◌,
}
use fps_anticheat_data_platf.Prelude.Float.{Float}
use fps_anticheat_data_platf.Prelude.Result.{Result, ok, err, ◌>>=◌}
use fps_anticheat_data_platf.Inference.Error.{AppError}
use fps_anticheat_data_platf.Inference.Config.{Config, from_env}
use fps_anticheat_data_platf.Inference.Policy.{PolicyConfig, load_from_file}
use fps_anticheat_data_platf.Inference.Engine.{OnnxInferenceEngine, hot_swap, predict}
use fps_anticheat_data_platf.Inference.Bundle.Load.{
  Directory, Libraries, load_from_directory, new_with_pool,
}
use fps_anticheat_data_platf.Inference.Server.Accepts
use fps_anticheat_data_platf.Inference.Server.Accepts.{Limits, Listener, run_until_shutdown}

-- what `main` has made when the service starts to serve
pub record Service : Type 0 where
  pub config : Config
  pub engine : OnnxInferenceEngine
  pub limits : Limits
  pub evaluator : PolicyConfig
  -- whether the reload task runs
  pub reloading : Bool

abbrev pub limits_of : Config → Limits
limits_of c = record {
  socket_path = c.ipc_socket_path;
  max_concurrency = c.ipc_max_concurrency;
  max_request_bytes = c.ipc_max_request_bytes;
}

-- what the engine meets: a tick of the reload timer, with the contents of the model directory then;
-- the features of a request; or a change of the shutdown watch, with its value unless it is closed
pub data Event : Type 0 where
  tick : Directory → Event
  request : List Float → Event
  changed : Option Bool → Event

abbrev pub goes_on : Option Bool → Bool
goes_on none = false
goes_on (some shutdown) = not shutdown

-- what the file system answers for the path of the policy
pub record PolicyFile : Type 0 where
  pub is_file : Bool
  pub content : Result String String

module _ (lib : Libraries) (shown : Float → String) where
  -- `DecisionEvaluator::new`
  abbrev pub new_evaluator :
      (String → Result String PolicyConfig) → String → PolicyFile → Result AppError PolicyConfig
  new_evaluator from_yaml path file =
      load_from_file lib.f32 from_yaml path file.is_file file.content

  -- `main` up to `run_until_shutdown`, over the contents of the model directory and of the policy file
  unfoldable pub start :
      (String → Option String)
      → (String → String)
      → (String → Directory)
      → (String → Result String PolicyConfig)
      → (String → PolicyFile)
      → Result AppError Service
  unfolding from_env new_with_pool Accepts.new load_from_file
  start env message directory from_yaml file = do
    config ← from_env env message
    engine ← new_with_pool (directory config.model_dir) lib config.inference_session_pool_size
    (limits, evaluator) ←
        Accepts.new (limits_of config)
          (new_evaluator from_yaml config.policy_path (file config.policy_path))
    ok (record {
      config = config;
      engine = engine;
      limits = limits;
      evaluator = evaluator;
      reloading = true;
    })

  -- all of `main`: it answers what the server answers
  unfoldable pub main :
      (String → Option String)
      → (String → String)
      → (String → Directory)
      → (String → Result String PolicyConfig)
      → (String → PolicyFile)
      → Listener
      → Result AppError (Unit {0})
  unfolding start run_until_shutdown
  main env message directory from_yaml file listener = do
    s ← start env message directory from_yaml file
    run_until_shutdown s.limits listener

  -- the sessions after the first
  abbrev pub more_of : ℕ → ℕ
  more_of zero = zero
  more_of (suc more) = more

  unfoldable pub reload : Directory → Service → OnnxInferenceEngine
  unfolding hot_swap load_from_directory
  reload dir s =
      (hot_swap (load_from_directory dir lib (more_of s.config.inference_session_pool_size))
        s.engine).0

  unfoldable pub react : Event → Service → Service
  unfolding reload predict
  react (tick dir) s = if s.reloading then record s { engine = reload dir s } else s
  react (request features) s = record s { engine = (predict lib.f32 shown features s.engine).0 }
  react (changed value) s = record s { reloading = s.reloading && goes_on value }

  unfoldable pub serve : List Event → Service → Service
  unfolding react
  serve [] s = s
  serve (event ∷ rest) s = serve rest (react event s)
