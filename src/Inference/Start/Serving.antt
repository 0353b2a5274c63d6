-- ===== src/Inference/Start/Serving.antt =====
-- The model that a running service scores with, from its start on.
use fps_anticheat_data_platf.Prelude.{◌≡◌, true, String, Option}
use fps_anticheat_data_platf.Prelude.Float.{Float}
use fps_anticheat_data_platf.Prelude.Result.{Result, ok}
use fps_anticheat_data_platf.Inference.Config.{from_env}
use fps_anticheat_data_platf.Inference.Policy.{PolicyConfig}
use fps_anticheat_data_platf.Inference.Bundle.Load.{Directory, Libraries, new_with_pool}
use fps_anticheat_data_platf.Inference.Server.Accepts
use fps_anticheat_data_platf.Inference.Start.{Service, PolicyFile, new_evaluator}
use fps_anticheat_data_platf.Inference.Start.Served.{reloads}

module _ (lib : Libraries) (shown : Float → String) (Known : Directory → Type 0) where
  -- the steps of a start that succeeds
  record IsStart (env : String → Option String) (message : String → String)
      (directory : String → Directory) (from_yaml : String → Result String PolicyConfig)
      (file : String → PolicyFile) (s : Service) : Type 0 where
    configured : from_env env message ≡ ok s.config
    made :
        new_with_pool (directory s.config.model_dir) lib s.config.inference_session_pool_size
        ≡ ok s.engine
    policy :
        new_evaluator lib shown from_yaml s.config.policy_path (file s.config.policy_path)
        ≡ ok s.evaluator
    reloads : s.reloading ≡ true
