-- ===== src/Inference/Examples/Serving.antt =====
-- A start of the inference service, a request, a tick with the same bundle, the shutdown, and a tick
-- that is not seen any more.
use fps_anticheat_data_platf.Prelude.{ℕ, zero, suc, true, false, some, List, [], ◌∷◌}
use fps_anticheat_data_platf.Prelude.Result.{ok, err}
use fps_anticheat_data_platf.Inference.Engine.{Session}
use fps_anticheat_data_platf.Inference.Bundle.Load.{Directory}
use fps_anticheat_data_platf.Inference.Server.Accepts
use fps_anticheat_data_platf.Inference.Start.{
  Service, PolicyFile, Event, tick, request, changed, limits_of,
}
use fps_anticheat_data_platf.Inference.Examples.{session, policy, fair}
use fps_anticheat_data_platf.Inference.Examples.Starting.{settings}
use fps_anticheat_data_platf.Inference.Examples.Loading.{bundle, loaded}

abbrev sessions : ℕ → List Session
sessions zero = []
sessions (suc n) = session ∷ sessions n

abbrev policy_file : PolicyFile
policy_file = record { is_file = true; content = ok "version: 1" }

abbrev service : Service
service = record {
  config = settings;
  engine = record {
    poisoned = false;
    model = some (record loaded { more_sessions = sessions 15 });
  };
  limits = limits_of settings;
  evaluator = policy;
  reloading = true;
}

abbrev torn : Directory
torn = record { exists = λ path. true; is_file = λ path. false; read = λ path. err "torn" }

abbrev events : List Event
events = request fair ∷ tick bundle ∷ changed (some true) ∷ tick torn ∷ []
