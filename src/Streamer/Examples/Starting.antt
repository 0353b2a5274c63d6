-- ===== src/Streamer/Examples/Starting.antt =====
-- A start from an environment, and a run of the loop.
use fps_anticheat_data_platf.Prelude.{◌⊎◌, String, Option, none, some, str_eq, if◌then◌else◌}
use fps_anticheat_data_platf.Prelude.Result.{ok}
use fps_anticheat_data_platf.Streamer.Accumulator.{new}
use fps_anticheat_data_platf.Streamer.Accumulator.Stream.{outcomes_of}
use fps_anticheat_data_platf.Streamer.App.{Services, run}
use fps_anticheat_data_platf.Streamer.App.Delivery.{Ends, run-Ends}
use fps_anticheat_data_platf.Streamer.Start.{Clients, main}
use fps_anticheat_data_platf.Streamer.Start.Started.{IsRefused, IsRunning, main_lem}
use fps_anticheat_data_platf.Streamer.Examples.{start, f32}
use fps_anticheat_data_platf.Streamer.Examples.Projection.{Table}
use fps_anticheat_data_platf.Streamer.Examples.Serving.{services}
use fps_anticheat_data_platf.Streamer.Examples.Buffer.{small, rounds}

run-Ends_example :
    Ends services (outcomes_of rounds) start (run services rounds (new small 0) start)
run-Ends_example = run-Ends services small 0 rounds start

abbrev environment : String → Option String
environment key =
    if str_eq key "MINIO_ENDPOINT"
    then some " http://minio:9000 "
    else if str_eq key "BATCH_SIZE"
    then some "500"
    else if str_eq key "FLUSH_INTERVAL_MS"
    then none
    else if str_eq key "R_MAX_WORKERS"
    then some ""
    else if str_eq key "R_WORKER_TIMEOUT_SECONDS"
    then none
    else if str_eq key "KAFKA_MAX_MESSAGE_BYTES"
    then none
    else some key

-- client libraries that always answer
abbrev clients : Clients (Unit {0}) (Unit {0}) (Unit {0})
clients = record {
  create_consumer = λ settings. ok tt;
  subscribe = λ consumer topic. none;
  build_store = λ settings. ok tt;
  create_producer = λ settings. ok tt;
}

abbrev connect : Unit {0} → Unit {0} → Unit {0} → Services Table Table (Unit {0})
connect consumer store producer = services

main_lem_example :
    let r = main clients connect f32 environment (some 8) 0 rounds in
    IsRefused clients connect f32 environment (some 8) 0 rounds r
    ⊎ IsRunning clients connect f32 environment (some 8) 0 rounds r
main_lem_example = main_lem clients connect f32 environment (some 8) 0 rounds
