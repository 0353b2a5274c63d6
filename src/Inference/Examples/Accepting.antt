-- ===== src/Inference/Examples/Accepting.antt =====
-- A run of the accept loop with one permit: a second connection waits for the first handler, is
-- handled, and the shutdown comes.
use fps_anticheat_data_platf.Prelude.{◌+◌, ◌≤◌, ◌⊎◌, refl, arith}
use fps_anticheat_data_platf.Inference.Server.Accepts.{
  awaiting, stopped, Loop, listening, accepts, spawns, shuts_down, handler_ends, Reaches, here,
  then_step,
}
use fps_anticheat_data_platf.Inference.Server.Accepts.Bounded.{
  IsBounded, GoesOn, run_until_shutdown-IsBounded,
}
use fps_anticheat_data_platf.Inference.Server.Accepts.Drains.{
  Runs, ends, goes, remaining, CanGoOn, IsStopped, run_until_shutdown-IsStopped,
}

abbrev full : Loop
full = record { phase = awaiting; permits = 0; handlers = 1; accepted = 2; spawned = 1 }

full-Reaches : Reaches (listening 1) full
full-Reaches =
    then_step (then_step (then_step here (accepts _ refl)) (spawns _ 0 refl refl)) (accepts _ refl)

run_until_shutdown-IsBounded_example : IsBounded 1 full × (1 ≤ 1) × GoesOn full
run_until_shutdown-IsBounded_example =
    run_until_shutdown-IsBounded 1 full (omega arith) full-Reaches

abbrev done : Loop
done = record { phase = stopped; permits = 0; handlers = 1; accepted = 2; spawned = 2 }

three_steps : Runs 3 full done
three_steps =
    goes (handler_ends _ 0 refl refl) tt
      (goes (spawns _ 0 refl refl) tt (goes (shuts_down _ refl) tt ends))

run_until_shutdown-IsStopped_example :
    (3 ≤ remaining full) × (remaining full ≤ 1 + 3) × (CanGoOn done ⊎ IsStopped 1 done)
run_until_shutdown-IsStopped_example =
    run_until_shutdown-IsStopped 1 full done 3 (omega arith) full-Reaches three_steps
