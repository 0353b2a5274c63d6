-- ===== src/Streamer/Examples/Rules.antt =====
-- Runs of validation, deduplication, the breaker and the announcement of Gold objects.
use fps_anticheat_data_platf.Prelude.{
  ℕ, ◌+◌, ◌-◌, ◌^◌, ◌≡◌, ◌↔◌, ◌⊎◌, refl, Bool, true, false, String, none, some, [], ◌∷◌, length,
  keep, arith,
}
use fps_anticheat_data_platf.Prelude.Int.{pos}
use fps_anticheat_data_platf.Prelude.Float.{Float, fin}
use fps_anticheat_data_platf.Prelude.Result.{ok}
use fps_anticheat_data_platf.Streamer.Validator.{validate_any, validate_batch}
use fps_anticheat_data_platf.Streamer.Validator.Rules.{IsAcceptable, validate_any-ok_iff}
use fps_anticheat_data_platf.Streamer.Validator.Partition.{
  is_accepted, refused, validate_batch_partition,
}
use fps_anticheat_data_platf.Streamer.Dedup.{contains, deduplicate_batch}
use fps_anticheat_data_platf.Streamer.Dedup.First.{ids, Fresh, IsSubsequence, deduplicate_batch_lem}
use fps_anticheat_data_platf.Streamer.Breaker.{
  ResourceCircuitBreaker, closed, open_circuit, CpuTicks, can_spawn, read_cpu, read_mem, idle_time,
  total_time, busy_ticks,
}
use fps_anticheat_data_platf.Streamer.Breaker.Hysteresis.{
  HasGap, trips, recovers, can_spawn_lem, can_spawn_unreadable,
}
use fps_anticheat_data_platf.Streamer.Breaker.Ticks.{busy_ticks_wrap}
use fps_anticheat_data_platf.Streamer.Examples.{good, bad, f32, watched}

abbrev always : String → Bool
always s = true

abbrev one : Float
one = fin (pos 1)

validate_any-ok_iff_example : (validate_any always one good ≡ ok tt) ↔ IsAcceptable always one good
validate_any-ok_iff_example = validate_any-ok_iff always one good

validate_batch_partition_example :
    let out = validate_batch always one (good ∷ bad ∷ []) in
    (out.valid_records ≡ keep (λ e. is_accepted (validate_any always one e)) (good ∷ bad ∷ []))
    × (out.invalid_records ≡ refused (validate_any always one) (good ∷ bad ∷ []))
    × (out.valid_count ≡ length out.valid_records)
    × (out.invalid_count ≡ length out.invalid_records)
    × (out.valid_count + out.invalid_count ≡ 2)
validate_batch_partition_example = validate_batch_partition always one (good ∷ bad ∷ [])

deduplicate_batch_lem_example :
    let out = deduplicate_batch (good ∷ bad ∷ good ∷ []) in
    IsSubsequence out.unique_records (good ∷ bad ∷ good ∷ [])
    × Fresh [] out.unique_records
    × ((id : String)
        → contains id (ids out.unique_records) ≡ contains id (ids (good ∷ bad ∷ good ∷ [])))
    × (length out.unique_records + out.duplicate_count ≡ 3)
deduplicate_batch_lem_example = deduplicate_batch_lem (good ∷ bad ∷ good ∷ [])

watched_gap : HasGap watched
watched_gap = record { cpu = refl; mem = refl }

can_spawn_lem_example :
    let b' = (can_spawn f32 (some "cpu 1 2 3 4") none watched).0 in
    let cpu = (read_cpu f32 (some "cpu 1 2 3 4") watched).1 in
    (((can_spawn f32 (some "cpu 1 2 3 4") none watched).1 ≡ true) ↔ (b'.state ≡ closed))
    × ((b'.state ≡ open_circuit) ↔ (
        ((watched.state ≡ closed) × (trips watched cpu (read_mem f32 none) ≡ true))
        ⊎ ((watched.state ≡ open_circuit) × (recovers watched cpu (read_mem f32 none) ≡ false))))
can_spawn_lem_example = can_spawn_lem f32 (some "cpu 1 2 3 4") none watched

abbrev tripped : ResourceCircuitBreaker
tripped = record watched { state = open_circuit }

can_spawn_unreadable_example :
    can_spawn f32 none none tripped ≡ (record tripped { state = closed }, true)
can_spawn_unreadable_example = can_spawn_unreadable f32 tripped refl refl refl

abbrev ticks : ℕ → ℕ → ℕ → CpuTicks
ticks user idle steal = record {
  user = user;
  nice = 0;
  system = 0;
  idle = idle;
  iowait = 0;
  irq = 0;
  softirq = 0;
  steal = steal;
}

busy_ticks_wrap_example :
    let diff_total = total_time (ticks 10 900 2) - total_time (ticks 10 700 5) in
    busy_ticks diff_total (idle_time (ticks 10 900 2) - idle_time (ticks 10 700 5)) ≡ 2 ^ 64 - 3
busy_ticks_wrap_example =
    busy_ticks_wrap (ticks 10 700 5) (ticks 10 900 2) (omega arith) (omega arith) (omega arith)
      (omega arith)
