-- ===== src/Streamer/Breaker/Hysteresis.antt =====
-- The two states and the gap between the watermarks.
use fps_anticheat_data_platf.Prelude.{
  ◌≡◌, ◌↔◌, ◌⊎◌, Bool, true, false, ◌&&◌, ◌||◌, String, Option, none, some, arith,
}
use fps_anticheat_data_platf.Prelude.Float.{Float, lt, le, nought, Arithmetic, le_trans, lt-not_le}
use fps_anticheat_data_platf.Streamer.Breaker.{
  closed, open_circuit, ResourceCircuitBreaker, decide, can_spawn, read_cpu, read_mem,
}

-- the recovery watermarks lie below the trip watermarks
pub record HasGap (b : ResourceCircuitBreaker) : Type 0 where
  pub cpu : lt b.low_cpu_watermark b.high_cpu_watermark ≡ true
  pub mem : lt b.low_mem_watermark b.high_mem_watermark ≡ true

abbrev pub trips : ResourceCircuitBreaker → Float → Float → Bool
trips b cpu mem = le b.high_cpu_watermark cpu || le b.high_mem_watermark mem

abbrev pub recovers : ResourceCircuitBreaker → Float → Float → Bool
recovers b cpu mem = le cpu b.low_cpu_watermark && le mem b.low_mem_watermark

-- no usage is at once at or above the one mark and at or below the other
apart : (low high x : Float) → lt low high ≡ true → le high x ≡ true → le x low ≡ true → ⊥
apart low high x g h k = cc (le_trans high x low h k, lt-not_le low high g)

trips_not_recovers :
    (b : ResourceCircuitBreaker) (cpu mem : Float)
    → HasGap b
    → trips b cpu mem ≡ true
    → recovers b cpu mem ≡ false
trips_not_recovers b cpu mem g t = ground (
  arith,
  apart b.low_cpu_watermark b.high_cpu_watermark cpu g.cpu,
  apart b.low_mem_watermark b.high_mem_watermark mem g.mem,
)

-- With a gap between the watermarks, repeating a reading changes neither the state nor the answer:
-- one reading never trips the breaker and recovers it again, or the other way round.
pub decide_idem :
    (b : ResourceCircuitBreaker) (cpu mem : Float)
    → HasGap b
    → let b' = (decide b.state cpu mem b).0 in decide b'.state cpu mem b' ≡ decide b.state cpu mem b
unfolding decide
decide_idem b cpu mem g = ground (arith, trips_not_recovers b cpu mem g)

-- a reading of the counters leaves the state and the four watermarks
record SameMarks (b c : ResourceCircuitBreaker) : Type 0 where
  state : c.state ≡ b.state
  high_cpu : c.high_cpu_watermark ≡ b.high_cpu_watermark
  low_cpu : c.low_cpu_watermark ≡ b.low_cpu_watermark
  high_mem : c.high_mem_watermark ≡ b.high_mem_watermark
  low_mem : c.low_mem_watermark ≡ b.low_mem_watermark

read_cpu-SameMarks :
    (f32 : Arithmetic) (stat : Option String) (b : ResourceCircuitBreaker)
    → SameMarks b (read_cpu f32 stat b).0
unfolding read_cpu
read_cpu-SameMarks f32 none b = ground arith
read_cpu-SameMarks f32 (some s) b = ground arith

-- Whatever the readings, `can_spawn` answers yes exactly if the breaker ends closed, and the breaker
-- ends open exactly if it was closed and a usage is at or above its trip watermark, or it was open
-- and a usage is not at or below its recovery watermark.
pub can_spawn_lem :
    (f32 : Arithmetic) (stat mem : Option String) (b : ResourceCircuitBreaker)
    → let b' = (can_spawn f32 stat mem b).0 in
      let cpu = (read_cpu f32 stat b).1 in
      (((can_spawn f32 stat mem b).1 ≡ true) ↔ (b'.state ≡ closed))
      × ((b'.state ≡ open_circuit) ↔ (
          ((b.state ≡ closed) × (trips b cpu (read_mem f32 mem) ≡ true))
          ⊎ ((b.state ≡ open_circuit) × (recovers b cpu (read_mem f32 mem) ≡ false))))
unfolding can_spawn
can_spawn_lem f32 stat mem b = ground (arith, read_cpu-SameMarks f32 stat b)

-- A breaker whose watermarks are not below 0 takes unreadable metrics for an idle machine: with
-- /proc/stat and /proc/meminfo both unreadable an open breaker closes and lets work start.
pub can_spawn_unreadable :
    (f32 : Arithmetic) (b : ResourceCircuitBreaker)
    → le nought b.low_cpu_watermark ≡ true
    → le nought b.low_mem_watermark ≡ true
    → b.state ≡ open_circuit
    → can_spawn f32 none none b ≡ (record b { state = closed }, true)
unfolding can_spawn read_cpu read_mem
can_spawn_unreadable f32 b c m o = ground arith
