-- ===== src/Streamer/Breaker.antt =====
-- apps/rust-structured-streamer/src/worker/circuit_breaker.rs: the resource circuit breaker.
-- The contents of /proc/stat and /proc/meminfo are arguments, `none` where the read fails; `f32`
-- arithmetic is the parameter `f32`. `u64` sums and differences wrap, as in a release build.
pub mod Hysteresis
pub mod Ticks
use Prim.Native.Nat.{compare}
use fps_anticheat_data_platf.Prelude.{
  ℕ, ◌+◌, ◌-◌, ◌%◌, ◌^◌, Bool, true, false, ◌&&◌, ◌||◌, String, Option, none, some, List, [], ◌∷◌,
  length, get_elem?, unwrap_or, ltb, leb, if◌then◌else◌, str_eq,
}
use fps_anticheat_data_platf.Prelude.Float.{Float, lt, le, nought, Arithmetic}
use fps_anticheat_data_platf.Prelude.Text.{split_whitespace, lines, parse_u64}
use text.Mathlib.Text.{starts_with}

pub data CircuitBreakerState : Type 0 where
  closed open_circuit : CircuitBreakerState

pub record ResourceCircuitBreaker : Type 0 where
  pub state : CircuitBreakerState
  pub high_cpu_watermark : Float
  pub low_cpu_watermark : Float
  pub high_mem_watermark : Float
  pub low_mem_watermark : Float
  pub prev_idle : ℕ
  pub prev_total : ℕ

unfoldable pub new : Float → Float → Float → Float → ResourceCircuitBreaker
new high_cpu low_cpu high_mem low_mem = record {
  state = closed;
  high_cpu_watermark = high_cpu;
  low_cpu_watermark = low_cpu;
  high_mem_watermark = high_mem;
  low_mem_watermark = low_mem;
  prev_idle = 0;
  prev_total = 0;
}

-- the match on the state in `can_spawn`, for a reading of the two usages
unfoldable pub decide :
    CircuitBreakerState → Float → Float → ResourceCircuitBreaker → ResourceCircuitBreaker × Bool
decide closed global_cpu mem_usage b =
    if le b.high_cpu_watermark global_cpu || le b.high_mem_watermark mem_usage
    then (record b { state = open_circuit }, false)
    else (b, true)
decide open_circuit global_cpu mem_usage b =
    if le global_cpu b.low_cpu_watermark && le mem_usage b.low_mem_watermark
    then (record b { state = closed }, true)
    else (b, false)

-- the eight counters of the `cpu` line
pub record CpuTicks : Type 0 where
  pub user : ℕ
  pub nice : ℕ
  pub system : ℕ
  pub idle : ℕ
  pub iowait : ℕ
  pub irq : ℕ
  pub softirq : ℕ
  pub steal : ℕ

-- `parts[i].parse().unwrap_or(0)`, and 0 where the field is missing
abbrev tick_at : List String → ℕ → ℕ
tick_at parts i = elim (get_elem? parts i) [ none ↦ 0 | some p ↦ unwrap_or (parse_u64 p) 0 ]

unfoldable pub cpu_ticks : List String → Option CpuTicks
cpu_ticks parts =
    if leb 5 (length parts) && str_eq (unwrap_or (get_elem? parts 0) "") "cpu"
    then some (record {
      user = tick_at parts 1;
      nice = tick_at parts 2;
      system = tick_at parts 3;
      idle = tick_at parts 4;
      iowait = tick_at parts 5;
      irq = tick_at parts 6;
      softirq = tick_at parts 7;
      steal = tick_at parts 8;
    })
    else none

abbrev pub u64 : ℕ → ℕ
u64 n = n % 2 ^ 64

unfoldable pub idle_time : CpuTicks → ℕ
idle_time t = u64 (t.idle + t.iowait)

unfoldable pub total_time : CpuTicks → ℕ
total_time t = u64 (t.user + t.nice + t.system + t.idle + t.iowait + t.irq + t.softirq + t.steal)

-- `diff_total - diff_idle`, an unchecked `u64` subtraction
unfoldable pub busy_ticks : ℕ → ℕ → ℕ
busy_ticks diff_total diff_idle = u64 (diff_total + 2 ^ 64 - diff_idle)

-- `nth(1)` of the words of a line
abbrev second_word : String → Option String
second_word line = get_elem? (split_whitespace line) 1

module _ (f32 : Arithmetic) where
  unfoldable pub cpu_usage_of : CpuTicks → ResourceCircuitBreaker → ResourceCircuitBreaker × Float
  unfolding idle_time total_time busy_ticks
  cpu_usage_of t b =
      let diff_idle = idle_time t - b.prev_idle in
      let diff_total = total_time t - b.prev_total in
      (
        record b { prev_idle = idle_time t; prev_total = total_time t },
        if ltb 0 diff_total
            then f32.mul
                (f32.div (f32.of_nat (busy_ticks diff_total diff_idle)) (f32.of_nat diff_total))
                (f32.literal 1000 1)
            else nought,
      )

  abbrev read_ticks : Option CpuTicks → ResourceCircuitBreaker → ResourceCircuitBreaker × Float
  read_ticks none b = (b, nought)
  read_ticks (some t) b = cpu_usage_of t b

  unfoldable pub read_cpu : Option String → ResourceCircuitBreaker → ResourceCircuitBreaker × Float
  unfolding cpu_usage_of cpu_ticks
  read_cpu none b = (b, nought)
  read_cpu (some stat_str) b = elim (lines stat_str) [
    | [] ↦ (b, nought)
    | first_line ∷ _ ↦ read_ticks (cpu_ticks (split_whitespace first_line)) b
  ]

  abbrev parsed_or_nought : Option String → Float → Float
  parsed_or_nought none old = old
  parsed_or_nought (some val) old = unwrap_or (f32.parse val) nought

  -- the loop over the lines of /proc/meminfo, over `total_kb` and `available_kb`
  unfoldable pub scan_meminfo : List String → Float × Float → Float × Float
  scan_meminfo [] found = found
  scan_meminfo (line ∷ rest) found = scan_meminfo rest (
      if starts_with line "MemTotal:"
      then (parsed_or_nought (second_word line) found.0, found.1)
      else if starts_with line "MemAvailable:"
      then (found.0, parsed_or_nought (second_word line) found.1)
      else found)

  unfoldable pub read_mem : Option String → Float
  unfolding scan_meminfo
  read_mem none = nought
  read_mem (some mem_str) =
      let (total_kb, available_kb) = scan_meminfo (lines mem_str) (nought, nought) in
      if lt nought total_kb
      then f32.mul (f32.div (f32.sub total_kb available_kb) total_kb) (f32.literal 1000 1)
      else nought

  abbrev pub default_limits : ResourceCircuitBreaker
  unfolding new
  default_limits =
      new (f32.literal 800 1) (f32.literal 750 1) (f32.literal 850 1) (f32.literal 800 1)

  unfoldable pub can_spawn :
      Option String → Option String → ResourceCircuitBreaker → ResourceCircuitBreaker × Bool
  unfolding decide
  can_spawn stat mem b =
      let (b', global_cpu) = read_cpu stat b in decide b'.state global_cpu (read_mem mem) b'
