-- ===== src/Streamer/Breaker/Ticks.antt =====
-- The counters of /proc/stat: when the unchecked subtraction of `read_proc_metrics` is exact.
use fps_anticheat_data_platf.Prelude.{ℕ, ◌+◌, ◌-◌, ◌^◌, ◌≤◌, ◌<◌, ◌≡◌, arith}
use fps_anticheat_data_platf.Streamer.Breaker.{CpuTicks, idle_time, total_time, busy_ticks}

-- time that no idle counter takes
abbrev pub busy_time : CpuTicks → ℕ
busy_time t = t.user + t.nice + t.system + t.irq + t.softirq + t.steal

-- counters whose sum fits a `u64`
abbrev pub Fits : CpuTicks → Type 0
Fits t = busy_time t + t.idle + t.iowait < 2 ^ 64

-- If the counters fit, the busy time has not fallen and the idle time has not fallen since the
-- last reading, the wrapped difference is the busy time since then and at most the total.
pub busy_ticks_exact :
    (old new : CpuTicks)
    → Fits old
    → Fits new
    → busy_time old ≤ busy_time new
    → old.idle + old.iowait ≤ new.idle + new.iowait
    → let diff_total = total_time new - total_time old in
      let busy = busy_ticks diff_total (idle_time new - idle_time old) in
      (busy ≡ busy_time new - busy_time old) × (busy ≤ diff_total)
unfolding idle_time total_time busy_ticks
busy_ticks_exact old new f g b i = omega arith

-- If the busy time fell, as when a steal counter is set back, and the idle time rose by at least
-- as much, the difference wraps to a value of at least 2 ^ 64 less the fall.
pub busy_ticks_wrap :
    (old new : CpuTicks)
    → Fits old
    → Fits new
    → busy_time new < busy_time old
    → old.idle + old.iowait + (busy_time old - busy_time new) ≤ new.idle + new.iowait
    → let diff_total = total_time new - total_time old in
      busy_ticks diff_total (idle_time new - idle_time old)
      ≡ 2 ^ 64 - (busy_time old - busy_time new)
unfolding idle_time total_time busy_ticks
busy_ticks_wrap old new f g b i = omega arith
