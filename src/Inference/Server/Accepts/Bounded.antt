-- ===== src/Inference/Server/Accepts/Bounded.antt =====
-- What holds in every state that the accept loop reaches.
use fps_anticheat_data_platf.Prelude.{ℕ, zero, suc, ◌+◌, ◌≤◌, ◌<◌, ◌≡◌, ◌⊎◌, inl, inr, refl, arith}
use fps_anticheat_data_platf.Inference.Server.Accepts.{
  Phase, selecting, awaiting, stopped, Loop, listening, Step, shuts_down, accept_fails, accepts,
  spawns, handler_ends, Reaches, here, then_step,
}

abbrev pub waiting : Phase → ℕ
waiting selecting = 0
waiting awaiting = 1
waiting stopped = 0

-- A permit is free or with a handler, and a connection that was accepted waits or has a handler.
pub record IsBounded (max : ℕ) (s : Loop) : Type 0 where
  pub permits : s.permits + s.handlers ≡ max
  pub connections : s.accepted ≡ s.spawned + waiting s.phase
  pub handlers : s.handlers ≤ s.spawned

Step-IsBounded : (max : ℕ) {s t : Loop} → IsBounded max s → Step s t → IsBounded max t
Step-IsBounded max b (shuts_down s p) = ground arith
Step-IsBounded max b (accept_fails s p) = b
Step-IsBounded max b (accepts s p) = ground arith
Step-IsBounded max b (spawns s permits p q) = ground arith
Step-IsBounded max b (handler_ends s handlers _ p) = ground arith

pub Reaches-IsBounded : (max : ℕ) {s : Loop} → Reaches (listening max) s → IsBounded max s
Reaches-IsBounded max here = record {
  permits = omega arith;
  connections = refl;
  handlers = omega arith;
}
Reaches-IsBounded max (then_step r step) = Step-IsBounded max (Reaches-IsBounded max r) step

-- a step, or the loop has stopped
abbrev pub GoesOn : Loop → Type 0
GoesOn s = (s.phase ≡ stopped) ⊎ ((t : Loop) × Step s t)

goes_on :
    (max : ℕ) (s : Loop) (phase : Phase) (permits : ℕ)
    → s.phase ≡ phase
    → s.permits ≡ permits
    → 0 < max
    → IsBounded max s
    → GoesOn s
goes_on max s selecting permits p q h b = inr (_, shuts_down s p)
goes_on max s stopped permits p q h b = inl p
goes_on max s awaiting (suc permits) p q h b = inr (_, spawns s permits p q)
goes_on max s awaiting zero p q h b = free s.handlers refl
  where
    free : (handlers : ℕ) → s.handlers ≡ handlers → GoesOn s
    free zero k = absurd (omega (arith, b.permits, q, k, h))
    free (suc handlers) k = inr (_, handler_ends s handlers (rw p refl) k)

-- However accepting, spawning, handlers that end and the shutdown interleave: the handlers that run
-- are at most the concurrency limit, each permit is free or with one of them, every connection that
-- was accepted has a handler but for at most one that waits for a permit, and none waits once the
-- loop has stopped; and until it has stopped, some step is possible.
pub run_until_shutdown-IsBounded :
    (max : ℕ) (s : Loop)
    → 0 < max
    → Reaches (listening max) s
    → IsBounded max s × (s.handlers ≤ max) × GoesOn s
run_until_shutdown-IsBounded max s h r =
    let b = Reaches-IsBounded max r in
    (b, omega (arith, b.permits), goes_on max s s.phase s.permits refl refl h b)
