-- ===== src/Inference/Server/Accepts/Drains.antt =====
-- The accept loop once no connection comes any more.
use fps_anticheat_data_platf.Prelude.{ℕ, zero, suc, ◌+◌, ◌≤◌, ◌<◌, ◌≡◌, ◌⊎◌, inl, inr, refl, arith}
use fps_anticheat_data_platf.Inference.Server.Accepts.{
  Phase, selecting, awaiting, stopped, Loop, listening, Step, shuts_down, accept_fails, accepts,
  spawns, handler_ends, Reaches, then_step,
}
use fps_anticheat_data_platf.Inference.Server.Accepts.Bounded.{IsBounded, Reaches-IsBounded}

-- a step at which `accept` answers nothing
abbrev pub IsQuiet : {s t : Loop} → Step s t → Type 0
IsQuiet (shuts_down s p) = Unit
IsQuiet (accept_fails s p) = ⊥
IsQuiet (accepts s p) = ⊥
IsQuiet (spawns s permits p q) = Unit
IsQuiet (handler_ends s handlers _ p) = Unit

-- a number of such steps
pub data Runs : ℕ → Loop → Loop → Type 0 where
  ends : {s : Loop} → Runs 0 s s
  goes : {n : ℕ} {s t u : Loop} (step : Step s t) → IsQuiet step → Runs n t u → Runs (suc n) s u

abbrev of_phase : Phase → ℕ
of_phase selecting = 1
of_phase awaiting = 3
of_phase stopped = 0

-- how many quiet steps there can be
abbrev pub remaining : Loop → ℕ
remaining s = s.handlers + of_phase s.phase

remaining-Step : {s t : Loop} (step : Step s t) → IsQuiet step → remaining t < remaining s
remaining-Step (shuts_down s p) q = ground arith
remaining-Step (accept_fails s p) q = absurd q
remaining-Step (accepts s p) q = absurd q
remaining-Step (spawns s permits p e) q = ground arith
remaining-Step (handler_ends s handlers _ p) q = ground arith

remaining-Runs : {n : ℕ} {s t : Loop} → Runs n s t → n + remaining t ≤ remaining s
remaining-Runs ends = omega arith
remaining-Runs (goes step q r) = omega (arith, remaining-Step step q, remaining-Runs r)

Runs-Reaches : {start s t : Loop} {n : ℕ} → Reaches start s → Runs n s t → Reaches start t
Runs-Reaches reached ends = reached
Runs-Reaches reached (goes step q r) = Runs-Reaches (then_step reached step) r

-- the loop has stopped, no connection that was accepted is left without a handler, and a permit is
-- free or with a handler that still runs
pub record IsStopped (max : ℕ) (s : Loop) : Type 0 where
  pub phase : s.phase ≡ stopped
  pub connections : s.accepted ≡ s.spawned
  pub permits : s.permits + s.handlers ≡ max

abbrev pub CanGoOn : Loop → Type 0
CanGoOn s = (t : Loop) × (step : Step s t) × IsQuiet step

goes_on_or_done :
    (max : ℕ) (s : Loop) (phase : Phase) (permits handlers : ℕ)
    → s.phase ≡ phase
    → s.permits ≡ permits
    → s.handlers ≡ handlers
    → 0 < max
    → IsBounded max s
    → CanGoOn s ⊎ IsStopped max s
goes_on_or_done max s selecting permits handlers p q k h b = inl (_, shuts_down s p, tt)
goes_on_or_done max s awaiting (suc permits) handlers p q k h b = inl (_, spawns s permits p q, tt)
goes_on_or_done max s awaiting zero (suc handlers) p q k h b =
    inl (_, handler_ends s handlers (rw p refl) k, tt)
goes_on_or_done max s awaiting zero zero p q k h b = absurd (omega (arith, b.permits, q, k, h))
goes_on_or_done max s stopped permits handlers p q k h b =
    inr (record { phase = p; connections = ground (arith, p, b.connections); permits = b.permits })

-- From every state that the accept loop reaches, if no connection comes any more and the shutdown is
-- signalled: whatever the order in which the loop goes on and handlers end, there are at most three
-- more steps than handlers that run, and when none is left, the loop has stopped, every connection
-- that was accepted has got its handler, and each permit is free or with a handler that still runs.
pub run_until_shutdown-IsStopped :
    (max : ℕ) (s t : Loop) (n : ℕ)
    → 0 < max
    → Reaches (listening max) s
    → Runs n s t
    → (n ≤ remaining s) × (remaining s ≤ s.handlers + 3) × (CanGoOn t ⊎ IsStopped max t)
run_until_shutdown-IsStopped max s t n h r runs =
    let b = Reaches-IsBounded max (Runs-Reaches r runs) in
    (
      omega (arith, remaining-Runs runs),
      few s.phase refl,
      goes_on_or_done max t t.phase t.permits t.handlers refl refl refl h b,
    )
  where
    few : (phase : Phase) → s.phase ≡ phase → remaining s ≤ s.handlers + 3
    few phase p = ground arith
