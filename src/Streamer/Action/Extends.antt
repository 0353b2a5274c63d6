-- ===== src/Streamer/Action/Extends.antt =====
-- Actions that add to the log and commit nothing.
use fps_anticheat_data_platf.Prelude.{
  ◌≡◌, refl, sym, ◌∙◌, Option, String, List, [], ◌∷◌, ◌++◌, append_assoc, append-nil, All,
  All-append, Option-cases, inl, inr,
}
use fps_anticheat_data_platf.Prelude.Result.{Result, ok, err}
use fps_anticheat_data_platf.Streamer.Action.{
  AppError, Effect, committed, World, pure, lift, call, continue, ◌>>=◌,
}

abbrev pub IsUncommitted : Effect → Type 0
IsUncommitted (committed topic ps) = ⊥
IsUncommitted _ = Unit

-- The log grows by effects among which there is no commit.
pub record Quietly (w w' : World) : Type 0 where
  pub added : List Effect
  pub grows : w'.log ≡ w.log ++ added
  pub quiet : All IsUncommitted added

-- Whether the action succeeds or fails, it commits nothing.
pub record IsQuiet {ℓ} {A : Type ℓ} (m : World → Result AppError A × World) : Type ℓ where
  pub at : (w : World) → Quietly w (m w).1

pub Quietly-refl : (w : World) → Quietly w w
Quietly-refl w = record { added = []; grows = sym (append-nil w.log); quiet = tt }

pub Quietly-trans : {u v w : World} → Quietly u v → Quietly v w → Quietly u w
Quietly-trans {u} {v} {w} p q = record {
  added = p.added ++ q.added;
  grows = q.grows ∙ cc (p.grows, append_assoc u.log p.added q.added);
  quiet = All-append IsUncommitted p.added q.added p.quiet q.quiet;
}

module _ {ℓ} {A : Type ℓ} where
  pub IsQuiet-pure : (a : A) → IsQuiet (pure a)
  IsQuiet-pure a = record { at = λ w. Quietly-refl w }

  pub IsQuiet-lift : (r : Result AppError A) → IsQuiet (lift r)
  IsQuiet-lift r = record { at = λ w. Quietly-refl w }

pub IsQuiet-call :
    (fault : List Effect → Option String) (wrap : String → AppError) (e : Effect)
    → IsUncommitted e
    → IsQuiet (call fault wrap e)
unfolding call
IsQuiet-call fault wrap e u = record {
  at = λ w. elim (Option-cases (fault w.log)) [
    | inl h ↦ rw h (record { added = e ∷ []; grows = refl; quiet = (u, tt) })
    | inr (x, h) ↦ rw h (Quietly-refl w)
  ];
}

module _ {ℓ κ} {A : Type ℓ} {B : Type κ} where
  pub IsQuiet-bind :
      (m : World → Result AppError A × World) (f : A → World → Result AppError B × World)
      → IsQuiet m
      → ((a : A) → IsQuiet (f a))
      → IsQuiet (m >>= f)
  IsQuiet-bind m f p q = record { at = λ w. after (m w) w (p.at w) }
    where
      after :
          (r : Result AppError A × World) (w : World) → Quietly w r.1 → Quietly w (continue r f).1
      after (ok a, v) w h = Quietly-trans h ((q a).at v)
      after (err e, v) w h = h

pub ruleset quiet_rules = (IsQuiet-pure, IsQuiet-lift, IsQuiet-call, IsQuiet-bind)
