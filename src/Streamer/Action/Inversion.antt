-- ===== src/Streamer/Action/Inversion.antt =====
-- What a successful action tells about its parts.
use fps_anticheat_data_platf.Prelude.{
  ◌≡◌, ◌∙◌, ◌⊎◌, refl, Option, String, List, [], ◌∷◌, ◌++◌, arith, inl, inr,
}
use fps_anticheat_data_platf.Prelude.Result.{Result, ok, err}
use fps_anticheat_data_platf.Streamer.Action.{AppError, Effect, World, call, lift, continue, ◌>>=◌}

module _ {ℓ κ} {A : Type ℓ} {B : Type κ} where
  pub bind-ok :
      (m : World → Result AppError A × World) (f : A → World → Result AppError B × World)
      (w : World) {b : B} {w' : World}
      → (m >>= f) w ≡ (ok b, w')
      → (a : A) × (v : World) × (m w ≡ (ok a, v)) × (f a v ≡ (ok b, w'))
  bind-ok m f w h = split (m w) refl h
    where
      split :
          {b : B} {w' : World} (r : Result AppError A × World)
          → m w ≡ r
          → continue r f ≡ (ok b, w')
          → (a : A) × (v : World) × (m w ≡ (ok a, v)) × (f a v ≡ (ok b, w'))
      split (ok a, v) e k = (a, v, e, k)
      split (err x, v) e k = cc

pub call-ok :
    (fault : List Effect → Option String) (wrap : String → AppError) (e : Effect) (w w' : World)
    → call fault wrap e w ≡ (ok tt, w')
    → w' ≡ record w { log = w.log ++ e ∷ [] }
unfolding call
call-ok fault wrap e w w' h = ground arith

pub lift-ok {ℓ} :
    {A : Type ℓ} (r : Result AppError A) (w : World) {a : A} {w' : World}
    → lift r w ≡ (ok a, w')
    → (r ≡ ok a) × (w' ≡ w)
lift-ok r w h = (cc, cc)

module _ {ℓ κ} {A : Type ℓ} {B : Type κ} where
  pub bind-err :
      (m : World → Result AppError A × World) (f : A → World → Result AppError B × World)
      (w : World) {x : AppError} {w' : World}
      → (m >>= f) w ≡ (err x, w')
      → (m w ≡ (err x, w')) ⊎ ((a : A) × (v : World) × (m w ≡ (ok a, v)) × (f a v ≡ (err x, w')))
  bind-err m f w h = split (m w) refl h
    where
      split :
          {x : AppError} {w' : World} (r : Result AppError A × World)
          → m w ≡ r
          → continue r f ≡ (err x, w')
          → (m w ≡ (err x, w'))
            ⊎ ((a : A) × (v : World) × (m w ≡ (ok a, v)) × (f a v ≡ (err x, w')))
      split (ok a, v) e k = inr (a, v, e, k)
      split (err y, v) e k = inl (e ∙ cc)
