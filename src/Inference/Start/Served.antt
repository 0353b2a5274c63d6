-- ===== src/Inference/Start/Served.antt =====
-- The model that a service scores with, while reloads, requests and the shutdown meet it.
use fps_anticheat_data_platf.Prelude.{
  ℕ, ◌≡◌, ◌≢◌, ◌∙◌, ◌⊎◌, inl, inr, refl, ap, Bool, true, false, String, Option, none, some, List,
  [], ◌∷◌, All, is_some, arith, Bool-cases, Option-cases, if◌then◌else◌,
}
use fps_anticheat_data_platf.Prelude.Float.{Float, is_finite}
use fps_anticheat_data_platf.Prelude.Result.{Result, ok}
use fps_anticheat_data_platf.Inference.Error.{AppError}
use fps_anticheat_data_platf.Inference.Engine.{
  LoadedModel, OnnxInferenceEngine, current_model, hot_swap, predict, predict_with,
}
use fps_anticheat_data_platf.Inference.Engine.Predicts.{hot_swap_lem}
use fps_anticheat_data_platf.Inference.Bundle.Load.{Directory, Libraries, load_from_directory}
use fps_anticheat_data_platf.Inference.Bundle.Verified.{IsVerified, load_from_directory-IsVerified}
use fps_anticheat_data_platf.Inference.Start.{
  Service, Event, tick, request, changed, goes_on, more_of, reload, react, serve,
}

-- the contents of the model directory at the ticks that the reload task sees
abbrev pub reloads : Bool → List Event → List Directory
reloads on [] = []
reloads on (tick dir ∷ rest) = let later = reloads on rest in if on then dir ∷ later else later
reloads on (request features ∷ rest) = reloads on rest
reloads on (changed value ∷ rest) = elim on [
  | true ↦ reloads (goes_on value) rest
  | false ↦ reloads false rest
]

hot_swap-none :
    (loaded : Result AppError (Option LoadedModel)) (e : OnnxInferenceEngine)
    → loaded ≡ ok none
    → (hot_swap loaded e).1 ≢ ok true
unfolding hot_swap
hot_swap-none loaded e h won = absurd (cc (rw h at won))

module _ (lib : Libraries) (shown : Float → String) (more : ℕ) (Known : Directory → Type 0) where
  -- there is no model, or one that was loaded from contents that are known and passed every check
  abbrev pub IsServed : Option LoadedModel → Type 0
  IsServed model =
      (model ≡ none)
      ⊎ ((m : LoadedModel) × (model ≡ some m)
          × (dir : Directory) × Known dir
          × IsVerified dir lib more m)

  -- the round-robin counter is not part of what was checked
  IsVerified-next_session :
      (dir : Directory) (m : LoadedModel) (n : ℕ)
      → IsVerified dir lib more m
      → IsVerified dir lib more (record m { next_session = n })
  IsVerified-next_session dir m n v = record {
    checksums = v.checksums;
    listing = v.listing;
    genuine = v.genuine;
    listed = v.listed;
    model = v.model;
    schema = v.schema;
    schema_read = v.schema_read;
    version = v.version;
    names = v.names;
    features = v.features;
    policy = v.policy;
    policy_read = v.policy_read;
    medium = v.medium;
    high = v.high;
    critical = v.critical;
    finite = v.finite;
    increasing = v.increasing;
    first = v.first;
    pool = v.pool;
    others = v.others;
  }

  predict_with-next_session :
      (m : LoadedModel) (features : List Float)
      → (predict_with lib.f32 shown m features).0
        ≡ record m { next_session = (predict_with lib.f32 shown m features).0.next_session }
  unfolding predict_with
  predict_with-next_session m features = ground arith

  -- what may become of the model in a step
  abbrev Renumbers : Option LoadedModel → Option LoadedModel → Type 0
  Renumbers before after =
      (after ≡ before)
      ⊎ ((m : LoadedModel) × (n : ℕ) × (before ≡ some m)
          × (after ≡ some (record m { next_session = n })))

  model-predict :
      (features : List Float) (e : OnnxInferenceEngine)
      → Renumbers e.model (predict lib.f32 shown features e).0.model
  unfolding predict current_model
  model-predict features e = elim (Option-cases e.model) [
    | inl k ↦ inl (ground (arith, k))
    | inr (m, k) ↦ elim (Bool-cases e.poisoned) [
      | inl p ↦ inl (ground (arith, k, p))
      | inr p ↦ inr (
        m,
        (predict_with lib.f32 shown m features).0.next_session,
        k,
        ground (arith, k, p, predict_with-next_session m features),
      )
    ]
  ]

  Renumbers-IsServed :
      (before after : Option LoadedModel)
      → Renumbers before after
      → IsServed before
      → IsServed after × (is_some before ≡ true → is_some after ≡ true)
  Renumbers-IsServed before after (inl e) h = (rw e h, (λ s. rw e s))
  Renumbers-IsServed before after (inr (m, n, b, a)) (inl h) = absurd (cc (b, h))
  Renumbers-IsServed before after (inr (m, n, b, a)) (inr (k, e, dir, known, v)) =
      let same : m ≡ k = cc (b, e) in
      (
        inr (
          record m { next_session = n },
          a,
          dir,
          known,
          IsVerified-next_session dir m n (rw same v),
        ),
        (λ s. rw a refl),
      )

  hot_swap-IsServed :
      (dir : Directory) (e : OnnxInferenceEngine)
      → is_finite (lib.f32.literal 10 1) ≡ true
      → Known dir
      → IsServed e.model
      → let e' = (hot_swap (load_from_directory dir lib more) e).0 in
        IsServed e'.model × (is_some e.model ≡ true → is_some e'.model ≡ true)
  hot_swap-IsServed dir e one known h =
      let loaded = load_from_directory dir lib more in
      elim (hot_swap_lem loaded e) [
        | inr (_, same) ↦ rw same (h, (λ s. s))
        | inl (won, is, _) ↦
            elim (load_from_directory-IsVerified dir lib more (hot_swap loaded e).0.model one is) [
              | inl (_, gone) ↦ absurd (hot_swap-none loaded e (is ∙ ap ok gone) won)
              | inr (m, found, v) ↦ (inr (m, found, dir, known, v), (λ s. rw found refl))
            ]
      ]

  react-IsServed :
      (event : Event) (s : Service)
      → is_finite (lib.f32.literal 10 1) ≡ true
      → more_of lib shown s.config.inference_session_pool_size ≡ more
      → All Known (reloads s.reloading (event ∷ []))
      → IsServed s.engine.model
      → IsServed (react lib shown event s).engine.model
        × (is_some s.engine.model ≡ true → is_some (react lib shown event s).engine.model ≡ true)
  unfolding react reload
  react-IsServed (request features) s one size known h =
      Renumbers-IsServed _ _ (model-predict features s.engine) h
  react-IsServed (changed value) s one size known h = (h, (λ k. k))
  react-IsServed (tick dir) s one size known h = elim (Bool-cases s.reloading) [
    | inr off ↦ rw off (h, (λ k. k))
    | inl on ↦ rw (on, size) (hot_swap-IsServed dir s.engine one (rw on at known).0 h)
  ]

  react-reloads :
      (event : Event) (rest : List Event) (s : Service)
      → All Known (reloads s.reloading (event ∷ rest))
      → All Known (reloads s.reloading (event ∷ []))
        × All Known (reloads (react lib shown event s).reloading rest)
        × ((react lib shown event s).config ≡ s.config)
  unfolding react
  react-reloads (request features) rest s known = (tt, known, refl)
  react-reloads (tick dir) rest s known = elim (Bool-cases s.reloading) [
    | inr off ↦ let k = rw off at known in rw off (tt, k, refl)
    | inl on ↦ let k = rw on at known in rw on ((k.0, tt), k.1, refl)
  ]
  react-reloads (changed value) rest s known = elim (Bool-cases s.reloading) [
    | inr off ↦ let k = rw off at known in rw off (tt, k, refl)
    | inl on ↦ let k = rw on at known in rw on (tt, k, refl)
  ]

  pub serve-IsServed :
      (events : List Event) (s : Service)
      → is_finite (lib.f32.literal 10 1) ≡ true
      → more_of lib shown s.config.inference_session_pool_size ≡ more
      → All Known (reloads s.reloading events)
      → IsServed s.engine.model
      → IsServed (serve lib shown events s).engine.model
        × (is_some s.engine.model ≡ true → is_some (serve lib shown events s).engine.model ≡ true)
  unfolding serve
  serve-IsServed [] s one size known h = (h, (λ k. k))
  serve-IsServed (event ∷ rest) s one size known h =
      let (first, later, same) = react-reloads event rest s known in
      let (served, kept) = react-IsServed event s one size first h in
      let (ends, keeps) =
        serve-IsServed rest (react lib shown event s) one (rw same size) later served in
      (ends, (λ k. keeps (kept k)))
