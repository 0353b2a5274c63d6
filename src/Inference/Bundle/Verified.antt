-- ===== src/Inference/Bundle/Verified.antt =====
-- What a model bundle that was loaded has passed.
use fps_anticheat_data_platf.Prelude.{
  ℕ, zero, suc, ◌≤◌, ◌<◌, ◌≡◌, ◌⊎◌, inl, inr, refl, sym, ap, true, false, String, Option, none,
  some, List, [], ◌∷◌, length, is_empty, All, str_eq, str_eq_iff, ◌==◌, ◌∙◌, arith, Bool-cases,
  Option-cases,
}
use fps_anticheat_data_platf.Prelude.Float.{is_finite}
use fps_anticheat_data_platf.Prelude.Result.{Result, ok, err, bind-ok, Result-cases, ok_injective}
use fps_anticheat_data_platf.Inference.Error.{AppError, io, json}
use fps_anticheat_data_platf.Inference.Engine.{RiskThresholds, Session, LoadedModel}
use fps_anticheat_data_platf.Inference.Engine.Predicts.{HasFinite}
use fps_anticheat_data_platf.Inference.Bundle.{
  FeatureSchema, ThresholdPolicy, threshold_named, check_schema, thresholds_of,
}
use fps_anticheat_data_platf.Inference.Bundle.Accepted.{IsIncreasing, thresholds_of-ok}
use fps_anticheat_data_platf.Inference.Bundle.Load.{
  Directory, Libraries, checksum_file, eq_ignore_ascii_case, or_error, checksum_of, listed_or,
  check_required, check_file, check_files, new_session, new_sessions, load_bundle,
  load_from_directory,
}

or_error-ok :
    {A : Type 0} (wrap : String → AppError) (r : Result String A) (a : A)
    → or_error wrap r ≡ ok a
    → r ≡ ok a
unfolding or_error
or_error-ok wrap (ok b) a h = cc h
or_error-ok wrap (err e) a h = absurd (cc h)

listed_or-ok : (o : Option String) (s : String) → listed_or o ≡ ok s → o ≡ some s
unfolding listed_or
listed_or-ok none s h = absurd (cc h)
listed_or-ok (some t) s h = cc h

nonempty-length : (xs : List String) → is_empty xs ≡ false → 0 < length xs
nonempty-length [] h = absurd (cc h)
nonempty-length (x ∷ xs) h = omega arith

check_schema-ok :
    (schema : FeatureSchema) (u : Unit {0})
    → check_schema schema ≡ ok u
    → (0 < length schema.features) × (length schema.features ≤ 128)
unfolding check_schema
check_schema-ok schema u h = ground (arith, h, nonempty-length schema.features)

module _ (dir : Directory) (lib : Libraries) where
  -- the file is there, and its digest is the given one, but for the case of letters
  abbrev pub HasDigest : String → String → Type 0
  HasDigest filename expected =
      (bytes : List ℕ) × (dir.is_file filename ≡ true)
      × (dir.read filename ≡ ok bytes)
      × (eq_ignore_ascii_case (lib.sha256 bytes) expected ≡ true)

  abbrev pub IsGenuine : String × String → Type 0
  IsGenuine (filename, expected) = (filename ≡ checksum_file) ⊎ HasDigest filename expected

  check_file-IsGenuine :
      (filename expected : String) (u : Unit {0})
      → check_file dir lib filename expected ≡ ok u
      → IsGenuine (filename, expected)
  unfolding check_file
  check_file-IsGenuine filename expected u h = elim (Bool-cases (str_eq filename checksum_file)) [
    | inl e ↦ inl ((str_eq_iff filename checksum_file).0 e)
    | inr e ↦ elim (Bool-cases (dir.is_file filename)) [
      | inr f ↦ absurd (cc (rw (e, f) at h))
      | inl f ↦ elim (Result-cases (dir.read filename)) [
        | inr (x, r) ↦ absurd (cc (rw (e, f, r) at h))
        | inl (bytes, r) ↦ elim (Bool-cases (eq_ignore_ascii_case (lib.sha256 bytes) expected)) [
          | inr d ↦ absurd (cc (rw (e, f, r, d) at h))
          | inl d ↦ inr (bytes, f, r, d)
        ]
      ]
    ]
  ]

  check_files-IsGenuine :
      (checksums : List (String × String)) (u : Unit {0})
      → check_files dir lib checksums ≡ ok u
      → All IsGenuine checksums
  unfolding check_files
  check_files-IsGenuine [] u h = tt
  check_files-IsGenuine ((filename, expected) ∷ rest) u h0 =
      let (v, e, h1) = bind-ok (check_file dir lib filename expected) _ h0 in
      (check_file-IsGenuine filename expected v e, check_files-IsGenuine rest u h1)

  -- a listed file other than the list itself has its digest
  checksum_of-HasDigest :
      (filename sum : String) (checksums : List (String × String))
      → str_eq filename checksum_file ≡ false
      → All IsGenuine checksums
      → checksum_of filename checksums ≡ some sum
      → HasDigest filename sum
  unfolding checksum_of
  checksum_of-HasDigest filename sum [] other genuine h = absurd (cc h)
  checksum_of-HasDigest filename sum ((key, value) ∷ rest) other genuine h =
      elim (Bool-cases (str_eq key filename)) [
        | inr e ↦ checksum_of-HasDigest filename sum rest other genuine.1 (rw e at h)
        | inl e ↦
            let same : key ≡ filename = (str_eq_iff key filename).0 e in
            let found : value ≡ sum = cc (rw e at h) in
            elim (rw (same, found) at genuine.0) [
              | inl c ↦ absurd (cc (other, (str_eq_iff filename checksum_file).1 c))
              | inr d ↦ d
            ]
      ]

  length-new_sessions :
      (i n : ℕ) (sessions : List Session)
      → new_sessions dir lib i n ≡ ok sessions
      → length sessions ≡ n
  unfolding new_sessions
  length-new_sessions i zero sessions h = let e : [] ≡ sessions = cc h in rw (← e) refl
  length-new_sessions i (suc n) sessions h0 =
      let (first, e, h1) = bind-ok (new_session dir lib i) _ h0 in
      let (rest, k, h2) = bind-ok (new_sessions dir lib (suc i) n) _ h1 in
      let e : first ∷ rest ≡ sessions = cc h2 in
      rw (← e) (ap suc (length-new_sessions (suc i) n rest k))

  -- the file is there, and its bytes read as the value
  abbrev pub Holds : {A : Type 0} → (List ℕ → Result String A) → String → A → Type 0
  Holds parse filename a =
      (bytes : List ℕ) × (dir.is_file filename ≡ true)
      × (dir.read filename ≡ ok bytes)
      × (parse bytes ≡ ok a)

  -- the session of each number is the one made of the model file, with one input
  abbrev pub AllMade : ℕ → List Session → Type 0
  AllMade i [] = Unit
  AllMade i (session ∷ rest) = (lib.commit_from_file i ≡ ok (session, 1)) × AllMade (suc i) rest

  -- A model that a directory's bundle was loaded to.
  pub record IsVerified (more : ℕ) (m : LoadedModel) : Type 0 where
    pub checksums : List (String × String)
    pub listing : Holds lib.checksums checksum_file checksums
    pub genuine : All IsGenuine checksums
    pub listed : checksum_of "model.onnx" checksums ≡ some m.sha256_checksum
    pub model : HasDigest "model.onnx" m.sha256_checksum
    pub schema : FeatureSchema
    pub schema_read : Holds lib.schema "feature_schema.json" schema
    pub version : m.version ≡ schema.model_version
    pub names : m.feature_names ≡ schema.features
    pub features : (0 < length m.feature_names) × (length m.feature_names ≤ 128)
    pub policy : ThresholdPolicy
    pub policy_read : Holds lib.policy "threshold_policy.json" policy
    pub medium : threshold_named "MEDIUM" policy.thresholds ≡ some m.thresholds.medium
    pub high : threshold_named "HIGH" policy.thresholds ≡ some m.thresholds.high
    pub critical : threshold_named "CRITICAL" policy.thresholds ≡ some m.thresholds.critical
    pub finite : HasFinite m.thresholds
    pub increasing : IsIncreasing (lib.f32.literal 10 1) m.thresholds
    pub first : lib.commit_from_file 0 ≡ ok (m.first_session, 1)
    pub pool : length m.more_sessions ≡ more
    pub others : AllMade 1 m.more_sessions

  check_required-ok :
      (a b c : String) (u : Unit {0})
      → check_required dir lib (a ∷ b ∷ c ∷ []) ≡ ok u
      → (dir.is_file a ≡ true) × (dir.is_file b ≡ true) × (dir.is_file c ≡ true)
  unfolding check_required
  check_required-ok a b c u h = ground (arith, h)

  new_session-ok :
      (i : ℕ) (session : Session)
      → new_session dir lib i ≡ ok session
      → lib.commit_from_file i ≡ ok (session, 1)
  unfolding new_session or_error
  new_session-ok i session h = elim (Option-cases (lib.builder i)) [
    | inr (x, a) ↦ absurd (cc (rw a at h))
    | inl a ↦ elim (Option-cases (lib.optimization i)) [
      | inr (x, b) ↦ absurd (cc (rw (a, b) at h))
      | inl b ↦ elim (Option-cases (lib.cuda i)) [
        | inr (x, c) ↦ absurd (cc (rw (a, b, c) at h))
        | inl c ↦ elim (Result-cases (lib.commit_from_file i)) [
          | inr (x, d) ↦ absurd (cc (rw (a, b, c, d) at h))
          | inl ((found, inputs), d) ↦ elim (Bool-cases (inputs == 1)) [
            | inr e ↦ absurd (cc (rw (a, b, c, d, e) at h))
            | inl e ↦
                let one : inputs ≡ 1 = ground (arith, e) in
                let same : found ≡ session = ok_injective (rw (a, b, c, d, e) at h) in
                d ∙ rw (one, same) refl
          ]
        ]
      ]
    ]
  ]

  new_sessions-AllMade :
      (i n : ℕ) (sessions : List Session)
      → new_sessions dir lib i n ≡ ok sessions
      → AllMade i sessions
  unfolding new_sessions
  new_sessions-AllMade i zero sessions h = let e : [] ≡ sessions = cc h in rw (← e) tt
  new_sessions-AllMade i (suc n) sessions h0 =
      let (first, e, h1) = bind-ok (new_session dir lib i) _ h0 in
      let (rest, k, h2) = bind-ok (new_sessions dir lib (suc i) n) _ h1 in
      let same : first ∷ rest ≡ sessions = cc h2 in
      rw (← same) (new_session-ok i first e, new_sessions-AllMade (suc i) n rest k)

  load_bundle-IsVerified :
      (more : ℕ) (m : LoadedModel)
      → is_finite (lib.f32.literal 10 1) ≡ true
      → load_bundle dir lib more ≡ ok m
      → IsVerified more m
  unfolding load_bundle
  load_bundle-IsVerified more m one h0 =
      let (needed, required, h1) =
        bind-ok
          (check_required dir lib
            ("feature_schema.json" ∷ "threshold_policy.json" ∷ checksum_file ∷ []))
          _ h0 in
      let (there_schema, there_policy, there_list) =
        check_required-ok "feature_schema.json" "threshold_policy.json" checksum_file needed
          required in
      let (listing, list_bytes, h2) = bind-ok (or_error io (dir.read checksum_file)) _ h1 in
      let (sums, list_parsed, h3) = bind-ok (or_error json (lib.checksums listing)) _ h2 in
      let (u, checked, h4) = bind-ok (check_files dir lib sums) _ h3 in
      let (sum, listed, h5) = bind-ok (listed_or (checksum_of "model.onnx" sums)) _ h4 in
      let (schema_bytes, schema_got, h6) =
        bind-ok (or_error io (dir.read "feature_schema.json")) _ h5 in
      let (schema, schema_parsed, h7) = bind-ok (or_error json (lib.schema schema_bytes)) _ h6 in
      let (v, sized, h8) = bind-ok (check_schema schema) _ h7 in
      let (policy_bytes, policy_got, h9) =
        bind-ok (or_error io (dir.read "threshold_policy.json")) _ h8 in
      let (policy, policy_parsed, h10) = bind-ok (or_error json (lib.policy policy_bytes)) _ h9 in
      let (thresholds, graded, h11) = bind-ok (thresholds_of lib.f32 policy) _ h10 in
      let (first, made, h12) = bind-ok (new_session dir lib 0) _ h11 in
      let (rest, pooled, h13) = bind-ok (new_sessions dir lib 1 more) _ h12 in
      verified sums sum schema policy thresholds first rest
        (
          listing,
          there_list,
          or_error-ok io (dir.read checksum_file) listing list_bytes,
          or_error-ok json (lib.checksums listing) sums list_parsed,
        )
        (check_files-IsGenuine sums u checked)
        (listed_or-ok (checksum_of "model.onnx" sums) sum listed)
        (
          schema_bytes,
          there_schema,
          or_error-ok io (dir.read "feature_schema.json") schema_bytes schema_got,
          or_error-ok json (lib.schema schema_bytes) schema schema_parsed,
        )
        (check_schema-ok schema v sized)
        (
          policy_bytes,
          there_policy,
          or_error-ok io (dir.read "threshold_policy.json") policy_bytes policy_got,
          or_error-ok json (lib.policy policy_bytes) policy policy_parsed,
        )
        (thresholds_of-ok lib.f32 one policy thresholds graded) (new_session-ok 0 first made)
        (length-new_sessions 1 more rest pooled) (new_sessions-AllMade 1 more rest pooled)
        (ok_injective h13)
    where
      verified :
          (sums : List (String × String)) (sum : String) (schema : FeatureSchema)
          (policy : ThresholdPolicy) (t : RiskThresholds) (first : Session) (rest : List Session)
          → Holds lib.checksums checksum_file sums
          → All IsGenuine sums
          → checksum_of "model.onnx" sums ≡ some sum
          → Holds lib.schema "feature_schema.json" schema
          → (0 < length schema.features) × (length schema.features ≤ 128)
          → Holds lib.policy "threshold_policy.json" policy
          → (threshold_named "MEDIUM" policy.thresholds ≡ some t.medium)
            × (threshold_named "HIGH" policy.thresholds ≡ some t.high)
            × (threshold_named "CRITICAL" policy.thresholds ≡ some t.critical)
            × HasFinite t
            × IsIncreasing (lib.f32.literal 10 1) t
          → lib.commit_from_file 0 ≡ ok (first, 1)
          → length rest ≡ more
          → AllMade 1 rest
          → record {
            version = schema.model_version;
            sha256_checksum = sum;
            feature_names = schema.features;
            first_session = first;
            more_sessions = rest;
            next_session = 0;
            thresholds = t;
          }
            ≡ m
          → IsVerified more m
      verified sums sum schema policy t first rest list genuine listed has sized rules graded made
            pooled others e =
          rw (← e) (record {
            checksums = sums;
            listing = list;
            genuine = genuine;
            listed = listed;
            model = checksum_of-HasDigest "model.onnx" sum sums refl genuine listed;
            schema = schema;
            schema_read = has;
            version = refl;
            names = refl;
            features = sized;
            policy = policy;
            policy_read = rules;
            medium = graded.0;
            high = graded.1;
            critical = graded.2;
            finite = graded.3;
            increasing = graded.4;
            first = made;
            pool = pooled;
            others = others;
          })

pub load_from_directory-IsVerified :
    (dir : Directory) (lib : Libraries) (more : ℕ) (o : Option LoadedModel)
    → is_finite (lib.f32.literal 10 1) ≡ true
    → load_from_directory dir lib more ≡ ok o
    → ((dir.exists "model.onnx" ≡ false) × (o ≡ none))
      ⊎ ((m : LoadedModel) × (o ≡ some m) × IsVerified dir lib more m)
unfolding load_from_directory
load_from_directory-IsVerified dir lib more o one h = elim (Bool-cases (dir.exists "model.onnx")) [
  | inr e ↦ inl (e, sym (ok_injective (rw e at h)))
  | inl e ↦ elim (Result-cases (load_bundle dir lib more)) [
    | inr (x, l) ↦ absurd (cc (rw (e, l) at h))
    | inl (m, l) ↦
        inr (m, sym (ok_injective (rw (e, l) at h)), load_bundle-IsVerified dir lib more m one l)
  ]
]
