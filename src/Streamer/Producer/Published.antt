-- ===== src/Streamer/Producer/Published.antt =====
-- What a successful publication has sent.
use fps_anticheat_data_platf.Prelude.{
  ℕ, ◌≡◌, refl, inl, inr, ap, String, Option, List, [], ◌∷◌, ◌++◌, append_assoc, append-nil, length,
  keep, arith,
}
use fps_anticheat_data_platf.Prelude.Result.{Result, ok, err, Result-cases}
use fps_anticheat_data_platf.Streamer.Action.{AppError, Effect, sent, World, pure}
use fps_anticheat_data_platf.Streamer.Action.Extends.{IsQuiet, IsQuiet-bind, quiet_rules}
use fps_anticheat_data_platf.Streamer.Action.Inversion.{bind-ok, call-ok}
use fps_anticheat_data_platf.Streamer.Producer.{
  UploadedArtifact, NativeWorkerResult, GoldReadyEvent, KafkaEventProducer, is_gold, gold_event,
  publish_one, publish_each, publish_gold_ready,
}

module _ (sha256 : String → String) (to_json : GoldReadyEvent → Result String (List ℕ))
    (fault : List Effect → Option String) (producer : KafkaEventProducer) (created_at : String)
    (batch_id : String) where
  abbrev event_of : String → UploadedArtifact → GoldReadyEvent
  event_of key a = gold_event sha256 producer.bucket created_at batch_id key a

  -- one record per artifact, in order: the event's encoding, on the topic, under the batch's key
  abbrev pub Announces : String → List UploadedArtifact → List Effect → Type 0
  Announces key [] [] = Unit
  Announces key (a ∷ rest) (e ∷ es) =
      ((payload : List ℕ) × (to_json (event_of key a) ≡ ok payload)
        × (e ≡ sent producer.gold_ready_topic batch_id payload))
      × Announces key rest es
  Announces _ _ _ = ⊥

  publish_one-ok :
      (key : String) (a : UploadedArtifact) (w w' : World)
      → publish_one sha256 to_json fault producer created_at batch_id key a w ≡ (ok tt, w')
      → (payload : List ℕ) × (to_json (event_of key a) ≡ ok payload)
        × (w'.log ≡ w.log ++ sent producer.gold_ready_topic batch_id payload ∷ [])
  unfolding publish_one
  publish_one-ok key a w w' h = elim (Result-cases (to_json (event_of key a))) [
    | inl (payload, e) ↦ (
      payload,
      e,
      ap (λ (z : World). z.log)
          (call-ok fault _ (sent producer.gold_ready_topic batch_id payload) w w' (rw e at h)),
    )
    | inr (x, e) ↦
        let k : ◌≡◌ {A = Result AppError (Unit {0}) × World} (err _, w) (ok tt, w') = rw e at h in
        cc
  ]

  publish_each-ok :
      (key : String) (artifacts : List UploadedArtifact) (w w' : World)
      → publish_each sha256 to_json fault producer created_at batch_id key artifacts w ≡ (ok tt, w')
      → (es : List Effect) × (w'.log ≡ w.log ++ es) × Announces key artifacts es
  unfolding publish_each
  publish_each-ok key [] w w' h = ([], ground (arith, append-nil w.log), tt)
  publish_each-ok key (a ∷ rest) w w' h =
      let (x, v, p, q) =
        bind-ok (publish_one sha256 to_json fault producer created_at batch_id key a)
          (λ _. publish_each sha256 to_json fault producer created_at batch_id key rest) w h in
      let (payload, e, first) = publish_one-ok key a w v p in
      let (es, grows, more) = publish_each-ok key rest v w' q in
      (
        sent producer.gold_ready_topic batch_id payload ∷ es,
        cc (
          grows,
          first,
          append_assoc w.log (sent producer.gold_ready_topic batch_id payload ∷ []) es,
        ),
        ((payload, e, refl), more),
      )

  -- A publication that succeeds has sent exactly one record for each Gold artifact of the worker's
  -- result, in order, and answers their number.
  pub publish_gold_ready-ok :
      (result : NativeWorkerResult) (w w' : World) (n : ℕ)
      → publish_gold_ready sha256 to_json fault producer created_at batch_id result w ≡ (ok n, w')
      → (es : List Effect) × (w'.log ≡ w.log ++ es)
        × Announces result.manifest_key (keep is_gold result.artifacts) es
        × (n ≡ length (keep is_gold result.artifacts))
  unfolding publish_gold_ready
  publish_gold_ready-ok result w w' n h =
      let (x, v, p, q) =
        bind-ok
          (publish_each sha256 to_json fault producer created_at batch_id result.manifest_key
            (keep is_gold result.artifacts))
          (λ _. pure (length (keep is_gold result.artifacts))) w h in
      let (es, grows, all) =
        publish_each-ok result.manifest_key (keep is_gold result.artifacts) w v p in
      (es, ground (arith, grows), all, ground arith)

  publish_one-IsQuiet :
      (key : String) (a : UploadedArtifact)
      → IsQuiet (publish_one sha256 to_json fault producer created_at batch_id key a)
  unfolding publish_one
  publish_one-IsQuiet key a = search quiet_rules

  publish_each-IsQuiet :
      (key : String) (artifacts : List UploadedArtifact)
      → IsQuiet (publish_each sha256 to_json fault producer created_at batch_id key artifacts)
  unfolding publish_each
  publish_each-IsQuiet key [] = search quiet_rules
  publish_each-IsQuiet key (a ∷ rest) =
      IsQuiet-bind _ _ (publish_one-IsQuiet key a) (λ _. publish_each-IsQuiet key rest)

  pub publish_gold_ready-IsQuiet :
      (result : NativeWorkerResult)
      → IsQuiet (publish_gold_ready sha256 to_json fault producer created_at batch_id result)
  unfolding publish_gold_ready
  publish_gold_ready-IsQuiet result =
      IsQuiet-bind _ _ (publish_each-IsQuiet result.manifest_key (keep is_gold result.artifacts))
        (λ _. search quiet_rules)
