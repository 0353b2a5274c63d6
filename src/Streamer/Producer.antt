-- ===== src/Streamer/Producer.antt =====
-- apps/rust-structured-streamer/src/transport/producer.rs: one `dataset.gold.ready` record for each
-- Gold artifact of a worker result, and the result types of worker/native_worker.rs.
pub mod Published
use fps_anticheat_data_platf.Prelude.{
  ℕ, Bool, String, Option, none, some, List, [], ◌∷◌, length, keep, str_eq, if◌then◌else◌,
}
use fps_anticheat_data_platf.Prelude.Text.{concat}
use fps_anticheat_data_platf.Prelude.Result.{Result, ok, err}
use fps_anticheat_data_platf.Streamer.Action.{
  AppError, kafka, Effect, sent, World, Action, pure, lift, call, ◌>>=◌, ◌>>◌,
}

pub record UploadedArtifact : Type 0 where
  pub object_key : String
  pub checksum_sha256 : String
  pub layer : String

pub record NativeWorkerResult : Type 0 where
  pub manifest_key : String
  pub artifacts : List UploadedArtifact

pub record GoldReadyEvent : Type 0 where
  pub schema_version : String
  pub event_id : String
  pub op : String
  pub batch_id : String
  pub object_uri : String
  pub checksum_sha256 : String
  pub source_manifest : String
  pub created_at : String

pub record KafkaEventProducer : Type 0 where
  pub gold_ready_topic : String
  pub bucket : String

unfoldable pub is_gold : UploadedArtifact → Bool
is_gold artifact = str_eq artifact.layer "gold/player-match-features"

abbrev pub encoded : Result String (List ℕ) → Result AppError (List ℕ)
encoded (ok bytes) = ok bytes
encoded (err e) = err (kafka (concat ("Serialize dataset.gold.ready thất bại: " ∷ e ∷ [])))

unfoldable pub gold_event_id : (String → String) → String → UploadedArtifact → String
gold_event_id sha256 batch_id artifact =
    sha256 (concat (batch_id ∷ "|" ∷ artifact.object_key ∷ "|" ∷ artifact.checksum_sha256 ∷ []))

-- the event of an artifact, with the bucket, the time of creation, the batch and the manifest
unfoldable pub gold_event :
    (String → String) → String → String → String → String → UploadedArtifact → GoldReadyEvent
unfolding gold_event_id
gold_event sha256 bucket created_at batch_id manifest_key artifact = record {
  schema_version = "1.0";
  event_id = gold_event_id sha256 batch_id artifact;
  op = "data.dataset.gold.ready";
  batch_id = batch_id;
  object_uri = concat ("s3://" ∷ bucket ∷ "/" ∷ artifact.object_key ∷ []);
  checksum_sha256 = artifact.checksum_sha256;
  source_manifest = manifest_key;
  created_at = created_at;
}

module _ (sha256 : String → String) (to_json : GoldReadyEvent → Result String (List ℕ))
    (fault : List Effect → Option String) (producer : KafkaEventProducer)
    (created_at : String) where
  unfoldable pub publish_one : String → String → UploadedArtifact → Action (Unit {0})
  unfolding gold_event call
  publish_one batch_id manifest_key artifact = do
    payload ← lift (
        encoded
          (to_json (gold_event sha256 producer.bucket created_at batch_id manifest_key artifact)))
    call fault
        (λ e. kafka (
          concat (
            "Publish dataset.gold.ready event_id="
            ∷ gold_event_id sha256 batch_id artifact
            ∷ " thất bại: "
            ∷ e
            ∷ [])))
        (sent producer.gold_ready_topic batch_id payload)

  unfoldable pub publish_each : String → String → List UploadedArtifact → Action (Unit {0})
  publish_each batch_id manifest_key [] = pure tt
  publish_each batch_id manifest_key (artifact ∷ rest) = do
    publish_one batch_id manifest_key artifact
    publish_each batch_id manifest_key rest

  unfoldable pub publish_gold_ready : String → NativeWorkerResult → Action ℕ
  unfolding is_gold
  publish_gold_ready batch_id result = do
    let gold_artifacts = keep is_gold result.artifacts
    publish_each batch_id result.manifest_key gold_artifacts
    pure (length gold_artifacts)
