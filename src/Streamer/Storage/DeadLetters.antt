-- ===== src/Streamer/Storage/DeadLetters.antt =====
-- What the object of malformed messages holds: nothing of a message is lost.
use fps_anticheat_data_platf.Prelude.{
  ℕ, ◌≡◌, ◌⊎◌, inl, inr, refl, String, Option, some, List, [], ◌∷◌, ◌++◌, map, Option-cases,
}
use fps_anticheat_data_platf.Prelude.Int.{ℤ}
use fps_anticheat_data_platf.Prelude.Result.{Result, ok, Result-cases}
use fps_anticheat_data_platf.Streamer.Domain.{InvalidKafkaMessage}
use fps_anticheat_data_platf.Streamer.Action.{put, World, call}
use fps_anticheat_data_platf.Streamer.Storage.Downloads.{ObjectStore, download_object_bytes}
use fps_anticheat_data_platf.Streamer.Storage.Consistent.{IsConsistent, held-put}
use fps_anticheat_data_platf.Streamer.Storage.Objects.{
  MalformedKafkaDlqRecord, malformed_record, upload_malformed_messages,
}

-- what tells a message: its topic, partition, offset, payload and the reason of its refusal
abbrev pub Letter : Type 0
Letter = String × ℤ × ℤ × String × Option (List ℕ)

abbrev pub letter_of : InvalidKafkaMessage → Letter
letter_of m = (m.topic, m.partition, m.offset, m.error_reason, some m.raw_payload)

abbrev pub read_letter : (String → Option (List ℕ)) → MalformedKafkaDlqRecord → Letter
read_letter decode r = (r.topic, r.partition, r.offset, r.error_reason, decode r.payload_base64)

module _ (store : ObjectStore) (base64 sha256 : List ℕ → String) (decode : String → Option (List ℕ))
    (to_json : List MalformedKafkaDlqRecord → Result String (List ℕ))
    (from_json : List ℕ → Result String (List MalformedKafkaDlqRecord)) where
  -- the libraries read what they write for the messages
  pub record AreCodecs (messages : List InvalidKafkaMessage) : Type 0 where
    pub payload : (bytes : List ℕ) → decode (base64 bytes) ≡ some bytes
    pub json :
        (bytes : List ℕ)
        → to_json (map (malformed_record base64 sha256) messages) ≡ ok bytes
        → from_json bytes ≡ ok (map (malformed_record base64 sha256) messages)

  read_letters :
      ((bytes : List ℕ) → decode (base64 bytes) ≡ some bytes)
      → (messages : List InvalidKafkaMessage)
      → map (read_letter decode) (map (malformed_record base64 sha256) messages)
        ≡ map letter_of messages
  unfolding malformed_record
  read_letters c [] = refl
  read_letters c (m ∷ messages) = rw (c, read_letters c messages) refl

  -- the object under the path can be read, and what it holds reads as the messages
  pub record IsKept (path : String) (messages : List InvalidKafkaMessage) (w w' : World)
      : Type 0 where
    pub bytes : List ℕ
    pub records : List MalformedKafkaDlqRecord
    pub written : w'.log ≡ w.log ++ put path bytes ∷ []
    pub downloads : download_object_bytes store w'.log path ≡ ok bytes
    pub parses : from_json bytes ≡ ok records
    pub letters : map (read_letter decode) records ≡ map letter_of messages
    pub checksums :
        map (λ (r : MalformedKafkaDlqRecord). r.payload_sha256) records
        ≡ map (λ (m : InvalidKafkaMessage). sha256 m.raw_payload) messages

  checksums_of :
      (messages : List InvalidKafkaMessage)
      → map
          (λ (r : MalformedKafkaDlqRecord). r.payload_sha256)
          (map (malformed_record base64 sha256) messages)
        ≡ map (λ (m : InvalidKafkaMessage). sha256 m.raw_payload) messages
  unfolding malformed_record
  checksums_of [] = refl
  checksums_of (m ∷ messages) = rw (checksums_of messages) refl

  -- With a store in which an object can be read once it is put, and with Base64 and JSON libraries
  -- that read what they write for the messages: if the malformed messages are uploaded without an error, either there
  -- is none and nothing is done, or one object is put, and what can be read under its path afterwards
  -- is, message by message in order, the topic, the partition, the offset, the reason, the exact
  -- payload and its checksum.
  pub upload_malformed_messages-reads :
      (path : String) (messages : List InvalidKafkaMessage) (w w' : World)
      → IsConsistent store
      → AreCodecs messages
      → upload_malformed_messages store base64 sha256 to_json path messages w ≡ (ok tt, w')
      → ((messages ≡ []) × (w' ≡ w)) ⊎ IsKept path messages w w'
  unfolding upload_malformed_messages call download_object_bytes
  upload_malformed_messages-reads path [] w w' k c h = inl (refl, cc h)
  upload_malformed_messages-reads path (m ∷ messages) w w' k c h =
      let records = map (malformed_record base64 sha256) (m ∷ messages) in
      elim (Result-cases (to_json records)) [
        | inr (e, j) ↦ absurd (cc (rw j at h))
        | inl (bytes, j) ↦ elim (Option-cases (store.put_fault w.log)) [
          | inr (e, f) ↦ absurd (cc (rw (j, f) at h))
          | inl f ↦
              let grows : w'.log ≡ w.log ++ put path bytes ∷ [] = cc (rw (j, f) at h) in
              inr (record {
                bytes = bytes;
                records = records;
                written = grows;
                downloads =
                    rw
                      (
                        grows,
                        k.reads (w.log ++ put path bytes ∷ []) path bytes
                            (held-put path w.log bytes),
                      )
                      refl;
                parses = c.json bytes j;
                letters = read_letters c.payload (m ∷ messages);
                checksums = checksums_of (m ∷ messages);
              })
        ]
      ]
