-- ===== src/Streamer/Examples/Letters.antt =====
-- An upload of malformed messages to a store in memory. A payload is coded in place of Base64 as the
-- bytes in unary, each ended by a comma.
use Prim.Native.Char.{code}
use fps_anticheat_data_platf.Prelude.{
  ℕ, zero, suc, ◌+◌, ◌≡◌, ◌⊎◌, refl, ap, ◌∙◌, String, Option, some, List, [], ◌∷◌, ◌==◌, map, arith,
  if◌then◌else◌,
}
use fps_anticheat_data_platf.Prelude.Int.{pos}
use fps_anticheat_data_platf.Prelude.Result.{Result, ok}
use fps_anticheat_data_platf.Streamer.Domain.{InvalidKafkaMessage}
use fps_anticheat_data_platf.Streamer.Action.{World, put, call}
use fps_anticheat_data_platf.Streamer.Storage.Consistent.{IsConsistent}
use fps_anticheat_data_platf.Streamer.Storage.Objects.{
  MalformedKafkaDlqRecord, malformed_record, upload_malformed_messages,
}
use fps_anticheat_data_platf.Streamer.Storage.DeadLetters.{
  AreCodecs, IsKept, upload_malformed_messages-reads,
}
use fps_anticheat_data_platf.Streamer.Examples.{anything, broken, start, watched}
use fps_anticheat_data_platf.Streamer.Examples.Serving.{native}

ones : ℕ → String → String
ones zero rest = String.◌∷◌ "," rest
ones (suc n) rest = String.◌∷◌ "1" (ones n rest)

unary : List ℕ → String
unfolding ones
unary [] = ""
unary (n ∷ bytes) = ones n (unary bytes)

read_from : ℕ → String → List ℕ
read_from n String.[] = []
read_from n (String.◌∷◌ c s) =
    let byte = n ∷ read_from 0 s in
    let more = read_from (suc n) s in if code c == 44 then byte else more

abbrev read_unary : String → Option (List ℕ)
read_unary s = some (read_from 0 s)

read_from-ones : (k n : ℕ) (rest : String) → read_from k (ones n rest) ≡ (k + n) ∷ read_from 0 rest
unfolding read_from ones
read_from-ones k zero rest = ap (λ m. m ∷ read_from 0 rest) (omega arith)
read_from-ones k (suc n) rest =
    read_from-ones (suc k) n rest ∙ ap (λ m. m ∷ read_from 0 rest) (omega arith)

read_from-unary : (bytes : List ℕ) → read_from 0 (unary bytes) ≡ bytes
unfolding unary read_from
read_from-unary [] = refl
read_from-unary (n ∷ bytes) =
    read_from-ones 0 n (unary bytes)
    ∙ ap (λ m. m ∷ read_from 0 (unary bytes)) (omega arith)
    ∙ ap (λ (l : List ℕ). n ∷ l) (read_from-unary bytes)

abbrev letters : List InvalidKafkaMessage
letters = broken (pos 0) (pos 9) ∷ broken (pos 1) (pos 4) ∷ []

abbrev to_json : List MalformedKafkaDlqRecord → Result String (List ℕ)
to_json records = ok (7 ∷ [])

abbrev from_json : List ℕ → Result String (List MalformedKafkaDlqRecord)
from_json bytes = ok (map (malformed_record unary anything) letters)

letters-AreCodecs : AreCodecs native.store unary anything read_unary to_json from_json letters
letters-AreCodecs = record {
  payload = λ bytes. ap some (read_from-unary bytes);
  json = λ bytes written. refl;
}

abbrev after : World
after = record { log = put "dlq.json" (7 ∷ []) ∷ []; breaker = watched }

letters_upload :
    upload_malformed_messages native.store unary anything to_json "dlq.json" letters start
    ≡ (ok tt, after)
unfolding upload_malformed_messages call
letters_upload = refl

store-IsConsistent : IsConsistent native.store
store-IsConsistent = record { reads = λ log key bytes e. rw e refl }

upload_malformed_messages-reads_example :
    ((letters ≡ []) × (after ≡ start))
    ⊎ IsKept native.store unary anything read_unary to_json from_json "dlq.json" letters start after
upload_malformed_messages-reads_example =
    upload_malformed_messages-reads native.store unary anything read_unary to_json from_json
      "dlq.json" letters start after store-IsConsistent letters-AreCodecs letters_upload
