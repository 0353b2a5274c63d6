-- ===== src/Inference/Server/Responds.antt =====
-- Responses: scored ones and refusals.
use mathlib.Core.Path.{subst}
use Prim.Native.String.{len}
use fps_anticheat_data_platf.Prelude.{
  ℕ, zero, suc, ◌≤◌, ◌≡◌, ◌↔◌, ◌⊎◌, inl, inr, refl, sym, ap, ◌∙◌, true, false, String, Option, none,
  some, List, [], ◌∷◌, ◌++◌, length, take, is_empty, is_some, ltb, ◌==◌, arith, str_eq_iff,
  Bool-cases,
}
use fps_anticheat_data_platf.Prelude.Float.{Float, nought, Arithmetic}
use fps_anticheat_data_platf.Prelude.Text.{is_blank, trim}
use fps_anticheat_data_platf.Prelude.Result.{Result, ok, err, Result-cases}
use fps_anticheat_data_platf.Inference.Error.{AppError, ipc, io, json}
use fps_anticheat_data_platf.Inference.Policy.{PolicyConfig}
use fps_anticheat_data_platf.Inference.Evidence.{generate_evidence}
use fps_anticheat_data_platf.Inference.Evaluator.{evaluate}
use fps_anticheat_data_platf.Inference.Engine.{OnnxInferenceEngine, predict, version}
use fps_anticheat_data_platf.Inference.Server.{
  IpcPredictRequest, IpcPredictResponse, error_response, is_refused, read_until_newline,
  evaluate_request, requested, respond, sent_back, Reading, read_timeout, read_failed, received,
  Written, written, write_timeout, write_failed, handle_connection,
}

-- a response without score, evidence and decision
pub record IsRefusal (response : IpcPredictResponse) : Type 0 where
  pub status : response.status ≡ "UNAVAILABLE"
  pub level : response.risk_level ≡ "UNAVAILABLE"
  pub score : response.risk_score ≡ nought
  pub evidence : response.evidence_matrix.top_evidence_features ≡ []
  pub decision : response.decision_outcome ≡ none
  pub error : is_some response.error ≡ true

pub record IsRequest (r : IpcPredictRequest) : Type 0 where
  pub op : r.op ≡ "predict"
  pub match_present : is_blank (trim r.match_id) ≡ false
  pub player_present : is_blank (trim r.player_id) ≡ false
  pub match_short : len r.match_id ≤ 256
  pub player_short : len r.player_id ≤ 256

is_refused-IsRequest : (r : IpcPredictRequest) → (is_refused r ≡ false) ↔ IsRequest r
unfolding is_refused
is_refused-IsRequest r = ground (arith, str_eq_iff r.op "predict")

error_response-IsRefusal : (m p x : String) → IsRefusal (error_response m p x)
unfolding error_response
error_response-IsRefusal m p x = record {
  status = refl;
  level = refl;
  score = refl;
  evidence = refl;
  decision = refl;
  error = refl;
}

module _ (f32 : Arithmetic) (shown : Float → String)
    (swapped : OnnxInferenceEngine → OnnxInferenceEngine) where
  -- a response to an accepted request with the engine's score and the evaluator's decision on it
  pub record IsScored (r : IpcPredictRequest) (config : Option PolicyConfig)
      (e : OnnxInferenceEngine) (response : IpcPredictResponse) : Type 0 where
    pub request : IsRequest r
    pub status : response.status ≡ "ok"
    pub match_id : response.match_id ≡ r.match_id
    pub player_id : response.player_id ≡ r.player_id
    pub score : (predict f32 shown r.features e).1 ≡ ok (response.risk_score, response.risk_level)
    pub evidence : response.evidence_matrix ≡ generate_evidence f32 r.features
    pub decision :
        response.decision_outcome
        ≡ some
            (evaluate f32 config response.risk_score (generate_evidence f32 r.features) r.features)
    pub model_version :
        response.model_version ≡ version (swapped (predict f32 shown r.features e).0)
    pub error : response.error ≡ none

  -- Every response to a request is a refusal, or it is scored: the request names its operation, its
  -- match and its player, and the response has the engine's score and level, the evidence of the
  -- features, and the evaluator's decision on both. Its model version is that of the engine after
  -- whatever other tasks did to it since the scoring.
  pub evaluate_request_lem :
      (r : IpcPredictRequest) (config : Option PolicyConfig) (e : OnnxInferenceEngine)
      → IsScored r config e (evaluate_request f32 shown swapped r config e).1
        ⊎ IsRefusal (evaluate_request f32 shown swapped r config e).1
  unfolding evaluate_request
  evaluate_request_lem r config e = elim (Bool-cases (is_refused r)) [
    | inl k ↦ rw k (inr (error_response-IsRefusal _ _ _))
    | inr k ↦ elim (Result-cases (predict f32 shown r.features e).1) [
      | inr (x, l) ↦ rw (k, l) (inr (error_response-IsRefusal _ _ _))
      | inl (s, l) ↦
          rw (k, l)
            (inl (record {
              request = (is_refused-IsRequest r).0 k;
              status = refl;
              match_id = refl;
              player_id = refl;
              score = l;
              evidence = refl;
              decision = refl;
              model_version = refl;
              error = refl;
            }))
    ]
  ]

short_line :
    (n : ℕ) (xs : List ℕ)
    → length (read_until_newline (take (suc n) xs)) ≤ n
    → read_until_newline (take (suc n) xs) ≡ read_until_newline xs
unfolding read_until_newline
short_line n [] h = refl
short_line zero (x ∷ xs) h = absurd (ground (arith, h))
short_line (suc n) (x ∷ xs) h = elim (Bool-cases (x == 10)) [
  | inl e ↦ rw e
  | inr e ↦ rw e (ap (λ (l : List ℕ). x ∷ l) (short_line n xs (ground (arith, e, h))))
]

nothing_read : (n : ℕ) (xs : List ℕ) → is_empty (read_until_newline (take (suc n) xs)) ≡ is_empty xs
unfolding read_until_newline
nothing_read n [] = refl
nothing_read n (x ∷ xs) = ground arith

module _ (f32 : Arithmetic) (shown : Float → String)
    (swapped : OnnxInferenceEngine → OnnxInferenceEngine) where
  -- an accepted line within the limit that parses and is scored
  abbrev pub Serves :
      ℕ
      → (List ℕ → Result String IpcPredictRequest)
      → Option PolicyConfig
      → OnnxInferenceEngine
      → List ℕ
      → IpcPredictResponse
      → Type 0
  Serves limit from_json config e sent response =
      (r : IpcPredictRequest) × (length (read_until_newline sent) ≤ limit)
      × (from_json (read_until_newline sent) ≡ ok r)
      × IsScored f32 shown swapped r config e response

  -- the response to what was sent: a refusal, or the answer to an accepted line
  abbrev pub Replies :
      ℕ
      → (List ℕ → Result String IpcPredictRequest)
      → Option PolicyConfig
      → OnnxInferenceEngine
      → List ℕ
      → IpcPredictResponse
      → Type 0
  Replies limit from_json config e sent response =
      IsRefusal response ⊎ Serves limit from_json config e sent response

  parsed_line :
      (limit : ℕ) (from_json : List ℕ → Result String IpcPredictRequest)
      (config : Option PolicyConfig) (e : OnnxInferenceEngine) (sent line : List ℕ)
      → line ≡ read_until_newline sent
      → length line ≤ limit
      → (parsed : Result String IpcPredictRequest) → from_json line ≡ parsed
      → Replies limit from_json config e sent (requested f32 shown swapped config e parsed).1
  unfolding evaluate_request error_response
  parsed_line limit from_json config e sent line same short (err x) p =
      inl (error_response-IsRefusal _ _ _)
  parsed_line limit from_json config e sent line same short (ok r) p =
      elim (evaluate_request_lem f32 shown swapped r config e) [
        | inl s ↦ inr (
          r,
          subst (λ (l : List ℕ). length l ≤ limit) same short,
          subst (λ (l : List ℕ). from_json l ≡ ok r) same p,
          s,
        )
        | inr s ↦ inl s
      ]

  -- the encoded response with its newline was written, or it was not: it could not be encoded, or the
  -- write failed or timed out
  abbrev pub Sends :
      (IpcPredictResponse → Result String (List ℕ))
      → (List ℕ → Written)
      → IpcPredictResponse
      → Result AppError (List ℕ)
      → Type 0
  Sends to_vec write_all response (ok bytes) =
      (encoded : List ℕ) × (to_vec response ≡ ok encoded)
      × (bytes ≡ encoded ++ 10 ∷ [])
      × (write_all bytes ≡ written)
  Sends to_vec write_all response (err x) =
      ((e : String) × (to_vec response ≡ err e) × (x ≡ json e))
      ⊎ ((encoded : List ℕ) × (to_vec response ≡ ok encoded)
          × (((write_all (encoded ++ 10 ∷ []) ≡ write_timeout)
                × (x ≡ ipc "Timeout khi ghi IPC response"))
              ⊎ ((e : String) × (write_all (encoded ++ 10 ∷ []) ≡ write_failed e) × (x ≡ io e))))

  -- how a connection concludes, for each way in which its request is read
  abbrev pub Concludes :
      ℕ
      → (List ℕ → Result String IpcPredictRequest)
      → (IpcPredictResponse → Result String (List ℕ))
      → (List ℕ → Written)
      → Option PolicyConfig
      → OnnxInferenceEngine
      → Reading
      → Result AppError (List ℕ)
      → Type 0
  Concludes limit from_json to_vec write_all config e read_timeout result =
      result ≡ err (ipc "Timeout khi đọc IPC request")
  Concludes limit from_json to_vec write_all config e (read_failed x) result = result ≡ err (io x)
  Concludes limit from_json to_vec write_all config e (received sent) result =
      ((sent ≡ []) × (result ≡ err (ipc "IPC request rỗng")))
      ⊎ ((response : IpcPredictResponse) × Replies limit from_json config e sent response
          × Sends to_vec write_all response result)

  sent_back-Sends :
      (to_vec : IpcPredictResponse → Result String (List ℕ)) (write_all : List ℕ → Written)
      (response : IpcPredictResponse)
      → Sends to_vec write_all response (sent_back f32 shown swapped to_vec write_all response)
  sent_back-Sends to_vec write_all response = encode (to_vec response) refl
    where
      write :
          (encoded : List ℕ) (r : Written)
          → to_vec response ≡ ok encoded
          → write_all (encoded ++ 10 ∷ []) ≡ r
          → Sends to_vec write_all response (sent_back f32 shown swapped to_vec write_all response)
      write encoded written v w = rw (v, w) (encoded, v, refl, w)
      write encoded write_timeout v w = rw (v, w) (inr (encoded, v, inl (w, refl)))
      write encoded (write_failed e) v w = rw (v, w) (inr (encoded, v, inr (e, w, refl)))

      encode :
          (r : Result String (List ℕ))
          → to_vec response ≡ r
          → Sends to_vec write_all response (sent_back f32 shown swapped to_vec write_all response)
      encode (err e) v = rw v (inl (e, v, refl))
      encode (ok encoded) v = write encoded (write_all (encoded ++ 10 ∷ [])) v refl

  respond-Replies :
      (limit : ℕ) (from_json : List ℕ → Result String IpcPredictRequest)
      (config : Option PolicyConfig) (e : OnnxInferenceEngine) (sent line : List ℕ)
      → read_until_newline (take (suc limit) sent) ≡ line
      → Replies limit from_json config e sent
          (respond f32 shown swapped limit from_json config e line).1
  respond-Replies limit from_json config e sent line same =
      elim (Bool-cases (ltb limit (length line))) [
        | inl l ↦ rw l (inl (error_response-IsRefusal _ _ _))
        | inr l ↦
            let short : length line ≤ limit = ground (arith, l) in
            rw l (
              parsed_line limit from_json config e sent line
                (sym same ∙ short_line limit sent (rw same short)) short (from_json line) refl)
      ]

  -- However a connection goes: a read that fails or is too slow is its error, and so is an empty
  -- request. Else there is a response, a refusal or the answer to the whole first line, which is
  -- within the limit, parses, and is scored: no line is cut and then parsed. It is written with a
  -- newline behind it, or the error is that of encoding it, of the write, or of the write's time limit.
  pub handle_connection_lem :
      (limit : ℕ) (from_json : List ℕ → Result String IpcPredictRequest)
      (to_vec : IpcPredictResponse → Result String (List ℕ)) (write_all : List ℕ → Written)
      (config : Option PolicyConfig) (e : OnnxInferenceEngine) (reading : Reading)
      → Concludes limit from_json to_vec write_all config e reading
          (handle_connection f32 shown swapped limit from_json to_vec write_all config e reading).1
  unfolding handle_connection
  handle_connection_lem limit from_json to_vec write_all config e read_timeout = refl
  handle_connection_lem limit from_json to_vec write_all config e (read_failed x) = refl
  handle_connection_lem limit from_json to_vec write_all config e (received sent) =
      let line = read_until_newline (take (suc limit) sent) in
      let reply = respond f32 shown swapped limit from_json config e line in
      elim (Bool-cases (is_empty line)) [
        | inl k ↦ rw k (inl (empty sent (sym (nothing_read limit sent) ∙ k), refl))
        | inr k ↦ rw k (
            inr (
              reply.1,
              respond-Replies limit from_json config e sent line refl,
              sent_back-Sends to_vec write_all reply.1,
            ))
      ]
    where
      empty : (xs : List ℕ) → is_empty xs ≡ true → xs ≡ []
      empty [] h = refl
      empty (x ∷ xs) h = cc
