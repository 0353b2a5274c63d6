-- ===== src/Inference/Server.antt =====
-- apps/ml-platform/rust-inference/src/ipc/uds_server.rs: one request over the socket. The bytes that
-- the peer sends are a list, JSON is a parameter, and a time limit is one of the ways a read or a
-- write ends. `swapped` is what other tasks do to the shared engine between the two reads of it.
pub mod Responds
pub mod Accepts
use Prim.Native.String.{len}
use fps_anticheat_data_platf.Prelude.{
  ℕ, suc, Bool, true, false, not, ◌||◌, String, Option, none, some, List, [], ◌∷◌, ◌++◌, length,
  take, is_empty, ltb, ◌==◌, if◌then◌else◌, str_eq,
}
use fps_anticheat_data_platf.Prelude.Float.{Float, nought, Arithmetic}
use fps_anticheat_data_platf.Prelude.Text.{is_blank, trim}
use fps_anticheat_data_platf.Prelude.Result.{Result, ok, err, ◌>>=◌}
use fps_anticheat_data_platf.Inference.Error.{AppError, display, ipc, io, json}
use fps_anticheat_data_platf.Inference.Policy.{PolicyConfig}
use fps_anticheat_data_platf.Inference.Evidence.{EvidenceMatrix, generate_evidence}
use fps_anticheat_data_platf.Inference.Evaluator.{DecisionOutcome, evaluate}
use fps_anticheat_data_platf.Inference.Engine.{OnnxInferenceEngine, predict, version}

pub record IpcPredictRequest : Type 0 where
  pub op : String
  pub match_id : String
  pub player_id : String
  pub features : List Float

pub record IpcPredictResponse : Type 0 where
  pub status : String
  pub match_id : String
  pub player_id : String
  pub risk_score : Float
  pub risk_level : String
  pub model_version : String
  pub evidence_matrix : EvidenceMatrix
  pub decision_outcome : Option DecisionOutcome
  pub error : Option String

unfoldable pub error_response : String → String → String → IpcPredictResponse
error_response match_id player_id message = record {
  status = "UNAVAILABLE";
  match_id = match_id;
  player_id = player_id;
  risk_score = nought;
  risk_level = "UNAVAILABLE";
  model_version = "UNAVAILABLE";
  evidence_matrix = record { top_evidence_features = [] };
  decision_outcome = none;
  error = some message;
}

-- the first guard of `evaluate_request`
unfoldable pub is_refused : IpcPredictRequest → Bool
is_refused r =
    not (str_eq r.op "predict")
    || is_blank (trim r.match_id)
    || is_blank (trim r.player_id)
    || ltb 256 (len r.match_id)
    || ltb 256 (len r.player_id)

-- `read_until(b'\n')`: the bytes up to the first newline, itself included
unfoldable pub read_until_newline : List ℕ → List ℕ
read_until_newline [] = []
read_until_newline (b ∷ rest) =
    let more = read_until_newline rest in if b == 10 then b ∷ [] else b ∷ more

-- how reading the request goes: with the bytes that the peer sends
pub data Reading : Type 0 where
  read_timeout : Reading
  read_failed : String → Reading
  received : List ℕ → Reading

-- how `write_all` under its time limit goes
pub data Written : Type 0 where
  written write_timeout : Written
  write_failed : String → Written

abbrev written_or : Written → Result AppError (Unit {0})
written_or written = ok tt
written_or write_timeout = err (ipc "Timeout khi ghi IPC response")
written_or (write_failed e) = err (io e)

abbrev encoded_or : Result String (List ℕ) → Result AppError (List ℕ)
encoded_or (ok bytes) = ok bytes
encoded_or (err e) = err (json e)

module _ (f32 : Arithmetic) (shown : Float → String)
    (swapped : OnnxInferenceEngine → OnnxInferenceEngine) where
  abbrev pub answered :
      IpcPredictRequest
      → Option PolicyConfig
      → OnnxInferenceEngine
      → Result AppError (Float × String)
      → IpcPredictResponse
  unfolding version generate_evidence evaluate display
  answered r config e (ok (risk_score, risk_level)) =
      let evidence_matrix = generate_evidence f32 r.features in
      record {
        status = "ok";
        match_id = r.match_id;
        player_id = r.player_id;
        risk_score = risk_score;
        risk_level = risk_level;
        model_version = version (swapped e);
        evidence_matrix = evidence_matrix;
        decision_outcome = some (evaluate f32 config risk_score evidence_matrix r.features);
        error = none;
      }
  answered r config e (err x) = error_response r.match_id r.player_id (display x)

  -- the response, and the engine as scoring leaves it
  unfoldable pub evaluate_request :
      IpcPredictRequest
      → Option PolicyConfig
      → OnnxInferenceEngine
      → OnnxInferenceEngine × IpcPredictResponse
  unfolding is_refused error_response predict version generate_evidence evaluate display
  evaluate_request r config e =
      if is_refused r
      then (e, error_response r.match_id r.player_id "op hoặc identifier không hợp lệ")
      else let scored = predict f32 shown r.features e in
        (swapped scored.0, answered r config scored.0 scored.1)

  abbrev pub requested :
      Option PolicyConfig
      → OnnxInferenceEngine
      → Result String IpcPredictRequest
      → OnnxInferenceEngine × IpcPredictResponse
  unfolding evaluate_request error_response
  requested config e (ok r) = evaluate_request r config e
  requested config e (err x) = (e, error_response "" "" "JSON IPC request không hợp lệ")

  -- what follows once the response is there: its encoding, a newline, and the write
  abbrev pub sent_back :
      (IpcPredictResponse → Result String (List ℕ))
      → (List ℕ → Written)
      → IpcPredictResponse
      → Result AppError (List ℕ)
  sent_back to_vec write_all response = do
    encoded ← encoded_or (to_vec response)
    let response_bytes = encoded ++ 10 ∷ []
    _ ← written_or (write_all response_bytes)
    ok response_bytes

  abbrev pub respond :
      ℕ
      → (List ℕ → Result String IpcPredictRequest)
      → Option PolicyConfig
      → OnnxInferenceEngine
      → List ℕ
      → OnnxInferenceEngine × IpcPredictResponse
  respond max_request_bytes from_json config e payload =
      if ltb max_request_bytes (length payload)
      then (e, error_response "" "" "IPC request vượt giới hạn kích thước")
      else requested config e (from_json payload)

  -- the engine as the connection leaves it, and the bytes that were written
  unfoldable pub handle_connection :
      ℕ
      → (List ℕ → Result String IpcPredictRequest)
      → (IpcPredictResponse → Result String (List ℕ))
      → (List ℕ → Written)
      → Option PolicyConfig
      → OnnxInferenceEngine
      → Reading
      → OnnxInferenceEngine × Result AppError (List ℕ)
  unfolding read_until_newline evaluate_request error_response
  handle_connection max_request_bytes from_json to_vec write_all config e read_timeout =
      (e, err (ipc "Timeout khi đọc IPC request"))
  handle_connection max_request_bytes from_json to_vec write_all config e (read_failed x) =
      (e, err (io x))
  handle_connection max_request_bytes from_json to_vec write_all config e (received sent) =
      let payload = read_until_newline (take (suc max_request_bytes) sent) in
      let reply = respond max_request_bytes from_json config e payload in
      if is_empty payload
      then (e, err (ipc "IPC request rỗng"))
      else (reply.0, sent_back to_vec write_all reply.1)
