-- ===== src/Inference/Error.antt =====
-- apps/ml-platform/rust-inference/src/error.rs: the errors, with the text that Display gives them.
use fps_anticheat_data_platf.Prelude.{String, [], ◌∷◌}
use fps_anticheat_data_platf.Prelude.Text.{concat}

pub data AppError : Type 0 where
  config model_load checksum_mismatch inference policy ipc io json : String → AppError

unfoldable pub display : AppError → String
display (config e) = concat ("Lỗi cấu hình biến môi trường (Fail-Close Triggered): " ∷ e ∷ [])
display (model_load e) = concat ("Lỗi nạp mô hình ONNX Model: " ∷ e ∷ [])
display (checksum_mismatch e) = concat ("Lỗi verify SHA-256 Checksum: " ∷ e ∷ [])
display (inference e) = concat ("Lỗi ONNX inference: " ∷ e ∷ [])
display (policy e) = concat ("Lỗi policy configuration: " ∷ e ∷ [])
display (ipc e) = concat ("Lỗi thực thi Unix Domain Socket IPC: " ∷ e ∷ [])
display (io e) = concat ("Lỗi IO File System: " ∷ e ∷ [])
display (json e) = concat ("Lỗi Serde JSON: " ∷ e ∷ [])
