-- ===== src/Inference.antt =====
-- apps/ml-platform/rust-inference/src
pub mod Error
pub mod Config
pub mod Policy
pub mod Evidence
pub mod Evaluator
pub mod Engine
pub mod Bundle
pub mod Server
pub mod Start
pub mod Predictions
mod Examples
