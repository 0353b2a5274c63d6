-- ===== src/Streamer.antt =====
-- apps/rust-structured-streamer/src
pub mod Domain
pub mod Config
pub mod Accumulator
pub mod Validator
pub mod Dedup
pub mod Columns
pub mod Bronze
pub mod Groups
pub mod Silver
pub mod Gold
pub mod Parquet
pub mod Worker
pub mod Breaker
pub mod Action
pub mod Storage
pub mod Producer
pub mod Consumer
pub mod App
pub mod Start
mod Examples
