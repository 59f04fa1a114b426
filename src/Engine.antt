-- ===== src/Engine.antt =====
-- The analysis engine, fastapi_app/ai_engine/common: its data types and enumerations, with the
-- modules that judge readings.
mod Types
pub mod Threshold
pub mod Window
pub mod Forecast
pub mod Detect
pub mod Subsystem
pub mod Arima
pub mod Bundle
pub use Types.*
