-- ===== src/Monitoring.antt =====
-- The monitoring application, monitoring/: its readings, the levels of gases, the
-- status of power channels, and the statistical detectors.
mod Types
pub mod Gas
pub mod Power
pub mod Anomaly
unfoldable pub use Types.*
