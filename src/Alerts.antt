-- ===== src/Alerts.antt =====
-- The alerts application, alerts/: alarm events, the handlers that open, refresh and close them, and
-- the manual change of their status.
mod Types
pub mod Tables
pub mod Gas
pub mod Isolation
pub mod Prediction
pub mod Power
pub mod Missing
pub mod Notices
pub mod Status
pub mod Steps
pub mod Commands
pub use Types.*
