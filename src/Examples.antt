-- ===== src/Examples.antt =====
-- Concrete inputs, over thousandths, on which the code runs.
mod Windows
mod Thresholds
mod Forecasts
mod Readings
mod Anomalies
mod Places
mod Grids
mod Alarms
mod Arrivals
mod Detectors
mod Subsystems
mod Predictors
mod Checks
mod Bundles
mod Copies
mod Notices
