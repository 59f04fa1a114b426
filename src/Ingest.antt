-- ===== src/Ingest.antt =====
-- monitoring/services.py: the pipelines from a payload to the tables, the buffers, the alarms and the
-- geofences.
pub mod Data
pub mod Gas
pub mod Power
pub mod Arrivals
pub mod Stored
pub mod Alarms
