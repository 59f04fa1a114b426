-- ===== src/Facilities.antt =====
-- facilities: the places of a plant: geofences, workers and the grid of a floor.
pub mod Types
pub mod Fences
pub mod Workers
pub mod Autofences
pub mod Grid
pub mod Nodes
