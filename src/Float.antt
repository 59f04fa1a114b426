-- ===== src/Float.antt =====
-- Python's `float` (IEEE 754 double) and what the code does with it. The operations come from the
-- interpreter and the hardware, so they are a parameter: a type with an instance of `Float`.
mod Defs
pub mod Fixed
pub use Defs.*
