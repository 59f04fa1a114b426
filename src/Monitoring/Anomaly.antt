-- ===== src/Monitoring/Anomaly.antt =====
-- monitoring/anomaly/: the buffers of gas values, and the two detectors over them.
pub mod Buffers
pub mod Zscore
pub mod Changepoint
use icmp.Base.{List}

-- numpy's mean and (population) standard deviation of a list, which is not empty.
pub record Stats (F : Type 0) : Type 0 where
  pub mean : List F → F
  pub std : List F → F
