-- ===== src/Engine/Detect.antt =====
-- common/modules/z_score.py and common/modules/change_point.py: the two statistical detectors over
-- the window of a channel, and what they use of numpy and ruptures.
pub mod Zscore
pub mod Changepoint
pub mod Anchor
use icmp.Base.{ℕ, String, Bool, not, Option, none, some, List, [], ◌∷◌, length, select}
use icmp.Float.{Float, ◌<=◌}
use icmp.Engine.Types.{DataPoint}

-- What Pelt(model, min_size, jump=1).fit(signal).predict(pen) ends with.
pub data PeltAnswer : Type 0 where
  found : List ℕ → PeltAnswer
  failed : String → PeltAnswer

-- numpy's functions, Python's `int` of a float that is not negative, and ruptures' Pelt.
pub record Numeric (F : Type 0) : Type 0 where
  pub mean : List F → F
  pub var : List F → F
  pub nanmean : List F → F
  pub nanstd : List F → F  -- with ddof=1
  pub log : F → F
  pub interp : List ℕ → List ℕ → List F → List F  -- interp(x, xp, fp)
  pub isfinite : F → Bool
  pub int : F → ℕ
  pub pelt : String → ℕ → F → List F → PeltAnswer  -- model, min_size, pen, signal

-- points[-1].timestamp, or the present time
unfoldable pub last_timestamp : {F : Type 0} → ℕ → List (DataPoint F) → ℕ
last_timestamp now [] = now
last_timestamp now (p ∷ []) = p.timestamp
last_timestamp now (p ∷ q ∷ rest) = last_timestamp now (q ∷ rest)

module _ {F : Type 0} ⦃f : Float F⦄ where
  -- np.isnan: NaN is the value that is not `<=` itself.
  abbrev pub is_nan : F → Bool
  is_nan x = not (x <= x)

  -- values[~np.isnan(values)]
  abbrev pub without_nan : List F → List F
  without_nan values = select (λ x. not (is_nan x)) values

  -- int(np.sum(~np.isnan(values)))
  abbrev pub count_valid : List F → ℕ
  count_valid values = length (without_nan values)
