-- ===== src/Engine/Detect/Changepoint/Signal.antt =====
-- common/modules/change_point.py: the signal that `_interpolate_nan` makes of a window.
use icmp.Base.{
  ℕ, suc, ◌≡◌, refl, ap, ◌∙◌, Bool, not, none, some, List, [], ◌∷◌, length, all, any, if◌then◌else◌,
  arith,
}
use icmp.Float.{Float}
use icmp.Engine.Detect.{Numeric, is_nan, without_nan}
use icmp.Engine.Detect.Changepoint.{indices, valid_indices, interpolate_nan}

-- np.interp gives one value for each x.
pub record KeepsLength {F : Type 0} (np : Numeric F) : Type 0 where
  pub length-interp : (x xp : List ℕ) (fp : List F) → length (np.interp x xp fp) ≡ length x

pub length-indices : {F : Type 0} (i : ℕ) (xs : List F) → length (indices i xs) ≡ length xs
length-indices i [] = refl
length-indices i (x ∷ xs) = ap suc (length-indices (suc i) xs)

some-injective : {A : Type 0} {a b : A} → some a ≡ some b → a ≡ b
some-injective e = cc

module _ {F : Type 0} ⦃f : Float F⦄ where
  chosen :
      (lost : Bool) (whole : Bool) (values filled s : List F)
      → length filled ≡ length values
      → (if lost then none else (if not whole then some values else some filled)) ≡ some s
      → length s ≡ length values
  chosen lost whole values filled s k e = ground arith

  pub length-interpolate_nan :
      (np : Numeric F)
      → KeepsLength np
      → (values s : List F) → interpolate_nan np values ≡ some s
      → length s ≡ length values
  unfolding interpolate_nan
  length-interpolate_nan np k values s e =
      chosen (all is_nan values) (any is_nan values) values _ s
        (k.length-interp (indices 0 values) (valid_indices (indices 0 values) values)
            (without_nan values)
          ∙ length-indices 0 values)
        e
