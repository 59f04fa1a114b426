-- ===== src/Float/Defs.antt =====
-- The interface of `float`: its operations, and the laws of its order.
use icmp.Base.{ℕ, String, Bool, true, ◌≡◌, not, ◌&&◌, ◌⊎◌}

pub record Float (F : Type 0) : Type 0 where
  pub le : F → F → Bool  -- a <= b
  pub lt : F → F → Bool  -- a < b
  pub eq : F → F → Bool  -- a == b
  pub add : F → F → F
  pub sub : F → F → F
  pub mul : F → F → F
  pub div : F → F → F
  pub abs : F → F
  pub neg : F → F
  pub nan : F
  pub decimal : ℕ → ℕ → F  -- `decimal m k` is the literal m / 10^k
  pub round : ℕ → F → F  -- round(x, n)
  pub show : F → String  -- f"{x}"
  pub fixed : ℕ → F → String  -- f"{x:.2f}" is `fixed 2 x`

module _ {F : Type 0} ⦃f : Float F⦄ where
  infix 50 ◌<=◌ ◌>=◌ ◌<!◌ ◌>!◌
  abbrev pub ◌<=◌ : F → F → Bool
  a <= b = f.le a b

  -- IEEE 754 reads `a >= b` as `b <= a` and `a > b` as `b < a`, NaN included.
  abbrev pub ◌>=◌ : F → F → Bool
  a >= b = f.le b a

  abbrev pub ◌<!◌ : F → F → Bool
  a <! b = f.lt a b

  abbrev pub ◌>!◌ : F → F → Bool
  a >! b = f.lt b a

  -- An integer literal.
  abbrev pub lit : ℕ → F
  lit n = f.decimal n 0

-- The order of IEEE 754. NaN is the value that is not `<=` itself, and the order is total away from it.
pub record IsOrdered (F : Type 0) ⦃f : Float F⦄ : Type 0 where
  pub le_trans : (a b c : F) → f.le a b ≡ true → f.le b c ≡ true → f.le a c ≡ true
  pub le_total :
      (a b : F) → f.le a a ≡ true → f.le b b ≡ true → (f.le a b ≡ true) ⊎ (f.le b a ≡ true)
  pub lt_def : (a b : F) → f.lt a b ≡ (f.le a b && not (f.le b a))
  pub eq_def : (a b : F) → f.eq a b ≡ (f.le a b && f.le b a)
