-- ===== src/Float/Fixed.antt =====
-- A concrete `Float` for the witnesses: signed thousandths, with `none` for NaN and for a division
-- by zero. Texts of numbers are one fixed mark.
use icmp.Base.{
  ℕ, ◌+◌, ◌-◌, ◌*◌, ◌/◌, Bool, false, Option, none, some, suc, arith, ltb, leb, ◌==◌, if◌then◌else◌,
}
use Prim.Native.Nat.{◌^◌}
use icmp.Float.Defs.{Float, IsOrdered}

-- `minus n` is -(n + 1) thousandths.
pub data Milli : Type 0 where
  plus : ℕ → Milli
  minus : ℕ → Milli

abbrev up : Milli → ℕ
up (plus n) = n
up (minus n) = 0

abbrev down : Milli → ℕ
down (plus n) = 0
down (minus n) = suc n

abbrev diff : ℕ → ℕ → Milli
diff a b = if leb b a then plus (a - b) else minus (b - a - 1)

abbrev pub Fixed : Type 0
Fixed = Option Milli

abbrev test : (ℕ → ℕ → Bool) → Fixed → Fixed → Bool
test r (some a) (some b) = r (up a + down b) (up b + down a)
test r _ _ = false

abbrev lift : (Milli → Milli → Fixed) → Fixed → Fixed → Fixed
lift g (some a) (some b) = g a b
lift g _ _ = none

abbrev map_milli : (Milli → Milli) → Fixed → Fixed
map_milli g (some a) = some (g a)
map_milli g none = none

abbrev plus_milli : Milli → Milli → Fixed
plus_milli a b = some (diff (up a + up b) (down a + down b))

abbrev negate : Milli → Milli
negate a = diff (down a) (up a)

abbrev size : Milli → ℕ
size a = up a + down a

abbrev signed : Milli → Milli → ℕ → Milli
signed (plus a) (plus b) n = diff n 0
signed (minus a) (minus b) n = diff n 0
signed a b n = diff 0 n

abbrev times : Milli → Milli → Fixed
times a b = some (signed a b (size a * size b / 1000))

abbrev ratio : Milli → Milli → Fixed
ratio a b = if size b == 0 then none else some (signed a b (size a * 1000 / size b))

instance abbrev pub fixed_float : Float Fixed
fixed_float = record {
  le = test leb;
  lt = test ltb;
  eq = test (λ a b. a == b);
  add = lift plus_milli;
  sub = lift (λ a b. plus_milli a (negate b));
  mul = lift times;
  div = lift ratio;
  abs = map_milli (λ a. plus (size a));
  neg = map_milli negate;
  nan = none;
  decimal = λ m k. some (plus (m * 1000 / 10 ^ k));
  round = λ n a. a;
  show = λ a. "#";
  fixed = λ n a. "#";
}

pub Fixed-IsOrdered : IsOrdered Fixed
Fixed-IsOrdered = ground arith

-- A whole number.
abbrev pub whole : ℕ → Fixed
whole n = some (plus (n * 1000))
