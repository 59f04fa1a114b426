-- ===== src/Base/Texts.antt =====
-- Python's `str` as the native text: f-strings, `join`, `upper` and `in`.
use Prim.Native.Nat.{ℕ, zero, suc, ◌+◌, ◌/◌, ◌%◌}
use Prim.Native.Char.{Char, code}
use Prim.Native.String.{String, ◌++◌, slice}
use mathlib.Core.Path.{◌≡◌, refl}
use mathlib.Core.Bool.{Bool, true, false}
use mathlib.Core.List.{List}
use mathlib.Core.Option.{Option, none, some}
use text.Mathlib.Text.{find?}
use icmp.Base.Tests.{◌==◌, ltb, if◌then◌else◌}

-- An f-string: its parts, one after another.
abbrev pub format : List String → String
format List.[] = ""
format (List.◌∷◌ s rest) = ◌++◌ s (format rest)

-- sep.join(parts)
abbrev pub join : String → List String → String
join sep List.[] = ""
join sep (List.◌∷◌ s List.[]) = s
join sep (List.◌∷◌ s rest) = ◌++◌ s (◌++◌ sep (join sep rest))

-- The letter of the second alphabet that stands where `c` stands in the first, or `c`.
abbrev upper_char : String → String → Char → Char
upper_char String.[] big c = c
upper_char (String.◌∷◌ a small) String.[] c = c
upper_char (String.◌∷◌ a small) (String.◌∷◌ b big) c =
    if code a == code c then b else upper_char small big c

-- s.upper(); letters outside ASCII stay as they are.
unfoldable pub upper : String → String
upper String.[] = ""
upper (String.◌∷◌ c s) =
    String.◌∷◌ (upper_char "abcdefghijklmnopqrstuvwxyz" "ABCDEFGHIJKLMNOPQRSTUVWXYZ" c) (upper s)

digit : ℕ → String
digit n = slice "0123456789" n (n + 1)

digits_from : ℕ → ℕ → String
unfolding digit
digits_from zero n = ""
digits_from (suc fuel) n =
    let front = digits_from fuel (n / 10) in
    if ltb n 10 then digit n else ◌++◌ front (digit (n % 10))

-- str(n); a number has fewer digits than its value, so the fuel is enough.
unfoldable pub decimal_text : ℕ → String
unfolding digits_from
decimal_text n = digits_from (suc n) n

decimal_text_test : decimal_text 1024 ≡ "1024"
unfolding decimal_text
decimal_text_test = refl

abbrev is_found : Option ℕ → Bool
is_found none = false
is_found (some i) = true

-- needle in text (Django's `__contains`)
unfoldable pub contains : String → String → Bool
contains needle text = is_found (find? text needle)

upper_test : upper "co2" ≡ "CO2"
unfolding upper
upper_test = refl

-- "CO" is part of "CO2".
contains_test : contains "[CP] CO" "[CP] CO2" ≡ true
unfolding contains
contains_test = refl
