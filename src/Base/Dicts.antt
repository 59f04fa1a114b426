-- ===== src/Base/Dicts.antt =====
-- Python's `dict`: an association list in insertion order. An assignment to a key that is there
-- replaces the value in its place; a new key goes to the end.
use mathlib.Core.Path.{◌≡◌, refl}
use mathlib.Core.Bool.{Bool, true, false, not, ◌&&◌, ◌||◌}
use mathlib.Core.Option.{Option, none, some}
use mathlib.Core.List.{List, [], ◌∷◌}
use native.Mathlib.Omega.{arith}
use icmp.Base.Tests.{if◌then◌else◌}
use icmp.Base.Keys.{Eq, ◌=?◌}

abbrev pub Dict : Type 0 → Type 0 → Type 0
Dict K V = List (K × V)

module _ {K V : Type 0} ⦃e : Eq K⦄ where
  -- d.get(k)
  abbrev pub lookup : K → Dict K V → Option V
  lookup k [] = none
  lookup k ((j, v) ∷ d) = if j =? k then some v else lookup k d

  -- d[k] = v
  abbrev pub insert : K → V → Dict K V → Dict K V
  insert k v [] = (k, v) ∷ []
  insert k v ((j, w) ∷ d) = if j =? k then (j, v) ∷ d else (j, w) ∷ insert k v d

  -- del d[k]; every entry of the key goes.
  abbrev pub delete : K → Dict K V → Dict K V
  delete k [] = []
  delete k ((j, w) ∷ d) = let rest = delete k d in if j =? k then rest else (j, w) ∷ rest

  -- k in d
  abbrev pub has_key : K → Dict K V → Bool
  has_key k [] = false
  has_key k ((j, v) ∷ d) = (j =? k) || has_key k d

  -- A dict holds a key once.
  abbrev pub keys_distinct : Dict K V → Bool
  keys_distinct [] = true
  keys_distinct ((j, v) ∷ d) = not (has_key j d) && keys_distinct d

  pub lookup-insert :
      (k j : K) (v : V) (d : Dict K V)
      → lookup j (insert k v d) ≡ (if k =? j then some v else lookup j d)
  lookup-insert k j v [] = refl
  lookup-insert k j v ((i, w) ∷ d) =
      ground (arith, e.beq_iff k j, e.beq_iff i k, e.beq_iff i j, lookup-insert k j v d)

  pub lookup-delete :
      (k j : K) (d : Dict K V) → lookup j (delete k d) ≡ (if k =? j then none else lookup j d)
  lookup-delete k j [] = ground arith
  lookup-delete k j ((i, w) ∷ d) =
      ground (arith, e.beq_iff k j, e.beq_iff i k, e.beq_iff i j, lookup-delete k j d)

  pub has_key-insert :
      (k j : K) (v : V) (d : Dict K V) → has_key j (insert k v d) ≡ ((k =? j) || has_key j d)
  has_key-insert k j v [] = ground arith
  has_key-insert k j v ((i, w) ∷ d) =
      ground (arith, e.beq_iff k j, e.beq_iff i k, e.beq_iff i j, has_key-insert k j v d)

  pub has_key-delete :
      (k j : K) (d : Dict K V) → has_key j (delete k d) ≡ (not (k =? j) && has_key j d)
  has_key-delete k j [] = ground arith
  has_key-delete k j ((i, w) ∷ d) =
      ground (arith, e.beq_iff k j, e.beq_iff i k, e.beq_iff i j, has_key-delete k j d)

  pub insert-distinct :
      (k : K) (v : V) (d : Dict K V) → keys_distinct d ≡ true → keys_distinct (insert k v d) ≡ true
  insert-distinct k v [] h = refl
  insert-distinct k v ((i, w) ∷ d) h =
      ground (arith, e.beq_iff k i, e.beq_iff i k, insert-distinct k v d, has_key-insert k i v d)

  pub delete-distinct :
      (k : K) (d : Dict K V) → keys_distinct d ≡ true → keys_distinct (delete k d) ≡ true
  delete-distinct k [] h = refl
  delete-distinct k ((i, w) ∷ d) h =
      ground (arith, e.beq_iff k i, e.beq_iff i k, delete-distinct k d, has_key-delete k i d)

  pub lookup-has_key : (k : K) (d : Dict K V) → has_key k d ≡ false → lookup k d ≡ none
  lookup-has_key k [] h = refl
  lookup-has_key k ((j, v) ∷ d) h = ground (arith, lookup-has_key k d)
