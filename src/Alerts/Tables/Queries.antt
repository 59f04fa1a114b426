-- ===== src/Alerts/Tables/Queries.antt =====
-- alerts/services.py: what the queries of the handlers find.
use mathlib.Core.List.{Memᴰ}
use icmp.Base.{
  ◌≡◌, refl, Bool, true, false, Option, none, some, List, [], ◌∷◌, ltb, if◌then◌else◌, All,
}
use icmp.Alerts.Types.{AlarmEvent}
use icmp.Alerts.Tables.{latest, newer, latest_from}

module _ {F : Type 0} where
  -- What a query of a table may return: a row of it that passes.
  abbrev pub Finds : (AlarmEvent F → Bool) → List (AlarmEvent F) → Option (AlarmEvent F) → Type 0
  Finds p es none = Unit
  Finds p es (some e) = Memᴰ e es × (p e ≡ true)

  newer-Finds :
      (p : AlarmEvent F → Bool) (es : List (AlarmEvent F)) (best : Option (AlarmEvent F))
      (e : AlarmEvent F)
      → Memᴰ e es
      → p e ≡ true
      → Finds p es best
      → Finds p es (some (newer best e))
  unfolding newer
  newer-Finds p es none e m h found = (m, h)
  newer-Finds p es (some b) e m h found = choice (ltb b.occurred_at e.occurred_at)
    where
      choice : (c : Bool) → Finds p es (some (if c then e else b))
      choice true = (m, h)
      choice false = found

  next-Finds :
      (p : AlarmEvent F → Bool) (es : List (AlarmEvent F)) (best : Option (AlarmEvent F))
      (e : AlarmEvent F) (b : Bool)
      → Memᴰ e es
      → p e ≡ b
      → Finds p es best
      → Finds p es (if b then some (newer best e) else best)
  next-Finds p es best e true m h found = newer-Finds p es best e m h found
  next-Finds p es best e false m h found = found

  latest_from-Finds :
      (p : AlarmEvent F → Bool) (es : List (AlarmEvent F)) (best : Option (AlarmEvent F))
      (xs : List (AlarmEvent F))
      → All (λ x. Memᴰ x es) xs
      → Finds p es best
      → Finds p es (latest_from p best xs)
  unfolding latest_from
  latest_from-Finds p es best [] ms found = found
  latest_from-Finds p es best (x ∷ xs) ms found =
      latest_from-Finds p es (if p x then some (newer best x) else best) xs ms.1
        (next-Finds p es best x (p x) ms.0 refl found)

  all_listed :
      (es xs : List (AlarmEvent F))
      → ((x : AlarmEvent F) → Memᴰ x xs → Memᴰ x es)
      → All (λ x. Memᴰ x es) xs
  all_listed es [] h = tt
  all_listed es (x ∷ xs) h = (h x (Memᴰ.head refl), all_listed es xs (λ y m. h y (Memᴰ.tail m)))

  pub latest-Finds : (p : AlarmEvent F → Bool) (es : List (AlarmEvent F)) → Finds p es (latest p es)
  unfolding latest
  latest-Finds p es = latest_from-Finds p es none es (all_listed es es (λ x m. m)) tt
