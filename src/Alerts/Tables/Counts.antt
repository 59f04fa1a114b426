-- ===== src/Alerts/Tables/Counts.antt =====
-- alerts/services.py: how many rows pass a query, before and after a row is saved or added.
use mathlib.Core.List.{Memᴰ}
use icmp.Base.{
  ℕ, ◌+◌, ◌<◌, ◌≡◌, ◌≢◌, refl, sym, ap, ◌∙◌, subst, Bool, true, false, none, some, List, [], ◌∷◌,
  ◌++◌, map, ◌==◌, ==_iff, if◌then◌else◌, All, arith,
}
use icmp.Alerts.Types.{AlarmEvent}
use icmp.Alerts.Tables.{save, newer, latest_from, latest}
use icmp.Alerts.Steps.Soundness.{Distinct}

abbrev pub bit : Bool → ℕ
bit true = 1
bit false = 0

module _ {F : Type 0} where
  abbrev pub count : (AlarmEvent F → Bool) → List (AlarmEvent F) → ℕ
  count p [] = 0
  count p (x ∷ xs) = bit (p x) + count p xs

  pub count-append :
      (p : AlarmEvent F → Bool) (xs ys : List (AlarmEvent F))
      → count p (xs ++ ys) ≡ count p xs + count p ys
  count-append p [] ys = omega arith
  count-append p (x ∷ xs) ys = omega (arith, count-append p xs ys)

  pub count-pos :
      (p : AlarmEvent F → Bool) (e : AlarmEvent F) (es : List (AlarmEvent F))
      → Memᴰ e es
      → p e ≡ true
      → 0 < count p es
  count-pos p e [] m h = elim m [ ]
  count-pos p e (x ∷ xs) (Memᴰ.head same) h =
      let hit : p x ≡ true = ap p (sym same) ∙ h in ground arith
  count-pos p e (x ∷ xs) (Memᴰ.tail m) h = omega (arith, count-pos p e xs m h)

  -- A query that finds nothing counts nothing.
  latest_from-some :
      (p : AlarmEvent F → Bool) (b : AlarmEvent F) (es : List (AlarmEvent F))
      → latest_from p (some b) es ≢ none
  unfolding latest_from newer
  latest_from-some p b [] h = ground arith
  latest_from-some p b (x ∷ xs) h = step (p x) (λ c. latest_from-some p c xs) h
    where
      step :
          (c : Bool)
          → ((d : AlarmEvent F) → latest_from p (some d) xs ≢ none)
          → latest_from p (if c then some (newer (some b) x) else some b) xs ≡ none
          → ⊥
      step true rest found = rest (newer (some b) x) found
      step false rest found = rest b found

  latest_from-none :
      (p : AlarmEvent F → Bool) (es : List (AlarmEvent F))
      → latest_from p none es ≡ none
      → count p es ≡ 0
  unfolding latest_from
  latest_from-none p [] h = refl
  latest_from-none p (x ∷ xs) h = step (p x) (latest_from-none p xs) h
    where
      step :
          (c : Bool)
          → (latest_from p none xs ≡ none → count p xs ≡ 0)
          → latest_from p (if c then some (newer none x) else none) xs ≡ none
          → bit c + count p xs ≡ 0
      step true rest found = absurd (latest_from-some p (newer none x) xs found)
      step false rest found = omega (arith, rest found)

  pub latest-none :
      (p : AlarmEvent F → Bool) (es : List (AlarmEvent F)) → latest p es ≡ none → count p es ≡ 0
  unfolding latest
  latest-none p es h = latest_from-none p es h

  abbrev ids_of : List (AlarmEvent F) → List ℕ
  ids_of es = map (λ (x : AlarmEvent F). x.id) es

  save-absent :
      (v : AlarmEvent F) (es : List (AlarmEvent F))
      → All (λ i. v.id ≢ i) (ids_of es)
      → save v es ≡ es
  unfolding save
  save-absent v [] h = refl
  save-absent v (x ∷ xs) h = step (x.id == v.id) refl (save-absent v xs h.1)
    where
      step :
          (c : Bool)
          → (x.id == v.id) ≡ c
          → save v xs ≡ xs
          → ((if c then v else x) ∷ save v xs) ≡ (x ∷ xs)
      step true same rest = absurd (h.0 (sym ((==_iff x.id v.id).0 same)))
      step false other rest = ap (λ l. x ∷ l) rest

  id-listed :
      (e : AlarmEvent F) (es : List (AlarmEvent F)) (i : ℕ)
      → All (λ j. i ≢ j) (ids_of es)
      → Memᴰ e es
      → i ≢ e.id
  id-listed e [] i h m = elim m [ ]
  id-listed e (x ∷ xs) i h (Memᴰ.head same) = λ eq. h.0 (eq ∙ ap (λ (y : AlarmEvent F). y.id) same)
  id-listed e (x ∷ xs) i h (Memᴰ.tail m) = id-listed e xs i h.1 m

  -- Saving a listed row changes a count by that row alone.
  pub count-save :
      (p : AlarmEvent F → Bool) (v e : AlarmEvent F) (es : List (AlarmEvent F))
      → v.id ≡ e.id
      → Distinct (ids_of es)
      → Memᴰ e es
      → count p (save v es) + bit (p e) ≡ count p es + bit (p v)
  unfolding save
  count-save p v e [] same d m = elim m [ ]
  count-save p v e (x ∷ xs) same d (Memᴰ.head at) =
      let at_id : x.id ≡ v.id = sym (ap (λ (y : AlarmEvent F). y.id) at) ∙ sym same in
      first (x.id == v.id) ((==_iff x.id v.id).1 at_id)
        (ap (count p) (save-absent v xs (subst (λ i. All (λ j. i ≢ j) (ids_of xs)) at_id d.0)))
        (ap (λ y. bit (p y)) at)
    where
      first :
          (c : Bool)
          → c ≡ true
          → count p (save v xs) ≡ count p xs
          → bit (p e) ≡ bit (p x)
          → bit (p (if c then v else x)) + count p (save v xs) + bit (p e)
            ≡ bit (p x) + count p xs + bit (p v)
      first true hit rest own = omega (arith, rest, own)
      first false miss rest own = ground arith
  count-save p v e (x ∷ xs) same d (Memᴰ.tail m) =
      step (x.id == v.id) refl (count-save p v e xs same d.1 m)
    where
      step :
          (c : Bool)
          → (x.id == v.id) ≡ c
          → count p (save v xs) + bit (p e) ≡ count p xs + bit (p v)
          → bit (p (if c then v else x)) + count p (save v xs) + bit (p e)
            ≡ bit (p x) + count p xs + bit (p v)
      step true hit rest = absurd (id-listed e xs x.id d.0 m ((==_iff x.id v.id).0 hit ∙ same))
      step false other rest = omega (arith, rest)
