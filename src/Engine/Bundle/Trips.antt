-- ===== src/Engine/Bundle/Trips.antt =====
-- common/data_types/sensor_bundle.py: points into a bundle and back.
use icmp.Base.{
  ℕ, String, ◌≡◌, refl, sym, ap, ◌∙◌, subst, Bool, true, false, not, ◌&&◌, ◌||◌, none, List, [],
  ◌∷◌, ◌++◌, map, All, ◌==◌, arith, Dict, lookup, insert, has_key, string_eq, ◌=?◌, beq_refl,
  ==_iff,
}
use mathlib.Core.Path.{ap₂}
use mathlib.Core.List.{append_assoc, append-nil}
use icmp.Engine.Types.{DataPoint}
use icmp.Engine.Bundle.{
  SensorBundle, ok, or_true, check_points, collect, bundle_of, checked, from_data_points, point_of,
  to_data_points,
}

insert-new :
    {A : Type 0} (k : String) (v : A) (d : Dict String A)
    → has_key k d ≡ false
    → insert k v d ≡ d ++ ((k, v) ∷ [])
insert-new k v [] h = refl
insert-new k v ((j, w) ∷ d) h = ground (arith, insert-new k v d)

has_key-append :
    {A : Type 0} (j k : String) (v : A) (d : Dict String A)
    → has_key j (d ++ ((k, v) ∷ [])) ≡ (has_key j d || (k =? j))
has_key-append j k v [] = ground arith
has_key-append j k v ((i, w) ∷ d) = ground (arith, has_key-append j k v d)

eq_flip : (j k : String) → (j =? k) ≡ false → (k =? j) ≡ false
eq_flip j k h = ground (arith, string_eq.beq_iff j k, string_eq.beq_iff k j)

-- A key in front is looked up past, or found.
lookup-skip :
    {A : Type 0} (k j : String) (v : A) (d : Dict String A)
    → (j =? k) ≡ false
    → lookup k ((j, v) ∷ d) ≡ lookup k d
lookup-skip k j v d h = rw h refl

module _ {F : Type 0} where
  abbrev pub has_sensor : String → List (DataPoint F) → Bool
  has_sensor s [] = false
  has_sensor s (q ∷ qs) = (q.sensor_type =? s) || has_sensor s qs

  -- No sensor comes twice.
  abbrev pub distinct_sensors : List (DataPoint F) → Bool
  distinct_sensors [] = true
  distinct_sensors (p ∷ ps) = not (has_sensor p.sensor_type ps) && distinct_sensors ps

  -- No sensor of the points is a key of the dict.
  abbrev all_new : {A : Type 0} → List (DataPoint F) → Dict String A → Bool
  all_new [] d = true
  all_new (p ∷ ps) d = not (has_key p.sensor_type d) && all_new ps d

  abbrev entries : {A : Type 0} → (DataPoint F → A) → List (DataPoint F) → Dict String A
  entries g ps = map (λ p. (p.sensor_type, g p)) ps

  all_new-append :
      {A : Type 0} (ps : List (DataPoint F)) (d : Dict String A) (k : String) (v : A)
      → all_new ps d ≡ true
      → has_sensor k ps ≡ false
      → all_new ps (d ++ ((k, v) ∷ [])) ≡ true
  all_new-append [] d k v h n = refl
  all_new-append (p ∷ ps) d k v h n =
      ground (
        arith,
        has_key-append p.sensor_type k v d,
        eq_flip p.sensor_type k,
        all_new-append ps d k v,
      )

  -- Points of new sensors are entered at the end, in their order.
  collect-new :
      {A : Type 0} (g : DataPoint F → A) (ps : List (DataPoint F)) (d : Dict String A)
      → distinct_sensors ps ≡ true
      → all_new ps d ≡ true
      → collect g ps d ≡ d ++ entries g ps
  unfolding collect
  collect-new g [] d h n = sym (append-nil d)
  collect-new g (p ∷ ps) d h n =
      let own : has_key p.sensor_type d ≡ false = ground arith in
      let rest : all_new ps d ≡ true = ground arith in
      let alone : has_sensor p.sensor_type ps ≡ false = ground arith in
      let others : distinct_sensors ps ≡ true = ground arith in
      ap (collect g ps) (insert-new p.sensor_type (g p) d own)
      ∙ collect-new g ps (d ++ ((p.sensor_type, g p) ∷ [])) others
          (all_new-append ps d p.sensor_type (g p) rest alone)
      ∙ append_assoc d ((p.sensor_type, g p) ∷ []) (entries g ps)

  all_new_nil : (A : Type 0) (ps : List (DataPoint F)) → all_new {A = A} ps [] ≡ true
  all_new_nil A [] = refl
  all_new_nil A (p ∷ ps) = all_new_nil A ps

  collect-entries :
      {A : Type 0} (g : DataPoint F → A) (ps : List (DataPoint F))
      → distinct_sensors ps ≡ true
      → collect g ps [] ≡ entries g ps
  collect-entries g ps h = collect-new g ps [] h (all_new_nil _ ps)

  -- All points are of one time and one device.
  abbrev pub AllAt : ℕ → String → List (DataPoint F) → Type 0
  AllAt t device ps = All (λ p. (p.timestamp ≡ t) × (p.device_id ≡ device)) ps

  check_points-AllAt :
      (t : ℕ) (device : String) (ps : List (DataPoint F))
      → AllAt t device ps
      → check_points t device ps ≡ none
  unfolding check_points
  check_points-AllAt t device [] h = refl
  check_points-AllAt t device (p ∷ ps) h =
      let time : (p.timestamp == t) ≡ true = (==_iff p.timestamp t).1 h.0.0 in
      let own : (p.device_id =? device) ≡ true = (string_eq.beq_iff p.device_id device).1 h.0.1 in
      rw time (rw own (check_points-AllAt t device ps h.1))

  -- The flag of a point, in the flags of points of which it is one.
  abbrev Flagged : Dict String Bool → List (DataPoint F) → Type 0
  Flagged flags ps = All (λ p. or_true (lookup p.sensor_type flags) ≡ p.is_valid) ps

  Flagged-skip :
      (s : String) (v : Bool) (flags : Dict String Bool) (ps : List (DataPoint F))
      → has_sensor s ps ≡ false
      → Flagged flags ps
      → Flagged ((s, v) ∷ flags) ps
  Flagged-skip s v flags [] n h = tt
  Flagged-skip s v flags (p ∷ ps) n h =
      let other : (s =? p.sensor_type) ≡ false = eq_flip p.sensor_type s (ground arith) in
      (
        ap or_true (lookup-skip p.sensor_type s v flags other) ∙ h.0,
        Flagged-skip s v flags ps (ground arith) h.1,
      )

  entries-Flagged :
      (ps : List (DataPoint F))
      → distinct_sensors ps ≡ true
      → Flagged (entries (λ p. p.is_valid) ps) ps
  entries-Flagged [] h = tt
  entries-Flagged (p ∷ ps) h = (
    rw (beq_refl p.sensor_type) refl,
    Flagged-skip p.sensor_type p.is_valid _ ps (ground arith) (entries-Flagged ps (ground arith)),
  )

  point_eq :
      (b : SensorBundle F) (p : DataPoint F)
      → p.timestamp ≡ b.timestamp
      → p.device_id ≡ b.device_id
      → or_true (lookup p.sensor_type b.is_valid_flags) ≡ p.is_valid
      → point_of b (p.sensor_type, p.value) ≡ p
  point_eq b p t d v = cc

  points_back :
      (b : SensorBundle F) (ps : List (DataPoint F))
      → AllAt b.timestamp b.device_id ps
      → Flagged b.is_valid_flags ps
      → map (point_of b) (entries (λ p. p.value) ps) ≡ ps
  points_back b [] a h = refl
  points_back b (p ∷ ps) a h =
      ap₂ (λ x xs. x ∷ xs) (point_eq b p a.0.0 a.0.1 h.0) (points_back b ps a.1 h.1)

  -- Points of one time and one device, of which no two have the same sensor, make a bundle, and the
  -- bundle gives the points back in their order.
  pub to_data_points-from_data_points :
      (p : DataPoint F) (ps : List (DataPoint F))
      → AllAt p.timestamp p.device_id (p ∷ ps)
      → distinct_sensors (p ∷ ps) ≡ true
      → (from_data_points (p ∷ ps) ≡ ok (bundle_of p (p ∷ ps)))
        × (to_data_points (bundle_of p (p ∷ ps)) ≡ p ∷ ps)
  unfolding from_data_points to_data_points bundle_of
  to_data_points-from_data_points p ps a h = (
    ap (checked (bundle_of p (p ∷ ps))) (check_points-AllAt p.timestamp p.device_id ps a.1),
    ap (map (point_of (bundle_of p (p ∷ ps)))) (collect-entries (λ q. q.value) (p ∷ ps) h)
        ∙ points_back (bundle_of p (p ∷ ps)) (p ∷ ps) a (
            subst (λ flags. Flagged flags (p ∷ ps))
              (sym (collect-entries (λ q. q.is_valid) (p ∷ ps) h)) (entries-Flagged (p ∷ ps) h)),
  )
