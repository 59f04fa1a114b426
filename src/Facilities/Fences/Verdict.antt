-- ===== src/Facilities/Fences/Verdict.antt =====
-- facilities/services/geofence_checker.py: the verdict on a worker against the fences of the table.
use icmp.Base.{
  ℕ, ◌≡◌, refl, ◌∙◌, Bool, true, false, ◌&&◌, ◌||◌, Option, none, some, List, [], ◌∷◌, ◌++◌, any,
  select, if◌then◌else◌, arith,
}
use icmp.Float.{Float}
use icmp.Facilities.Types.{
  Severity, danger, warning, safe, same_severity, Geofence, CurrentState, on_duty, off_duty, Worker,
  WorkerLocation,
}
use icmp.Facilities.Fences.{
  is_inside, of_floor, candidates, fence_loop, on_floor, check_location, check_state,
  check_worker_in_geofence,
}

same_severity-same :
    (a s t : Severity)
    → (same_severity a s && same_severity a t) ≡ (same_severity s t && same_severity a t)
same_severity-same a s t = ground arith

swap :
    (o i at_s at_t same held : Bool)
    → (at_s && at_t) ≡ (same && at_t)
    → (((o && at_t) && (i && at_s)) || (same && held)) ≡ (same && (((o && at_t) && i) || held))
swap o i at_s at_t same held h = ground (arith, h)

module _ {F : Type 0} ⦃f : Float F⦄ where
  -- An active fence of a severity on the floor has the point inside.
  abbrev pub is_held : List (Geofence F) → Severity → F → F → ℕ → Bool
  is_held fences severity x y floor =
      any (λ g. (of_floor floor g && same_severity g.severity severity) && is_inside x y g) fences

  -- The gravest severity that holds a point of a floor.
  abbrev pub gravest : List (Geofence F) → F → F → ℕ → Severity
  gravest fences x y floor =
      if is_held fences danger x y floor
      then danger
      else if is_held fences warning x y floor
      then warning
      else safe

  -- The same of a worker: nothing holds one who is off duty, or has no location or no floor.
  abbrev pub gravest_of : List (Geofence F) → CurrentState → Option (WorkerLocation F) → Severity
  gravest_of fences off_duty loc = safe
  gravest_of fences on_duty none = safe
  gravest_of fences on_duty (some loc) = elim loc.floor [
    | none ↦ safe
    | some floor ↦ gravest fences loc.x loc.y floor
  ]

  -- The loop finds a fence of the severity among those it goes through.
  abbrev finds : Severity → F → F → List (Geofence F) → Bool
  finds severity x y gs = any (λ g. is_inside x y g && same_severity g.severity severity) gs

  fence_loop-finds :
      (x y : F) (found : Bool) (gs : List (Geofence F))
      → fence_loop x y found gs ≡ (
          if finds danger x y gs
          then danger
          else if found || finds warning x y gs
          then warning
          else safe)
  unfolding fence_loop
  fence_loop-finds x y found [] = ground arith
  fence_loop-finds x y found (g ∷ gs) = ground (
    arith,
    fence_loop-finds x y (found || (is_inside x y g && same_severity g.severity warning)) gs,
  )

  finds-append :
      (s : Severity) (x y : F) (gs hs : List (Geofence F))
      → finds s x y (gs ++ hs) ≡ (finds s x y gs || finds s x y hs)
  finds-append s x y [] hs = refl
  finds-append s x y (g ∷ gs) hs = ground (arith, finds-append s x y gs hs)

  if-finds :
      (s : Severity) (x y : F) (b : Bool) (g : Geofence F) (gs : List (Geofence F))
      → finds s x y (if b then g ∷ gs else gs)
        ≡ ((b && (is_inside x y g && same_severity g.severity s)) || finds s x y gs)
  if-finds s x y true g gs = refl
  if-finds s x y false g gs = refl

  -- Those of one severity, selected, hold none of another.
  finds-select :
      (s t : Severity) (x y : F) (floor : ℕ) (gs : List (Geofence F))
      → finds s x y (select (λ g. of_floor floor g && same_severity g.severity t) gs)
        ≡ (same_severity s t && is_held gs t x y floor)
  finds-select s t x y floor [] = ground arith
  finds-select s t x y floor (g ∷ gs) =
      if-finds s x y (of_floor floor g && same_severity g.severity t) g _
      ∙ rw (finds-select s t x y floor gs) (
          swap (of_floor floor g) (is_inside x y g) (same_severity g.severity s)
            (same_severity g.severity t) (same_severity s t) (is_held gs t x y floor)
            (same_severity-same g.severity s t))

  finds-candidates :
      (s : Severity) (x y : F) (floor : ℕ) (gs : List (Geofence F))
      → finds s x y (candidates floor gs) ≡ (
          (same_severity s warning && is_held gs warning x y floor)
          || (same_severity s danger && is_held gs danger x y floor))
  unfolding candidates
  finds-candidates s x y floor gs =
      finds-append s x y (select (λ g. of_floor floor g && same_severity g.severity warning) gs) _
      ∙ rw (finds-select s warning x y floor gs, finds-select s danger x y floor gs) refl

  -- The verdict on a worker is the gravest severity of the active fences of the floor that hold the
  -- worker's point, DANGER before WARNING in whatever order the table has them, and SAFE where there
  -- is none or the worker is off duty, has no location or is on no floor.
  pub check_worker_in_geofence-gravest :
      (fences : List (Geofence F)) (worker : Worker) (loc : Option (WorkerLocation F))
      → check_worker_in_geofence fences worker loc ≡ gravest_of fences worker.current_state loc
  unfolding check_worker_in_geofence check_state check_location on_floor
  check_worker_in_geofence-gravest fences worker loc = by_state worker.current_state loc
    where
      by_floor :
          (x y : F) (o : Option ℕ)
          → on_floor fences x y o ≡ elim o [ none ↦ safe | some floor ↦ gravest fences x y floor ]
      by_floor x y none = refl
      by_floor x y (some floor) =
          fence_loop-finds x y false (candidates floor fences)
          ∙ rw (finds-candidates danger x y floor fences, finds-candidates warning x y floor fences)
              (ground arith)

      by_state :
          (s : CurrentState) (l : Option (WorkerLocation F))
          → check_state fences s l ≡ gravest_of fences s l
      by_state off_duty l = refl
      by_state on_duty none = refl
      by_state on_duty (some l) = by_floor l.x l.y l.floor
