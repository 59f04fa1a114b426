-- ===== src/Facilities/Workers/Sweep.antt =====
-- facilities/services/geofence_checker.py: what the sweep leaves.
use icmp.Base.{
  ℕ, suc, ◌≡◌, refl, ◌∙◌, Bool, true, false, List, [], ◌∷◌, length, select, map, if◌then◌else◌,
}
use icmp.Facilities.Types.{safe, off_duty, Worker, WorkerLocation}
use icmp.Facilities.Workers.{is_stale_worker, deactivate_stale_workers}

module _ {F : Type 0} (now : ℕ) (locations : List (WorkerLocation F)) where
  -- The row of a worker after the sweep.
  abbrev pub swept : Worker → Worker
  swept w =
      if is_stale_worker now locations w
      then record w { current_state = off_duty; safety_status = safe }
      else w

  deactivate-swept :
      (ws : List Worker)
      → deactivate_stale_workers now locations ws
        ≡ (map swept ws, length (select (is_stale_worker now locations) ws))
  unfolding deactivate_stale_workers
  deactivate-swept [] = refl
  deactivate-swept (w ∷ ws) = rw (deactivate-swept ws) (step (is_stale_worker now locations w))
    where
      rest : List Worker
      rest = map swept ws

      found : List Worker
      found = select (is_stale_worker now locations) ws

      before : Bool → List Worker × ℕ
      before b =
          if b
          then (
            record w { current_state = off_duty; safety_status = safe } ∷ rest,
            suc (length found),
          )
          else (w ∷ rest, length found)

      after : Bool → List Worker × ℕ
      after b = (
        (if b then record w { current_state = off_duty; safety_status = safe } else w) ∷ rest,
        length (if b then w ∷ found else found),
      )

      step : (b : Bool) → before b ≡ after b
      step true = refl
      step false = refl

  swept-fresh : (w : Worker) → is_stale_worker now locations (swept w) ≡ false
  swept-fresh w = step (is_stale_worker now locations w) refl
    where
      step :
          (b : Bool)
          → is_stale_worker now locations w ≡ b
          → is_stale_worker now locations
              (if b then record w { current_state = off_duty; safety_status = safe } else w)
            ≡ false
      step true h = unfold is_stale_worker in refl
      step false h = h

  select-swept : (ws : List Worker) → select (is_stale_worker now locations) (map swept ws) ≡ []
  select-swept [] = refl
  select-swept (w ∷ ws) = rw (swept-fresh w, select-swept ws) refl

  map-swept : (ws : List Worker) → map swept (map swept ws) ≡ map swept ws
  map-swept [] = refl
  map-swept (w ∷ ws) = rw (swept-fresh w, map-swept ws) refl

  -- After a sweep, a second one at the same time with the same positions changes no row and counts
  -- none: no worker is on duty with no position or an old one.
  pub deactivate_stale_workers-twice :
      (ws : List Worker)
      → deactivate_stale_workers now locations (deactivate_stale_workers now locations ws).0
        ≡ ((deactivate_stale_workers now locations ws).0, 0)
  deactivate_stale_workers-twice ws =
      rw (deactivate-swept ws)
        (deactivate-swept (map swept ws) ∙ rw (map-swept ws, select-swept ws) refl)
