-- ===== src/Facilities/Workers.antt =====
-- facilities/services/geofence_checker.py: the safety status that a worker's row keeps, and the sweep
-- of the workers whose position is old.
pub mod Sweep
pub mod Sync
use icmp.Base.{
  ℕ, zero, suc, ◌+◌, Bool, true, false, not, ◌&&◌, Option, none, some, List, [], ◌∷◌, ltb, ◌==◌,
  if◌then◌else◌,
}
use icmp.Float.{Float}
use icmp.Monitoring.{stale_threshold}
use icmp.Facilities.Types.{
  Severity, safe, same_severity, Geofence, CurrentState, on_duty, off_duty, Worker, WorkerLocation,
}
use icmp.Facilities.Fences.{check_worker_in_geofence}

-- worker.save(update_fields=['safety_status']): the row of that id
unfoldable pub save_safety : ℕ → Severity → List Worker → List Worker
save_safety id status [] = []
save_safety id status (w ∷ ws) =
    (if w.id == id then record w { safety_status = status } else w) ∷ save_safety id status ws

abbrev is_off_duty : CurrentState → Bool
is_off_duty on_duty = false
is_off_duty off_duty = true

abbrev later : Option ℕ → ℕ → Option ℕ
later none t = some t
later (some s) t = some (if ltb s t then t else s)

-- last is None or last < timezone.now() - STALE_THRESHOLD
abbrev pub is_lost : ℕ → Option ℕ → Bool
is_lost now none = true
is_lost now (some t) = ltb (t + stale_threshold) now

module _ {F : Type 0} where
  -- .filter(worker=w).order_by('-measured_at').values_list('measured_at').first(), from the latest so far
  last_from : ℕ → Option ℕ → List (WorkerLocation F) → Option ℕ
  last_from worker best [] = best
  last_from worker best (l ∷ ls) =
      last_from worker (if l.worker == worker then later best l.measured_at else best) ls

  unfoldable pub last_located : ℕ → List (WorkerLocation F) → Option ℕ
  unfolding last_from
  last_located worker locations = last_from worker none locations

  -- A worker on duty whose position is old.
  unfoldable pub is_stale_worker : ℕ → List (WorkerLocation F) → Worker → Bool
  unfolding last_located
  is_stale_worker now locations w =
      not (is_off_duty w.current_state) && is_lost now (last_located w.id locations)

  -- deactivate_stale_workers: the rows, and the count
  unfoldable pub deactivate_stale_workers :
      ℕ → List (WorkerLocation F) → List Worker → List Worker × ℕ
  unfolding is_stale_worker
  deactivate_stale_workers now locations [] = ([], 0)
  deactivate_stale_workers now locations (w ∷ ws) =
      let (rest, n) = deactivate_stale_workers now locations ws in
      if is_stale_worker now locations w
      then (record w { current_state = off_duty; safety_status = safe } ∷ rest, suc n)
      else (w ∷ rest, n)

module _ {F : Type 0} ⦃f : Float F⦄ where
  -- sync_worker_status: the rows, and the status it returns
  unfoldable pub sync_worker_status :
      List (Geofence F) → Worker → Option (WorkerLocation F) → List Worker → List Worker × Severity
  unfolding check_worker_in_geofence save_safety
  sync_worker_status fences worker loc rows =
      let status = check_worker_in_geofence fences worker loc in
      (
        if same_severity worker.safety_status status
            then rows
            else save_safety worker.id status rows,
        status,
      )
