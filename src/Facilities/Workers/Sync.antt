-- ===== src/Facilities/Workers/Sync.antt =====
-- facilities/services/geofence_checker.py: the row that a check leaves.
use icmp.Base.{
  ℕ, ◌≡◌, refl, sym, ap, ◌∙◌, Bool, true, false, not, ◌||◌, Option, List, [], ◌∷◌, all, map, ◌==◌,
  if◌then◌else◌, arith,
}
use icmp.Float.{Float}
use icmp.Facilities.Types.{Severity, same_severity, Geofence, Worker, WorkerLocation}
use icmp.Facilities.Fences.Verdict.{gravest_of, check_worker_in_geofence-gravest}
use icmp.Facilities.Workers.{save_safety, sync_worker_status}

-- The rows of a worker's id have the status that the object has.
abbrev pub is_fresh : Worker → List Worker → Bool
is_fresh worker rows =
    all (λ w. not (w.id == worker.id) || same_severity w.safety_status worker.safety_status) rows

-- A row with the status, where it is the worker's.
abbrev pub with_status : ℕ → Severity → Worker → Worker
with_status id status w = if w.id == id then record w { safety_status = status } else w

save_safety-map :
    (id : ℕ) (status : Severity) (rows : List Worker)
    → save_safety id status rows ≡ map (with_status id status) rows
unfolding save_safety
save_safety-map id status [] = refl
save_safety-map id status (w ∷ ws) =
    ap (λ l. with_status id status w ∷ l) (save_safety-map id status ws)

same_severity-eq : (a b : Severity) → same_severity a b ≡ true → a ≡ b
same_severity-eq a b h = ground arith

with_status-same :
    (id : ℕ) (status : Severity) (w : Worker)
    → (not (w.id == id) || same_severity w.safety_status status) ≡ true
    → with_status id status w ≡ w
with_status-same id status w h = step (w.id == id) refl
  where
    step :
        (b : Bool) → (w.id == id) ≡ b → (if b then record w { safety_status = status } else w) ≡ w
    step true same =
        ap (λ s. record w { safety_status = s })
          (sym (same_severity-eq w.safety_status status (ground (arith, h))))
    step false other = refl

map-same :
    (id : ℕ) (status : Severity) (rows : List Worker)
    → all (λ w. not (w.id == id) || same_severity w.safety_status status) rows ≡ true
    → rows ≡ map (with_status id status) rows
map-same id status [] h = refl
map-same id status (w ∷ ws) h =
    rw (with_status-same id status w (ground (arith, h)))
      (ap (λ l. w ∷ l) (map-same id status ws (ground (arith, h))))

module _ {F : Type 0} ⦃f : Float F⦄ where
  -- Where the rows of a worker have the status of the object, the check leaves the gravest severity
  -- that holds the worker in every row of the worker, whether or not it saved, and returns it; no
  -- other row and no other column changes.
  pub sync_worker_status-rows :
      (fences : List (Geofence F)) (worker : Worker) (loc : Option (WorkerLocation F))
      (rows : List Worker)
      → is_fresh worker rows ≡ true
      → sync_worker_status fences worker loc rows ≡ (
        map (with_status worker.id (gravest_of fences worker.current_state loc)) rows,
        gravest_of fences worker.current_state loc,
      )
  unfolding sync_worker_status
  sync_worker_status-rows fences worker loc rows fresh =
      rw (check_worker_in_geofence-gravest fences worker loc)
        (ap (λ l. (l, status)) (step (same_severity worker.safety_status status) refl))
    where
      status : Severity
      status = gravest_of fences worker.current_state loc

      step :
          (b : Bool)
          → same_severity worker.safety_status status ≡ b
          → (if b then rows else save_safety worker.id status rows)
            ≡ map (with_status worker.id status) rows
      step true same = map-same worker.id status rows (
          ap (λ s. all (λ w. not (w.id == worker.id) || same_severity w.safety_status s) rows)
            (sym (same_severity-eq worker.safety_status status same))
          ∙ fresh)
      step false other = save_safety-map worker.id status rows
