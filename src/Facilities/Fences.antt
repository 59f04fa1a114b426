-- ===== src/Facilities/Fences.antt =====
-- facilities/services/geofence_checker.py: whether a position is in a geofence, and what that says of
-- a worker.
pub mod Verdict
pub mod Polygons
use icmp.Base.{
  ℕ, suc, String, Bool, true, false, not, ◌&&◌, ◌||◌, Option, none, some, List, [], ◌∷◌, ◌++◌,
  length, ltb, ◌==◌, select, if◌then◌else◌, string_eq, ◌=?◌,
}
use icmp.Float.{Float, ◌<=◌, ◌<!◌, ◌>!◌}
use icmp.Facilities.Types.{
  Severity, danger, warning, safe, same_severity, Geofence, CurrentState, on_duty, off_duty, Worker,
  WorkerLocation,
}

-- a != b
abbrev differ : Bool → Bool → Bool
differ true b = not b
differ false b = b

abbrev toggle : Bool → Bool → Bool
toggle true b = not b
toggle false b = b

module _ {F : Type 0} ⦃f : Float F⦄ where
  -- dx * dx + dy * dy <= r * r, where the centre and the radius are there
  in_circle : F → F → Option F → Option F → Option F → Bool
  in_circle x y (some cx) (some cy) (some r) =
      let dx = f.sub x cx in let dy = f.sub y cy in f.add (f.mul dx dx) (f.mul dy dy) <= f.mul r r
  in_circle x y _ _ _ = false

  -- is_inside_circle
  unfoldable pub is_inside_circle : F → F → Geofence F → Bool
  unfolding in_circle
  is_inside_circle x y g = in_circle x y g.center_x g.center_y g.radius

  -- The condition of the loop's body: the ray from the point to the right crosses the edge. The
  -- second operand is not evaluated where the first one is false, so nothing divides by zero.
  unfoldable pub crosses : F → F → F × F → F × F → Bool
  crosses x y (xi, yi) (xj, yj) =
      differ (yi >! y) (yj >! y)
      && (x <! f.add (f.div (f.mul (f.sub xj xi) (f.sub y yi)) (f.sub yj yi)) xi)

  -- The loop, with the vertex before the first of the list, and `inside` so far.
  unfoldable pub ray_loop : F → F → F × F → Bool → List (F × F) → Bool
  unfolding crosses
  ray_loop x y pj inside [] = inside
  ray_loop x y pj inside (p ∷ ps) = ray_loop x y p (toggle (crosses x y p pj) inside) ps

  last_vertex : F × F → List (F × F) → F × F
  last_vertex p [] = p
  last_vertex p (q ∷ qs) = last_vertex q qs

  ray_cast : F → F → List (F × F) → Bool
  unfolding ray_loop last_vertex
  ray_cast x y [] = false
  ray_cast x y (p ∷ ps) = ray_loop x y (last_vertex p ps) false (p ∷ ps)

  -- is_inside_polygon
  unfoldable pub is_inside_polygon : F → F → Geofence F → Bool
  unfolding ray_cast
  is_inside_polygon x y g =
      if ltb (length g.polygon_data) 3 then false else ray_cast x y g.polygon_data

  -- `inside` of the loop; a fence of any other type is passed over.
  unfoldable pub is_inside : F → F → Geofence F → Bool
  unfolding is_inside_circle is_inside_polygon
  is_inside x y g =
      if g.geofence_type =? "circle"
      then is_inside_circle x y g
      else if g.geofence_type =? "polygon"
      then is_inside_polygon x y g
      else false

  abbrev pub of_floor : ℕ → Geofence F → Bool
  of_floor floor g = g.floor == floor && g.is_active

  -- filter(floor, is_active).exclude(severity='safe').order_by('-severity'): the texts descend, so
  -- 'warning' is before 'danger'; rows of one severity are in the order of the table.
  unfoldable pub candidates : ℕ → List (Geofence F) → List (Geofence F)
  candidates floor gs =
      select (λ g. of_floor floor g && same_severity g.severity warning) gs
      ++ select (λ g. of_floor floor g && same_severity g.severity danger) gs

  -- The loop, with found_warning.
  fence_loop : F → F → Bool → List (Geofence F) → Severity
  unfolding is_inside
  fence_loop x y found [] = if found then warning else safe
  fence_loop x y found (g ∷ gs) =
      let next =
        fence_loop x y (found || (is_inside x y g && same_severity g.severity warning)) gs in
      if is_inside x y g && same_severity g.severity danger then danger else next

  on_floor : List (Geofence F) → F → F → Option ℕ → Severity
  unfolding candidates fence_loop
  on_floor fences x y none = safe
  on_floor fences x y (some floor) = fence_loop x y false (candidates floor fences)

  check_location : List (Geofence F) → Option (WorkerLocation F) → Severity
  unfolding on_floor
  check_location fences none = safe
  check_location fences (some loc) = on_floor fences loc.x loc.y loc.floor

  check_state : List (Geofence F) → CurrentState → Option (WorkerLocation F) → Severity
  unfolding check_location
  check_state fences off_duty loc = safe
  check_state fences on_duty loc = check_location fences loc

  -- check_worker_in_geofence; `fences` is the table.
  unfoldable pub check_worker_in_geofence :
      List (Geofence F) → Worker → Option (WorkerLocation F) → Severity
  unfolding check_state
  check_worker_in_geofence fences worker loc = check_state fences worker.current_state loc
