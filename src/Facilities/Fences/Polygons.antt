-- ===== src/Facilities/Fences/Polygons.antt =====
-- facilities/services/geofence_checker.py: is_inside_polygon against the even-odd rule.
use icmp.Base.{ℕ, zero, suc, ◌||◌, Bool, false, not, ◌&&◌, List, [], ◌∷◌, length, select}
use icmp.Float.{Float, ◌<!◌, ◌>!◌}
use icmp.Facilities.Fences.{last_vertex}

abbrev pub odd : ℕ → Bool
odd zero = false
odd (suc n) = not (odd n)

-- The edges of a path, each with its end before its start.
abbrev edges_from : {P : Type 0} → P → List P → List (P × P)
edges_from p [] = []
edges_from p (q ∷ qs) = (q, p) ∷ edges_from q qs

module _ {F : Type 0} ⦃f : Float F⦄ where
  -- Of the ends of an edge exactly one is above a height.
  abbrev pub straddles : F → (F × F) × (F × F) → Bool
  straddles y ((xi, yi), (xj, yj)) = ((yi >! y) && not (yj >! y)) || (not (yi >! y) && (yj >! y))

  -- Where the line through the ends of an edge has a height.
  abbrev pub x_at : F → (F × F) × (F × F) → F
  x_at y ((xi, yi), (xj, yj)) = f.add (f.div (f.mul (f.sub xj xi) (f.sub y yi)) (f.sub yj yi)) xi

  -- How many edges meet the ray to the right of a point.
  abbrev pub crossings : F → F → List ((F × F) × (F × F)) → ℕ
  crossings x y es = length (select (λ e. straddles y e && (x <! x_at y e)) es)

  -- The edges of a polygon: the one that closes it is first.
  abbrev pub edges : List (F × F) → List ((F × F) × (F × F))
  unfolding last_vertex
  edges [] = []
  edges (p ∷ ps) = edges_from (last_vertex p ps) (p ∷ ps)
