-- ===== src/Facilities/Autofences.antt =====
-- facilities/services/geofence_service.py: the geofence that the readings of a gas sensor keep.
pub mod Shown
pub mod Stale
use icmp.Base.{
  ℕ, zero, suc, ◌+◌, ◌*◌, ◌-◌, String, Bool, true, false, not, ◌&&◌, Option, none, some, List, [],
  ◌∷◌, ◌++◌, map, length, select, ltb, leb, ◌==◌, if◌then◌else◌, string_eq, ◌=?◌, format,
  decimal_text,
}
use icmp.Float.{Float, lit}
use icmp.Monitoring.{GasReading, ThresholdPolicy, stale_threshold}
use icmp.Monitoring.Gas.{GasLevel, calc_danger_level}
use icmp.Facilities.Types.{Severity, danger, warning, safe, same_severity, Geofence, SensorLocation}

-- The table of the geofences, the id of its next row, and the payloads that were broadcast.
pub record FenceStore (F : Type 0) : Type 0 where
  pub fences : List (Geofence F)
  pub next_id : ℕ
  pub broadcasts : List (Geofence F)

-- A return, or what is raised: a fence without a floor breaks a constraint of the table, and `get`
-- refuses to choose among several rows.
pub data Outcome (F : Type 0) : Type 0 where
  done : FenceStore F → Outcome F
  integrity_error multiple_objects_returned : Outcome F

-- SEVERITY_MAP
abbrev pub severity_of : GasLevel → Severity
severity_of GasLevel.danger = danger
severity_of GasLevel.warning = warning
severity_of GasLevel.normal = safe

abbrev on_floor : Option ℕ → ℕ → Bool
on_floor none m = false
on_floor (some n) m = m == n

module _ {F : Type 0} where
  -- _auto_name
  abbrev pub auto_name : SensorLocation F → String
  auto_name sensor = format ("[자동] " ∷ sensor.device_name ∷ [])

  -- filter(floor=sensor.floor, name=_auto_name(sensor)); no row has a null floor.
  abbrev pub is_named : SensorLocation F → Geofence F → Bool
  is_named sensor g = on_floor sensor.floor g.floor && (g.name =? auto_name sensor)

  abbrev pub deactivated : Geofence F → Geofence F
  deactivated g = record g { is_active = false }

  -- A change of the rows that pass a test.
  abbrev pub change_rows :
      (Geofence F → Bool) → (Geofence F → Geofence F) → List (Geofence F) → List (Geofence F)
  change_rows p change = map (λ g. if p g then change g else g)

  -- `for g in …: g.is_active = False; g.save(…); _broadcast_geofence(g)`
  unfoldable pub deactivate : (Geofence F → Bool) → FenceStore F → FenceStore F
  deactivate p s = record s {
    fences = change_rows p deactivated s.fences;
    broadcasts = s.broadcasts ++ map deactivated (select p s.fences);
  }

  -- SensorLocation.objects.get(device_id, is_active=True); the column is unique.
  unfoldable pub sensor_of : ℕ → List (SensorLocation F) → Option (SensorLocation F)
  sensor_of device [] = none
  sensor_of device (s ∷ ss) =
      let rest = sensor_of device ss in
      if (s.device_id == device) && s.is_active then some s else rest

module _ {F : Type 0} ⦃f : Float F⦄ where
  -- GEOFENCE_RADIUS
  abbrev pub radius_of : Severity → F
  radius_of danger = lit 5
  radius_of _ = lit 3

  -- a == b, of columns that may be null
  abbrev pub same_value : Option F → Option F → Bool
  same_value none none = true
  same_value (some a) (some b) = f.eq a b
  same_value _ _ = false

  -- The assignments to a fence that is there.
  unfoldable pub refreshed : SensorLocation F → Severity → Geofence F → Geofence F
  refreshed sensor severity g = record g {
    severity = if same_severity g.severity severity then g.severity else severity;
    radius =
        if same_value g.radius (some (radius_of severity))
        then g.radius
        else some (radius_of severity);
    center_x = if same_value g.center_x sensor.x then g.center_x else sensor.x;
    center_y = if same_value g.center_y sensor.y then g.center_y else sensor.y;
    is_active = if g.is_active then g.is_active else true;
  }

  -- The defaults of get_or_create.
  unfoldable pub new_fence : SensorLocation F → ℕ → Severity → ℕ → Geofence F
  new_fence sensor floor severity id = record {
    id = id;
    floor = floor;
    name = auto_name sensor;
    geofence_type = "circle";
    severity = severity;
    description = format ("가스센서 자동 생성 — device_id=" ∷ decimal_text sensor.device_id ∷ []);
    is_active = true;
    center_x = sensor.x;
    center_y = sensor.y;
    radius = some (radius_of severity);
    polygon_data = [];
  }

  create_on : SensorLocation F → Severity → FenceStore F → Option ℕ → Outcome F
  unfolding new_fence
  create_on sensor severity s none = integrity_error
  create_on sensor severity s (some floor) =
      let g = new_fence sensor floor severity s.next_id in
      done (record {
        fences = s.fences ++ (g ∷ []);
        next_id = s.next_id + 1;
        broadcasts = s.broadcasts ++ (g ∷ []);
      })

  -- get_or_create, the update of a fence that was there, and the broadcast; the last argument is the
  -- rows of the sensor's floor and name, so the row that is saved is the only one of them.
  raise_on : SensorLocation F → Severity → FenceStore F → List (Geofence F) → Outcome F
  unfolding create_on refreshed
  raise_on sensor severity s [] = create_on sensor severity s sensor.floor
  raise_on sensor severity s (g ∷ []) = done (record s {
    fences = change_rows (is_named sensor) (refreshed sensor severity) s.fences;
    broadcasts = s.broadcasts ++ (refreshed sensor severity g ∷ []);
  })
  raise_on sensor severity s (g ∷ h ∷ gs) = multiple_objects_returned

  unfoldable pub raise_fence : SensorLocation F → Severity → FenceStore F → Outcome F
  unfolding raise_on
  raise_fence sensor severity s = raise_on sensor severity s (select (is_named sensor) s.fences)

  unfoldable pub apply_severity : SensorLocation F → Severity → FenceStore F → Outcome F
  unfolding raise_fence deactivate
  apply_severity sensor safe s = done (deactivate (λ g. is_named sensor g && g.is_active) s)
  apply_severity sensor danger s = raise_fence sensor danger s
  apply_severity sensor warning s = raise_fence sensor warning s

  apply_sensor : Severity → FenceStore F → Option (SensorLocation F) → Outcome F
  unfolding apply_severity
  apply_sensor severity s none = done s
  apply_sensor severity s (some sensor) = apply_severity sensor severity s

  -- update_geofence_from_gas
  unfoldable pub update_geofence_from_gas :
      ℕ
      → List (ThresholdPolicy F)
      → List (SensorLocation F)
      → GasReading F
      → FenceStore F
      → Outcome F
  unfolding apply_sensor sensor_of calc_danger_level
  update_geofence_from_gas now policies sensors reading s =
      if ltb (reading.measured_at + stale_threshold) now
      then done s
      else apply_sensor (severity_of (calc_danger_level policies reading)) s
          (sensor_of reading.device sensors)
