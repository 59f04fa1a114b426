-- ===== src/Facilities/Autofences/Shown.antt =====
-- facilities/services/geofence_service.py: the active fence of a sensor against the level of a reading.
use icmp.Base.{◌&&◌, Option, none, some, List, [], ◌∷◌, map, select}
use icmp.Float.{Float}
use icmp.Facilities.Types.{Severity, danger, warning, safe, Geofence, SensorLocation}
use icmp.Facilities.Autofences.{Outcome, done, is_named}

-- What the active fences of a sensor are to show.
abbrev pub shown : Severity → List Severity
shown safe = []
shown danger = danger ∷ []
shown warning = warning ∷ []

module _ {F : Type 0} where
  -- The severities of the active fences of a sensor's floor and name.
  abbrev pub active_severities : SensorLocation F → List (Geofence F) → List Severity
  active_severities sensor gs =
      map (λ g. g.severity) (select (λ g. is_named sensor g && g.is_active) gs)

  -- Those of the table that an update returns, where it returns.
  abbrev pub outcome_severities : SensorLocation F → Outcome F → Option (List Severity)
  outcome_severities sensor (done s) = some (active_severities sensor s.fences)
  outcome_severities sensor _ = none
