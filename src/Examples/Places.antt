-- ===== src/Examples/Places.antt =====
-- A floor with a round fence and a square one, a worker in it, and the sensor of the readings.
use icmp.Base.{◌≡◌, true, some, none, List, [], ◌∷◌}
use icmp.Float.Fixed.{Fixed, fixed_float, whole}
use icmp.Facilities.Types.{
  Geofence, danger, warning, safe, Worker, on_duty, WorkerLocation, SensorLocation,
}
use icmp.Facilities.Fences.{check_worker_in_geofence}
use icmp.Facilities.Fences.Verdict.{gravest_of, check_worker_in_geofence-gravest}
use icmp.Facilities.Autofences.{FenceStore}

abbrev square : Geofence Fixed
square = record {
  id = 1;
  floor = 1;
  name = "창고";
  geofence_type = "polygon";
  severity = warning;
  description = "";
  is_active = true;
  center_x = none;
  center_y = none;
  radius = none;
  polygon_data =
      (whole 0, whole 0) ∷ (whole 4, whole 0) ∷ (whole 4, whole 4) ∷ (whole 0, whole 4) ∷ [];
}

abbrev round_fence : Geofence Fixed
round_fence = record {
  id = 2;
  floor = 1;
  name = "[자동] 센서";
  geofence_type = "circle";
  severity = danger;
  description = "가스센서 자동 생성 — device_id=1";
  is_active = true;
  center_x = some (whole 2);
  center_y = some (whole 2);
  radius = some (whole 1);
  polygon_data = [];
}

abbrev fences : List (Geofence Fixed)
fences = square ∷ round_fence ∷ []

abbrev worker : Worker
worker = record { id = 7; current_state = on_duty; safety_status = safe }

abbrev spot : WorkerLocation Fixed
spot = record { worker = 7; floor = some 1; x = whole 2; y = whole 2; measured_at = 5 }

abbrev sensor : SensorLocation Fixed
sensor = record {
  device_id = 1;
  floor = some 1;
  device_name = "센서";
  is_active = true;
  x = some (whole 2);
  y = some (whole 2);
}

abbrev store : FenceStore Fixed
store = record { fences = fences; next_id = 3; broadcasts = [] }

check_worker_in_geofence-gravest_example :
    check_worker_in_geofence fences worker (some spot) ≡ gravest_of fences on_duty (some spot)
check_worker_in_geofence-gravest_example =
    check_worker_in_geofence-gravest fences worker (some spot)

abbrev spots : List (WorkerLocation Fixed)
spots = spot ∷ []

abbrev workers : List Worker
workers = worker ∷ []
