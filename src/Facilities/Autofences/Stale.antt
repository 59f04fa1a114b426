-- ===== src/Facilities/Autofences/Stale.antt =====
-- facilities/services/geofence_service.py: the sweep of the automatic geofences whose sensor is silent.
pub mod Sweep
use Prim.Native.Char.{Char, code}
use text.Mathlib.Text.{starts_with}
use icmp.Base.{
  ℕ, ◌+◌, ◌*◌, ◌-◌, String, ◌≡◌, refl, Bool, true, false, ◌&&◌, Option, none, some, List, [], ◌∷◌,
  length, select, ltb, leb, ◌==◌, if◌then◌else◌,
}
use icmp.Monitoring.{GasReading, stale_threshold}
use icmp.Facilities.Types.{Geofence}
use icmp.Facilities.Autofences.{FenceStore, deactivate}

-- A digit of ASCII; `\d` has those of other scripts too.
abbrev is_digit : Char → Bool
is_digit c = leb 48 (code c) && leb (code c) 57

-- int of the digits that a text starts with, after those read
read_digits : ℕ → String → ℕ
read_digits n String.[] = n
read_digits n (String.◌∷◌ c s) =
    let rest = read_digits (n * 10 + (code c - 48)) s in if is_digit c then rest else n

-- What follows a prefix, where there is a digit.
after : String → String → Option ℕ
unfolding read_digits
after String.[] String.[] = none
after String.[] (String.◌∷◌ c s) =
    if is_digit c then some (read_digits 0 (String.◌∷◌ c s)) else none
after (String.◌∷◌ a p) String.[] = none
after (String.◌∷◌ a p) (String.◌∷◌ c s) =
    let rest = after p s in if code a == code c then rest else none

abbrev or_else : Option ℕ → Option ℕ → Option ℕ
or_else none o = o
or_else (some n) o = some n

-- int(m.group(1)) of re.search(r'device_id=(\d+)', description)
unfoldable pub device_id_of : String → Option ℕ
unfolding after
device_id_of String.[] = none
device_id_of (String.◌∷◌ c s) = or_else (after "device_id=" (String.◌∷◌ c s)) (device_id_of s)

device_id_test : device_id_of "가스센서 자동 생성 — device_id=207" ≡ some 207
unfolding device_id_of
device_id_test = refl

abbrev later : Option ℕ → ℕ → Option ℕ
later none t = some t
later (some s) t = some (if ltb s t then t else s)

-- last is None or last < timezone.now() - STALE_THRESHOLD
abbrev pub is_silent_since : ℕ → Option ℕ → Bool
is_silent_since now none = true
is_silent_since now (some t) = ltb (t + stale_threshold) now

module _ {F : Type 0} where
  last_from : ℕ → Option ℕ → List (GasReading F) → Option ℕ
  last_from device best [] = best
  last_from device best (r ∷ rs) =
      last_from device (if r.device == device then later best r.measured_at else best) rs

  -- filter(device_id).order_by('-measured_at').values_list('measured_at').first()
  unfoldable pub last_measured : ℕ → List (GasReading F) → Option ℕ
  unfolding last_from
  last_measured device readings = last_from device none readings

  -- The test of the loop's body on the id of a description.
  is_silent : ℕ → List (GasReading F) → Option ℕ → Bool
  unfolding last_measured
  is_silent now readings none = false
  is_silent now readings (some device) = is_silent_since now (last_measured device readings)

  -- An active automatic fence whose sensor has no reading, or an old one.
  unfoldable pub is_forsaken : ℕ → List (GasReading F) → Geofence F → Bool
  unfolding is_silent device_id_of
  is_forsaken now readings g =
      (starts_with g.name "[자동] " && g.is_active)
      && is_silent now readings (device_id_of g.description)

  -- deactivate_stale_geofences: the store, and the count
  unfoldable pub deactivate_stale_geofences :
      ℕ → List (GasReading F) → FenceStore F → FenceStore F × ℕ
  unfolding is_forsaken deactivate
  deactivate_stale_geofences now readings s =
      (deactivate (is_forsaken now readings) s, length (select (is_forsaken now readings) s.fences))
