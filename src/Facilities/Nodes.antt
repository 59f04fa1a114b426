-- ===== src/Facilities/Nodes.antt =====
-- facilities/signals.py: the copies between a location node and its device of type 'loc'. A save sends
-- a signal, whose handler saves the other row under a guard, which sends a signal again.
pub mod Cascade
pub mod Agreement
use Prim.Native.String.{count}
use icmp.Base.{
  ℕ, zero, suc, String, Bool, true, false, not, ◌&&◌, ◌||◌, ltb, Option, none, some, List, [], ◌∷◌,
  ◌++◌, any, ◌==◌, if◌then◌else◌, Dict, lookup, nat_eq, string_eq, ◌=?◌,
}

-- LocationNode: the columns that the handlers read or write.
pub record LocationNode : Type 0 where
  pub id : ℕ
  pub node_code : String
  pub node_name : String
  pub floor : Option ℕ
  pub status : String
  pub device : Option ℕ

-- Device: the columns that the handlers read or write.
pub record NodeDevice : Type 0 where
  pub id : ℕ
  pub device_type : String
  pub device_code : String
  pub device_uid : String
  pub device_name : String
  pub facility : ℕ
  pub floor : Option ℕ
  pub is_active : Bool

-- The two tables with their next ids, and the guard `_LN_DEV_SYNC.active`.
pub record Copies : Type 0 where
  pub nodes : List LocationNode
  pub devices : List NodeDevice
  pub next_node : ℕ
  pub next_device : ℕ
  pub syncing : Bool

-- The facility of each floor by its building, and Facility.objects.first().
pub record Site : Type 0 where
  pub facility_of_floor : Dict ℕ ℕ
  pub first_facility : Option ℕ

-- A saved row, and whether the save created it.
pub data Saved : Type 0 where
  node : LocationNode → Saved
  device : NodeDevice → Bool → Saved

-- How a save ends: `raised` is an exception, of a unique column, of a text that is too long for its
-- column, or of a missing row.
pub data Ending : Type 0 where
  done : Copies → Ending
  raised : Ending
  no_fuel : Ending

module _ {A : Type 0} where
  -- filter(...).first()
  abbrev pub find : (A → Bool) → List A → Option A
  find p [] = none
  find p (x ∷ xs) = if p x then some x else find p xs

  -- The row of the same id is written over.
  abbrev pub replace : (A → ℕ) → A → List A → List A
  replace id y [] = []
  replace id y (x ∷ xs) = (if id x == id y then y else x) ∷ replace id y xs

abbrev pub or_first : Option ℕ → Option ℕ → Option ℕ
or_first first none = first
or_first first (some facility) = some facility

-- _resolve_facility_for_node
unfoldable pub resolve_facility : Site → Option ℕ → Option ℕ
resolve_facility site none = site.first_facility
resolve_facility site (some floor) =
    or_first site.first_facility (lookup floor site.facility_of_floor)

abbrev pub is_active_node : LocationNode → Bool
is_active_node n = n.status =? "active"

abbrev pub status_of : Bool → String
status_of true = "active"
status_of false = "inactive"

abbrev pub same_floor : Option ℕ → Option ℕ → Bool
same_floor none none = true
same_floor (some a) (some b) = a == b
same_floor _ _ = false

abbrev pub same_flag : Bool → Bool → Bool
same_flag true b = b
same_flag false b = not b

-- The rest of a save, unless it has ended by an exception.
abbrev pub after : Ending → (Copies → Ending) → Ending
after (done s) rest = rest s
after raised rest = raised
after no_fuel rest = no_fuel

-- The guard is left.
abbrev pub leave : Copies → Ending
leave s = done (record s { syncing = false })

abbrev pub new_device : Copies → LocationNode → ℕ → NodeDevice
new_device s n facility = record {
  id = s.next_device;
  device_type = "loc";
  device_code = n.node_code;
  device_uid = n.node_code;
  device_name = n.node_name;
  facility = facility;
  floor = n.floor;
  is_active = is_active_node n;
}

-- sender.objects.filter(pk=instance.pk).update(device=dev), which sends no signal
abbrev pub link : ℕ → ℕ → List LocationNode → List LocationNode
link n d [] = []
link n d (x ∷ xs) = (if x.id == n then record x { device = some d } else x) ∷ link n d xs

unfoldable pub create_device : (Saved → Copies → Ending) → LocationNode → Copies → Option ℕ → Ending
create_device emit n s none = done s
create_device emit n s (some facility) =
    let d = new_device s n facility in
    if any (λ r. r.device_uid =? n.node_code) s.devices
    then raised
    else after
        (emit (device d true) (record s {
          devices = s.devices ++ (d ∷ []);
          next_device = suc s.next_device;
          syncing = true;
        }))
        (λ t. leave (record t { nodes = link n.id d.id t.nodes }))

abbrev pub copied_device : LocationNode → NodeDevice → NodeDevice
copied_device n d = record d {
  device_name = n.node_name;
  floor = n.floor;
  is_active = is_active_node n;
}

-- No field is dirty.
abbrev pub is_copy : LocationNode → NodeDevice → Bool
is_copy n d =
    (d.device_name =? n.node_name)
    && (same_floor d.floor n.floor && same_flag d.is_active (is_active_node n))

unfoldable pub copy_to_device :
    (Saved → Copies → Ending) → LocationNode → Copies → Option NodeDevice → Ending
copy_to_device emit n s none = raised
copy_to_device emit n s (some d) =
    if is_copy n d
    then done s
    else after
        (emit (device (copied_device n d) false) (record s {
          devices = replace (λ r. r.id) (copied_device n d) s.devices;
          syncing = true;
        }))
        leave

-- _ln_to_device_sync behind its guard
unfoldable pub node_saved :
    Site → (Saved → Copies → Ending) → LocationNode → Copies → Option ℕ → Ending
unfolding resolve_facility create_device copy_to_device
node_saved site emit n s none = create_device emit n s (resolve_facility site n.floor)
node_saved site emit n s (some dev) = copy_to_device emit n s (find (λ d. d.id == dev) s.devices)

abbrev pub is_linked : ℕ → Option ℕ → Bool
is_linked dev none = false
is_linked dev (some d) = d == dev

abbrev pub new_node : Copies → NodeDevice → LocationNode
new_node s d = record {
  id = s.next_node;
  node_code = d.device_code;
  node_name = d.device_name;
  floor = d.floor;
  status = status_of d.is_active;
  device = some d.id;
}

abbrev pub copied_node : NodeDevice → LocationNode → LocationNode
copied_node d n = record n {
  node_name = d.device_name;
  floor = d.floor;
  status = status_of d.is_active;
}

abbrev pub is_node_copy : NodeDevice → LocationNode → Bool
is_node_copy d n =
    (n.node_name =? d.device_name)
    && (same_floor n.floor d.floor && (n.status =? status_of d.is_active))

-- Device.device_name is varchar(200), and LocationNode.node_name is varchar(100).
abbrev pub is_too_long : NodeDevice → Bool
is_too_long d = ltb 100 (count d.device_name)

unfoldable pub copy_to_node :
    (Saved → Copies → Ending) → NodeDevice → Bool → Copies → Option LocationNode → Ending
copy_to_node emit d false s none = done s
copy_to_node emit d true s none =
    let n = new_node s d in
    if is_too_long d || any (λ r. r.node_code =? d.device_code) s.nodes
    then raised
    else after
        (emit (node n)
          (record s { nodes = s.nodes ++ (n ∷ []); next_node = suc s.next_node; syncing = true }))
        leave
copy_to_node emit d created s (some n) =
    if is_node_copy d n
    then done s
    else if is_too_long d
    then raised
    else after
        (emit (node (copied_node d n))
          (record s { nodes = replace (λ r. r.id) (copied_node d n) s.nodes; syncing = true }))
        leave

-- _device_to_ln_sync behind its guard
unfoldable pub device_saved : (Saved → Copies → Ending) → NodeDevice → Bool → Copies → Ending
unfolding copy_to_node
device_saved emit d created s =
    if not (d.device_type =? "loc")
    then done s
    else copy_to_node emit d created s (find (λ n. is_linked d.id n.device) s.nodes)

-- The handler of a signal behind its guard; `emit` is what a save inside it sends.
unfoldable pub handled : Site → (Saved → Copies → Ending) → Saved → Copies → Ending
unfolding node_saved device_saved
handled site emit (node n) s = node_saved site emit n s n.device
handled site emit (device d created) s = device_saved emit d created s

-- The signal of a save, with at most so many signals inside one another.
unfoldable pub post_save : ℕ → Site → Saved → Copies → Ending
unfolding handled
post_save zero site e s = no_fuel
post_save (suc fuel) site e s =
    let inner = post_save fuel site in if s.syncing then done s else handled site inner e s
