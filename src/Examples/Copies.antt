-- ===== src/Examples/Copies.antt =====
-- A node that was renamed, and its device.
use icmp.Base.{◌≡◌, refl, arith, true, false, none, some, [], ◌∷◌}
use icmp.Facilities.Nodes.{
  LocationNode, NodeDevice, Copies, Site, node, device, done, handled, post_save,
}
use icmp.Facilities.Nodes.Cascade.{silent, HasEnded, post_save-silent}
use icmp.Facilities.Nodes.Agreement.{
  DeviceAgrees, NodeAgrees, post_save-DeviceAgrees, post_save-NodeAgrees,
}

abbrev renamed : LocationNode
renamed = record {
  id = 1;
  node_code = "LN-1";
  node_name = "입구";
  floor = some 2;
  status = "active";
  device = some 5;
}

abbrev original : NodeDevice
original = record {
  id = 5;
  device_type = "loc";
  device_code = "LN-1";
  device_uid = "LN-1";
  device_name = "문";
  facility = 1;
  floor = none;
  is_active = false;
}

abbrev copied : NodeDevice
copied = record original { device_name = "입구"; floor = some 2; is_active = true }

abbrev tables : Copies
tables = record {
  nodes = renamed ∷ [];
  devices = original ∷ [];
  next_node = 2;
  next_device = 6;
  syncing = false;
}

abbrev site : Site
site = record { facility_of_floor = (2, 1) ∷ []; first_facility = some 1 }

post_save-silent_example :
    (post_save 2 site (node renamed) tables ≡ handled site silent (node renamed) tables)
    × HasEnded (handled site silent (node renamed) tables)
post_save-silent_example = post_save-silent 0 site (node renamed) tables refl

node_runs : post_save 2 site (node renamed) tables ≡ done (record tables { devices = copied ∷ [] })
unfolding post_save
node_runs = refl

post_save-DeviceAgrees_example : DeviceAgrees renamed 5 (record tables { devices = copied ∷ [] })
post_save-DeviceAgrees_example =
    post_save-DeviceAgrees 0 site renamed 5 tables (record tables { devices = copied ∷ [] }) refl
      refl node_runs

post_save-NodeAgrees_example : NodeAgrees original (post_save 2 site (device original false) tables)
post_save-NodeAgrees_example =
    post_save-NodeAgrees 0 site original false tables renamed refl refl (omega arith) refl
