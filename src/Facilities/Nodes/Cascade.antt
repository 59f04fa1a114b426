-- ===== src/Facilities/Nodes/Cascade.antt =====
-- facilities/signals.py: the signals inside a signal.
use icmp.Base.{
  ℕ, suc, ◌≡◌, refl, ap, ◌∙◌, Bool, true, false, not, ◌||◌, Option, none, some, any, ◌==◌,
  if◌then◌else◌, string_eq, ◌=?◌,
}
use icmp.Facilities.Nodes.{
  LocationNode, NodeDevice, Copies, Site, Saved, node, device, Ending, done, raised, no_fuel, find,
  after, leave, link, create_device, is_copy, copy_to_device, node_saved, resolve_facility,
  is_linked, is_node_copy, is_too_long, copy_to_node, device_saved, handled, post_save,
}

-- The handler with the saves inside it sending no signal.
unfoldable pub silent : Saved → Copies → Ending
silent e s = done s

inner_silent :
    (fuel : ℕ) (site : Site) (e : Saved) (s : Copies)
    → s.syncing ≡ true
    → post_save (suc fuel) site e s ≡ done s
unfolding post_save
inner_silent fuel site e s h = rw h refl

-- Two ways to send a signal that agree under the guard.
record SameInside (g h : Saved → Copies → Ending) : Type 0 where
  same : (e : Saved) (s : Copies) → s.syncing ≡ true → g e s ≡ h e s

module _ {g h : Saved → Copies → Ending} (k : SameInside g h) where
  create_device-same :
      (n : LocationNode) (s : Copies) (o : Option ℕ) → create_device g n s o ≡ create_device h n s o
  unfolding create_device
  create_device-same n s none = refl
  create_device-same n s (some facility) =
      ap
        (λ x.
          if any (λ r. r.device_uid =? n.node_code) s.devices
          then raised
          else after x (λ t. leave (record t { nodes = link n.id s.next_device t.nodes })))
        (k.same _ _ refl)

  copy_to_device-same :
      (n : LocationNode) (s : Copies) (o : Option NodeDevice)
      → copy_to_device g n s o ≡ copy_to_device h n s o
  unfolding copy_to_device
  copy_to_device-same n s none = refl
  copy_to_device-same n s (some d) =
      ap (λ x. if is_copy n d then done s else after x leave) (k.same _ _ refl)

  node_saved-same :
      (site : Site) (n : LocationNode) (s : Copies) (o : Option ℕ)
      → node_saved site g n s o ≡ node_saved site h n s o
  unfolding node_saved
  node_saved-same site n s none = create_device-same n s (resolve_facility site n.floor)
  node_saved-same site n s (some dev) = copy_to_device-same n s (find (λ d. d.id == dev) s.devices)

  copy_to_node-same :
      (d : NodeDevice) (created : Bool) (s : Copies) (o : Option LocationNode)
      → copy_to_node g d created s o ≡ copy_to_node h d created s o
  unfolding copy_to_node
  copy_to_node-same d false s none = refl
  copy_to_node-same d true s none =
      ap
        (λ x.
          if is_too_long d || any (λ r. r.node_code =? d.device_code) s.nodes
          then raised
          else after x leave)
        (k.same _ _ refl)
  copy_to_node-same d created s (some n) =
      ap (λ x. if is_node_copy d n then done s else if is_too_long d then raised else after x leave)
        (k.same _ _ refl)

  handled-same : (site : Site) (e : Saved) (s : Copies) → handled site g e s ≡ handled site h e s
  unfolding handled device_saved
  handled-same site (node n) s = node_saved-same site n s n.device
  handled-same site (device d created) s =
      ap (λ x. if not (d.device_type =? "loc") then done s else x)
        (copy_to_node-same d created s (find (λ n. is_linked d.id n.device) s.nodes))

abbrev pub is_end : Ending → Bool
is_end (done s) = true
is_end raised = true
is_end no_fuel = false

-- The end is no lack of fuel.
pub record HasEnded (e : Ending) : Type 0 where
  pub is : is_end e ≡ true

guard_ends : (b : Bool) {x y : Ending} → HasEnded x → HasEnded y → HasEnded (if b then x else y)
guard_ends true h g = h
guard_ends false h g = g

create_ends : (n : LocationNode) (s : Copies) (o : Option ℕ) → HasEnded (create_device silent n s o)
unfolding create_device silent
create_ends n s none = (record { is = refl })
create_ends n s (some facility) =
    guard_ends (any (λ r. r.device_uid =? n.node_code) s.devices) (record { is = refl })
      (record { is = refl })

device_ends :
    (n : LocationNode) (s : Copies) (o : Option NodeDevice) → HasEnded (copy_to_device silent n s o)
unfolding copy_to_device silent
device_ends n s none = (record { is = refl })
device_ends n s (some d) = guard_ends (is_copy n d) (record { is = refl }) (record { is = refl })

node_ends :
    (d : NodeDevice) (created : Bool) (s : Copies) (o : Option LocationNode)
    → HasEnded (copy_to_node silent d created s o)
unfolding copy_to_node silent
node_ends d false s none = (record { is = refl })
node_ends d true s none =
    guard_ends (is_too_long d || any (λ r. r.node_code =? d.device_code) s.nodes)
      (record { is = refl }) (record { is = refl })
node_ends d created s (some n) =
    guard_ends (is_node_copy d n) (record { is = refl })
      (guard_ends (is_too_long d) (record { is = refl }) (record { is = refl }))

saved_ends :
    (site : Site) (n : LocationNode) (s : Copies) (o : Option ℕ)
    → HasEnded (node_saved site silent n s o)
unfolding node_saved
saved_ends site n s none = create_ends n s (resolve_facility site n.floor)
saved_ends site n s (some dev) = device_ends n s (find (λ d. d.id == dev) s.devices)

handled_ends : (site : Site) (e : Saved) (s : Copies) → HasEnded (handled site silent e s)
unfolding handled device_saved
handled_ends site (node n) s = saved_ends site n s n.device
handled_ends site (device d created) s =
    guard_ends (not (d.device_type =? "loc")) (record { is = refl })
      (node_ends d created s (find (λ n. is_linked d.id n.device) s.nodes))

-- A save from outside ends after at most two signals inside one another, whatever fuel is left: the
-- save inside its handler changes nothing more, and the end is no lack of fuel.
pub post_save-silent :
    (fuel : ℕ) (site : Site) (e : Saved) (s : Copies)
    → s.syncing ≡ false
    → (post_save (suc (suc fuel)) site e s ≡ handled site silent e s)
      × HasEnded (handled site silent e s)
unfolding post_save silent
post_save-silent fuel site e s h =
    let inside : SameInside (post_save (suc fuel) site) silent = record {
      same = inner_silent fuel site;
    } in
    (
      ap (λ b. if b then done s else handled site (post_save (suc fuel) site) e s) h
          ∙ handled-same inside site e s,
      handled_ends site e s,
    )
