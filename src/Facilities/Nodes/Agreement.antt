-- ===== src/Facilities/Nodes/Agreement.antt =====
-- facilities/signals.py: the two rows after a save.
use Prim.Native.String.{count}
use icmp.Base.{
  ℕ, suc, ◌≡◌, ◌≤◌, refl, sym, subst, ap, ◌∙◌, Bool, true, false, not, Option, none, some, List, [],
  ◌∷◌, if◌then◌else◌, string_eq, ◌=?◌, ◌==◌, Bool-cases, inl, inr, arith, beq_refl,
}
use icmp.Facilities.Nodes.{
  LocationNode, NodeDevice, Copies, Site, Ending, node, device, done, is_too_long, find, replace,
  copied_device, is_copy, copy_to_device, same_floor, same_flag, is_active_node, node_saved,
  is_linked, copied_node, is_node_copy, copy_to_node, device_saved, handled, post_save, status_of,
}
use icmp.Facilities.Nodes.Cascade.{silent, post_save-silent}

-- The row that a search finds, written over by a row of its id that passes the search.
find-replace :
    {A : Type 0} (p : A → Bool) (id : A → ℕ) (x y : A) (xs : List A)
    → find p xs ≡ some x
    → id y ≡ id x
    → p y ≡ true
    → find p (replace id y xs) ≡ some y
find-replace p id x y [] e i h = absurd (ground arith)
find-replace p id x y (z ∷ xs) e i h = elim (Bool-cases (id z == id y)) [
  | inl own ↦ rw own (rw h refl)
  | inr other ↦ elim (Bool-cases (p z)) [
    | inl k ↦ let same : z ≡ x = ground arith in absurd (ground (arith, i, ap id same))
    | inr k ↦ rw other (rw k (find-replace p id x y xs (ground arith) i h))
  ]
]

done_injective : {s t : Copies} → done s ≡ done t → s ≡ t
done_injective e = cc

same_floor_refl : (o : Option ℕ) → same_floor o o ≡ true
same_floor_refl none = refl
same_floor_refl (some n) = ground arith

same_flag_refl : (b : Bool) → same_flag b b ≡ true
same_flag_refl true = refl
same_flag_refl false = refl

copied_device-is_copy : (n : LocationNode) (d : NodeDevice) → is_copy n (copied_device n d) ≡ true
copied_device-is_copy n d =
    rw (beq_refl n.node_name) (rw (same_floor_refl n.floor) (same_flag_refl (is_active_node n)))

copied_node-is_copy : (d : NodeDevice) (n : LocationNode) → is_node_copy d (copied_node d n) ≡ true
copied_node-is_copy d n =
    rw (beq_refl d.device_name) (rw (same_floor_refl d.floor) (beq_refl (status_of d.is_active)))

find_passes : {A : Type 0} (p : A → Bool) (xs : List A) (x : A) → find p xs ≡ some x → p x ≡ true
find_passes p [] x e = absurd (ground arith)
find_passes p (z ∷ xs) x e = elim (Bool-cases (p z)) [
  | inl k ↦ let same : z ≡ x = ground arith in subst (λ y. p y ≡ true) same k
  | inr k ↦ find_passes p xs x (ground arith)
]

-- A handler that does nothing for a row that is a copy, and else ends with a new state.
by_copy :
    (P : Copies → Type 0) (b : Bool) (s u t : Copies)
    → (b ≡ true → P s)
    → (b ≡ false → P u)
    → (if b then done s else done u) ≡ done t
    → P t
by_copy P true s u t h g e = subst P (done_injective e) (h refl)
by_copy P false s u t h g e = subst P (done_injective e) (g refl)

-- The device that a node is linked to shows what the node shows, and the guard is left.
pub record DeviceAgrees (n : LocationNode) (dev : ℕ) (t : Copies) : Type 0 where
  pub row : NodeDevice
  pub stored : find (λ d. d.id == dev) t.devices ≡ some row
  pub shows : is_copy n row ≡ true
  pub idle : t.syncing ≡ false

copy_to_device-DeviceAgrees :
    (n : LocationNode) (dev : ℕ) (s t : Copies) (o : Option NodeDevice)
    → find (λ d. d.id == dev) s.devices ≡ o
    → s.syncing ≡ false
    → copy_to_device silent n s o ≡ done t
    → DeviceAgrees n dev t
unfolding copy_to_device silent
copy_to_device-DeviceAgrees n dev s t none e idle r = absurd (ground arith)
copy_to_device-DeviceAgrees n dev s t (some d) e idle r =
    by_copy (DeviceAgrees n dev) (is_copy n d) s _ t
      (λ same. record { row = d; stored = e; shows = same; idle = idle })
      (λ dirty. record {
        row = copied_device n d;
        stored =
            find-replace (λ x. x.id == dev) (λ x. x.id) d (copied_device n d) s.devices e refl
              (find_passes (λ x. x.id == dev) s.devices d e);
        shows = copied_device-is_copy n d;
        idle = refl;
      })
      r

-- After a save of a linked node from outside, the row of its device shows what the node shows.
pub post_save-DeviceAgrees :
    (fuel : ℕ) (site : Site) (n : LocationNode) (dev : ℕ) (s t : Copies)
    → s.syncing ≡ false
    → n.device ≡ some dev
    → post_save (suc (suc fuel)) site (node n) s ≡ done t
    → DeviceAgrees n dev t
unfolding handled node_saved
post_save-DeviceAgrees fuel site n dev s t idle link r =
    copy_to_device-DeviceAgrees n dev s t (find (λ d. d.id == dev) s.devices) refl idle (
      ap (node_saved site silent n s) (sym link)
      ∙ sym (post_save-silent fuel site (node n) s idle).0
      ∙ r)

-- A save has ended, the node that is linked to a device shows what the device shows, and the guard is
-- left.
pub record NodeAgrees (d : NodeDevice) (e : Ending) : Type 0 where
  pub tables : Copies
  pub ended : e ≡ done tables
  pub row : LocationNode
  pub stored : find (λ n. is_linked d.id n.device) tables.nodes ≡ some row
  pub shows : is_node_copy d row ≡ true
  pub idle : tables.syncing ≡ false

copy_to_node-NodeAgrees :
    (d : NodeDevice) (created : Bool) (s : Copies) (n : LocationNode)
    → find (λ x. is_linked d.id x.device) s.nodes ≡ some n
    → s.syncing ≡ false
    → is_too_long d ≡ false
    → NodeAgrees d (copy_to_node silent d created s (some n))
unfolding copy_to_node silent
copy_to_node-NodeAgrees d created s n e idle short = elim (Bool-cases (is_node_copy d n)) [
  | inl same ↦ record {
    tables = s;
    ended = rw same refl;
    row = n;
    stored = e;
    shows = same;
    idle = idle;
  }
  | inr dirty ↦ record {
    tables = record s { nodes = replace (λ r. r.id) (copied_node d n) s.nodes; syncing = false };
    ended = rw dirty (rw short refl);
    row = copied_node d n;
    stored =
        find-replace (λ x. is_linked d.id x.device) (λ x. x.id) n (copied_node d n) s.nodes e refl
          (find_passes (λ x. is_linked d.id x.device) s.nodes n e);
    shows = copied_node-is_copy d n;
    idle = refl;
  }
]

-- A save from outside of a device of type 'loc' that a node is linked to, and whose name has at most
-- 100 characters, ends without an exception, and then the row of the node shows what the device shows.
pub post_save-NodeAgrees :
    (fuel : ℕ) (site : Site) (d : NodeDevice) (created : Bool) (s : Copies) (n : LocationNode)
    → s.syncing ≡ false
    → (d.device_type =? "loc") ≡ true
    → count d.device_name ≤ 100
    → find (λ x. is_linked d.id x.device) s.nodes ≡ some n
    → NodeAgrees d (post_save (suc (suc fuel)) site (device d created) s)
unfolding handled device_saved
post_save-NodeAgrees fuel site d created s n idle loc short e =
    let run : post_save (suc (suc fuel)) site (device d created) s
        ≡ copy_to_node silent d created s (some n) =
      (post_save-silent fuel site (device d created) s idle).0
      ∙ ap
          (λ b.
            if not b
            then done s
            else copy_to_node silent d created s (find (λ x. is_linked d.id x.device) s.nodes))
          loc
      ∙ ap (copy_to_node silent d created s) e in
    subst (NodeAgrees d) (sym run) (copy_to_node-NodeAgrees d created s n e idle (ground arith))
