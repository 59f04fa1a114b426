-- ===== src/Facilities/Autofences/Stale/Sweep.antt =====
-- facilities/services/geofence_service.py: what the sweep leaves.
use icmp.Base.{
  ℕ, ◌+◌, ◌≡◌, refl, ap, Bool, true, false, List, [], ◌∷◌, length, select, if◌then◌else◌, arith,
}
use icmp.Monitoring.{GasReading}
use icmp.Facilities.Types.{Geofence}
use icmp.Facilities.Autofences.{FenceStore, change_rows, deactivated, deactivate}
use icmp.Facilities.Autofences.Stale.{is_forsaken, deactivate_stale_geofences}

module _ {F : Type 0} where
  abbrev pub is_on : Geofence F → Bool
  is_on g = g.is_active

  -- A fence that is off is not forsaken.
  forsaken-off :
      (now : ℕ) (readings : List (GasReading F)) (g : Geofence F)
      → is_forsaken now readings (deactivated g) ≡ false
  unfolding is_forsaken
  forsaken-off now readings g = ground arith

  forsaken-on :
      (now : ℕ) (readings : List (GasReading F)) (g : Geofence F)
      → is_forsaken now readings g ≡ true
      → g.is_active ≡ true
  unfolding is_forsaken
  forsaken-on now readings g h = ground (arith, h)

  count-swept :
      (now : ℕ) (readings : List (GasReading F)) (gs : List (Geofence F))
      → length (select is_on (change_rows (is_forsaken now readings) deactivated gs))
          + length (select (is_forsaken now readings) gs)
        ≡ length (select is_on gs)
  count-swept now readings [] = omega arith
  count-swept now readings (g ∷ gs) =
      step (is_forsaken now readings g) g.is_active (forsaken-on now readings g)
        (count-swept now readings gs)
    where
      rest : List (Geofence F)
      rest = change_rows (is_forsaken now readings) deactivated gs

      step :
          (b on : Bool)
          → (b ≡ true → on ≡ true)
          → length (select is_on rest) + length (select (is_forsaken now readings) gs)
            ≡ length (select is_on gs)
          → length (
                if (if b then deactivated g else record g { is_active = on }).is_active
                then (if b then deactivated g else record g { is_active = on }) ∷ select is_on rest
                else select is_on rest)
              + length (
                  if b
                  then g ∷ select (is_forsaken now readings) gs
                  else select (is_forsaken now readings) gs)
            ≡ length (if on then g ∷ select is_on gs else select is_on gs)
      step true true h ih = omega (arith, ih)
      step true false h ih = absurd (ground (arith, h refl))
      step false true h ih = omega (arith, ih)
      step false false h ih = ih

  select-swept :
      (now : ℕ) (readings : List (GasReading F)) (gs : List (Geofence F))
      → select (is_forsaken now readings) (change_rows (is_forsaken now readings) deactivated gs)
        ≡ []
  select-swept now readings [] = refl
  select-swept now readings (g ∷ gs) =
      rw (gone (is_forsaken now readings g) refl) (select-swept now readings gs)
    where
      gone :
          (b : Bool)
          → is_forsaken now readings g ≡ b
          → is_forsaken now readings (if b then deactivated g else g) ≡ false
      gone true h = forsaken-off now readings g
      gone false h = h

  -- A sweep counts the fences that it turns off: so many fewer are active after it. A second sweep at
  -- the same time with the same readings finds none, so no active automatic fence is left whose sensor
  -- has no reading or an old one.
  pub deactivate_stale_geofences-count :
      (now : ℕ) (readings : List (GasReading F)) (s : FenceStore F)
      → (length (select is_on (deactivate_stale_geofences now readings s).0.fences)
            + (deactivate_stale_geofences now readings s).1
          ≡ length (select is_on s.fences))
        × ((deactivate_stale_geofences now readings (deactivate_stale_geofences now readings s).0).1
            ≡ 0)
  unfolding deactivate_stale_geofences deactivate
  deactivate_stale_geofences-count now readings s =
      (count-swept now readings s.fences, ap length (select-swept now readings s.fences))
