-- ===== src/Alerts/Gas/Tracking.antt =====
-- alerts/services.py: how many open events check_gas_thresholds leaves.
use icmp.Base.{
  ℕ, ◌+◌, ◌≤◌, ◌≡◌, refl, ap, ◌∙◌, Bool, true, false, ◌&&◌, Option, none, some, List, [], ◌∷◌,
  string_eq, ◌=?◌, if◌then◌else◌, ◌==◌, ==_iff, arith,
}
use icmp.Float.{Float}
use icmp.Monitoring.{Device, GasReading, ThresholdPolicy}
use icmp.Monitoring.Gas.{Exceeded, check_threshold_exceeded}
use icmp.Alerts.Types.{RuleType, closed, AlarmRule, AlarmEvent, Store}
use icmp.Alerts.Tables.{
  save, active_rule, open_of, latest, auto_close, create_alarm_event, when_some,
}
use icmp.Alerts.Tables.Queries.{Finds, latest-Finds}
use icmp.Alerts.Tables.Counts.{bit, count, count-append, count-pos, count-save, latest-none}
use icmp.Alerts.Steps.Soundness.{Distinct, ids}
use icmp.Alerts.Gas.{gas_exceeded, check_gas_thresholds}

abbrev pub has_any : {A : Type 0} → List A → Bool
has_any [] = false
has_any (x ∷ xs) = true

-- The number of open events of a rule and a device.
abbrev pub open_count : {F : Type 0} → ℕ → ℕ → Store F → ℕ
open_count rule device s = count (open_of rule device) s.events

module _ {F : Type 0} where
  -- The count once a found row is saved as one that is open, or not, for the rule and the device.
  saved-count :
      (rule device : ℕ) (s : Store F) (v e : AlarmEvent F) (b : Bool)
      → v.id ≡ e.id
      → Distinct (ids s)
      → open_count rule device s ≤ 1
      → Finds (open_of rule device) s.events (some e)
      → open_of rule device v ≡ b
      → count (open_of rule device) (save v s.events) ≡ bit b
  saved-count rule device s v e b same unlike most found h =
      let p = open_of {F = F} rule device in
      let moved = count-save p v e s.events same unlike found.0 in
      let some_ = count-pos p e s.events found.0 found.1 in
      let was : bit (p e) ≡ 1 = ap bit found.1 in
      let is_now : bit (p v) ≡ bit b = ap bit h in omega (arith, moved, some_, was, is_now, most)

  closed-open_of :
      (rule device now : ℕ) (e : AlarmEvent F)
      → open_of rule device (record e { event_status = closed; closed_at = some now }) ≡ false
  closed-open_of rule device now e = ground arith

past_guards :
    {S : Type 0} (o : Option ℕ) (b : Bool) (a : Option AlarmRule) (x : ℕ) (y : AlarmRule) (s : S)
    (k : ℕ → AlarmRule → S)
    → o ≡ some x
    → b ≡ true
    → a ≡ some y
    → when_some o s (λ x'. if b then when_some a s (λ y'. k x' y') else s) ≡ k x y
past_guards o b a x y s k p q t = rw (p, q, t) refl

module _ {F : Type 0} ⦃f : Float F⦄ where
  gas_exceeded-count :
      (now : ℕ) (s : Store F) (rule : AlarmRule) (facility : ℕ) (device : Device)
      (xs : List (Exceeded F)) (o : Option (AlarmEvent F))
      → Distinct (ids s)
      → open_count rule.id device.id s ≤ 1
      → (o ≡ none → open_count rule.id device.id s ≡ 0)
      → Finds (open_of rule.id device.id) s.events o
      → open_count rule.id device.id (gas_exceeded now s rule facility device xs o)
        ≡ bit (has_any xs)
  unfolding gas_exceeded auto_close create_alarm_event
  gas_exceeded-count now s rule facility device [] none unlike most none_left found = none_left refl
  gas_exceeded-count now s rule facility device [] (some e) unlike most none_left found =
      saved-count rule.id device.id s _ e false refl unlike most found
        (closed-open_of rule.id device.id now e)
  gas_exceeded-count now s rule facility device (x ∷ xs) (some e) unlike most none_left found =
      saved-count rule.id device.id s _ e true refl unlike most found found.1
  gas_exceeded-count now s rule facility device (x ∷ xs) none unlike most none_left found =
      count-append (open_of rule.id device.id) s.events (_ ∷ [])
      ∙ ap (λ n. n + (bit ((rule.id == rule.id) && ((device.id == device.id) && true)) + 0))
          (none_left refl)
      ∙ ground (arith, ==_iff rule.id rule.id, ==_iff device.id device.id)

  module _ (policies : List (ThresholdPolicy F)) (now : ℕ) (s : Store F) (device : Device)
      (r : GasReading F) (rule : AlarmRule) (facility : ℕ) where
    -- Of a device of a facility, with a reading of quality `ok`, an active THRESHOLD rule, the first of
    -- the table, and a table of events whose ids differ: if the device has at most one open event of
    -- that rule, it has exactly one after the check when a gas exceeds, and none when no gas does.
    pub check_gas_thresholds-count :
        device.facility ≡ some facility
        → (r.quality_flag =? "ok") ≡ true
        → active_rule RuleType.threshold s.rules ≡ some rule
        → Distinct (ids s)
        → open_count rule.id device.id s ≤ 1
        → open_count rule.id device.id (check_gas_thresholds policies now s device r)
          ≡ bit (has_any (check_threshold_exceeded policies r "알림"))
    unfolding check_gas_thresholds
    check_gas_thresholds-count placed good active unlike most =
        let p = open_of {F = F} rule.id device.id in
        let found = check_threshold_exceeded policies r "알림" in
        ap (open_count rule.id device.id) (
          past_guards device.facility (r.quality_flag =? "ok")
            (active_rule RuleType.threshold s.rules) facility rule s
            (λ x y. gas_exceeded now s y x device found (latest (open_of y.id device.id) s.events))
            placed good active)
        ∙ gas_exceeded-count now s rule facility device found (latest p s.events) unlike most
            (latest-none p s.events) (latest-Finds p s.events)
