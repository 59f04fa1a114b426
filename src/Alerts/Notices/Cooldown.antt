-- ===== src/Alerts/Notices/Cooldown.antt =====
-- alerts/tasks.py: what send_all_notifications does with an event like one it handed on.
use icmp.Base.{
  ℕ, ◌+◌, ◌≡◌, ◌<◌, refl, Bool-cases, inl, inr, true, false, Option, none, some, List, [], ◌∷◌,
  arith,
}
use icmp.Alerts.Types.{Severity, AlarmEvent}
use icmp.Alerts.Commands.{event_of}
use icmp.Alerts.Notices.{
  AlarmPolicy, Notices, CoolingKey, same_severity, same_key, key_of, is_cooling, dispatch, found,
  send_all_notifications,
}

-- A call, with its clock and the tables that it reads.
pub record Call (F : Type 0) : Type 0 where
  pub now : ℕ
  pub policies : List AlarmPolicy
  pub events : List (AlarmEvent F)
  pub id : ℕ

same_severity_refl : (s : Severity) → same_severity s s ≡ true
same_severity_refl Severity.normal = refl
same_severity_refl Severity.warning = refl
same_severity_refl Severity.danger = refl
same_severity_refl Severity.anomaly = refl
same_severity_refl Severity.predictive_warning = refl

module _ {F : Type 0} where
  abbrev pub send : Call F → Notices → Notices
  unfolding send_all_notifications
  send c n = send_all_notifications c.now c.policies c.events c.id n

  abbrev pub send_each : List (Call F) → Notices → Notices
  send_each [] n = n
  send_each (c ∷ cs) n = send_each cs (send c n)

  -- Events of one rule, facility and severity share their key.
  key_of-same :
      (e d : AlarmEvent F)
      → d.rule ≡ e.rule
      → d.facility ≡ e.facility
      → d.severity ≡ e.severity
      → same_key (key_of e) (key_of d) ≡ true
  key_of-same e d rule facility severity =
      let one : same_severity e.severity d.severity ≡ true =
        rw severity (same_severity_refl e.severity) in
      ground (arith, rule, facility, one)

  dispatch-cooling :
      (now later : ℕ) (policies : List AlarmPolicy) (e d : AlarmEvent F) (n : Notices)
      → is_cooling now (key_of e) n ≡ false
      → same_key (key_of e) (key_of d) ≡ true
      → later < now + 300_000_000
      → is_cooling later (key_of d) (dispatch now policies e n) ≡ true
  unfolding dispatch
  dispatch-cooling now later policies e d n idle same soon =
      rw idle (unfold is_cooling in ground (arith, same, soon))

  dispatch-same :
      (now : ℕ) (policies : List AlarmPolicy) (e : AlarmEvent F) (n : Notices)
      → is_cooling now (key_of e) n ≡ true
      → dispatch now policies e n ≡ n
  unfolding dispatch
  dispatch-same now policies e n h = rw h refl

  -- Later calls end no pause.
  found-keeps :
      (later : ℕ) (key : CoolingKey) (now : ℕ) (policies : List AlarmPolicy) (n : Notices)
      (o : Option (AlarmEvent F))
      → is_cooling later key n ≡ true
      → is_cooling later key (found now policies n o) ≡ true
  unfolding found dispatch
  found-keeps later key now policies n none h = h
  found-keeps later key now policies n (some e) h =
      elim (Bool-cases (is_cooling now (key_of e) n)) [
        | inl b ↦ rw b h
        | inr b ↦ rw b (unfold is_cooling in ground (arith, h))
      ]

  send_each-keeps :
      (later : ℕ) (key : CoolingKey) (cs : List (Call F)) (n : Notices)
      → is_cooling later key n ≡ true
      → is_cooling later key (send_each cs n) ≡ true
  unfolding send_all_notifications
  send_each-keeps later key [] n h = h
  send_each-keeps later key (c ∷ cs) n h =
      send_each-keeps later key cs (send c n)
        (found-keeps later key c.now c.policies n (event_of c.id c.events) h)

  -- After a call that handed an event on, and any calls after it, a call less than 300 seconds after
  -- the first, for an event of the same rule, facility and severity (the same event too), hands on
  -- nothing and does not extend the pause.
  pub send_all_notifications-paused :
      (c later : Call F) (between : List (Call F)) (e d : AlarmEvent F) (n : Notices)
      → event_of c.id c.events ≡ some e
      → is_cooling c.now (key_of e) n ≡ false
      → event_of later.id later.events ≡ some d
      → d.rule ≡ e.rule
      → d.facility ≡ e.facility
      → d.severity ≡ e.severity
      → later.now < c.now + 300_000_000
      → send later (send_each between (send c n)) ≡ send_each between (send c n)
  unfolding send_all_notifications found
  send_all_notifications-paused c later between e d n here idle there rule facility severity soon =
      let paused : is_cooling later.now (key_of d) (send c n) ≡ true = rw here (
        dispatch-cooling c.now later.now c.policies e d n idle
          (key_of-same e d rule facility severity) soon) in
      rw there (
        dispatch-same later.now later.policies d (send_each between (send c n))
          (send_each-keeps later.now (key_of d) between (send c n) paused))
