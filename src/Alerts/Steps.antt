-- ===== src/Alerts/Steps.antt =====
-- alerts/services.py: the four ways in which the handlers change the tables, as a step relation.
pub mod Handlers
pub mod Timeouts
pub mod Soundness
pub mod Growth
use mathlib.Core.List.{Memᴰ}
use icmp.Base.{
  ℕ, String, ◌≡◌, refl, Bool, true, false, Option, none, some, List, [], ◌∷◌, ◌++◌, ltb,
  if◌then◌else◌, All,
}
use icmp.Alerts.Types.{Severity, EventStatus, AlarmRule, AlarmEvent, EventHistory, Store}
use icmp.Alerts.Tables.{is_open, with_event, auto_close, create_alarm_event, save}
use icmp.Alerts.Status.{same_status, stamp, action_of}

module _ {F : Type 0} where
  -- An open event that is seen again.
  abbrev pub refresh : Option ℕ → Option F → Severity → String → AlarmEvent F → AlarmEvent F
  refresh seen value severity message e = record e {
    last_seen_at = seen;
    current_value = value;
    severity = severity;
    message = message;
  }

  -- A row and its history, changed by hand.
  unfoldable pub restamp : ℕ → EventStatus → Option ℕ → String → Store F → AlarmEvent F → Store F
  unfolding stamp save
  restamp now t user note s e = record s {
    events = save (stamp t now user e) s.events;
    histories =
        s.histories
        ++ (record {
          alarm_event = e.id;
          action_type = action_of t;
          action_by = user;
          action_note = note;
        }
            ∷ []);
  }

  -- One change of the tables: a new event, an open event seen again, an open event closed, or a row
  -- moved to another status by hand.
  pub data Step : Store F → Store F → Type 0 where
    opens :
        {s : Store F} (now : ℕ) (rule : AlarmRule) (facility : ℕ) (severity : Severity)
        (title : String) (device worker channel : Option ℕ) (message : String) (value : Option F)
        → Step s (
            create_alarm_event now s rule facility severity title device worker channel message
              value)
    refreshes :
        {s : Store F} (seen : Option ℕ) (value : Option F) (severity : Severity) (message : String)
        (e : AlarmEvent F)
        → Memᴰ e s.events
        → is_open e.event_status ≡ true
        → Step s (with_event s (refresh seen value severity message e))
    closes :
        {s : Store F} (now : ℕ) (note : String) (e : AlarmEvent F)
        → Memᴰ e s.events
        → is_open e.event_status ≡ true
        → Step s (auto_close now note s e)
    changes :
        {s : Store F} (now : ℕ) (t : EventStatus) (user : Option ℕ) (note : String)
        (e : AlarmEvent F)
        → Memᴰ e s.events
        → same_status e.event_status t ≡ false
        → Step s (restamp now t user note s e)

  pub data Steps (s : Store F) : Store F → Type 0 where
    stop : Steps s s
    then_ : {t u : Store F} → Steps s t → Step t u → Steps s u

  pub one : {s t : Store F} → Step s t → Steps s t
  one h = then_ stop h

  pub Steps-trans : {s t u : Store F} → Steps s t → Steps t u → Steps s u
  Steps-trans a stop = a
  Steps-trans a (then_ b h) = then_ (Steps-trans a b) h
