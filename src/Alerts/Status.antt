-- ===== src/Alerts/Status.antt =====
-- alerts/services.py: change_event_status, and the counts of the status board.
pub mod Transitions
use icmp.Base.{
  ℕ, ◌+◌, String, Bool, true, false, Option, none, some, List, [], ◌∷◌, ◌++◌, if◌then◌else◌,
  string_eq, ◌=?◌, length, select,
}
use icmp.Alerts.Types.{
  EventStatus, opened, acknowledged, closed, ActionType, acknowledge, close, reopen, AlarmEvent,
  EventHistory, Store,
}
use icmp.Alerts.Tables.{save}

-- The stored text of a status
abbrev pub status_text : EventStatus → String
status_text opened = "open"
status_text acknowledged = "acknowledged"
status_text closed = "closed"

-- ALLOWED_TRANSITIONS
unfoldable pub allowed_transitions : EventStatus → List EventStatus
allowed_transitions opened = acknowledged ∷ closed ∷ []
allowed_transitions acknowledged = closed ∷ opened ∷ []
allowed_transitions closed = opened ∷ acknowledged ∷ []

-- The allowed status of that text.
unfoldable pub find_status : String → List EventStatus → Option EventStatus
find_status t [] = none
find_status t (s ∷ ss) = if status_text s =? t then some s else find_status t ss

abbrev pub same_status : EventStatus → EventStatus → Bool
same_status opened opened = true
same_status acknowledged acknowledged = true
same_status closed closed = true
same_status a b = false

-- action_map
abbrev pub action_of : EventStatus → ActionType
action_of acknowledged = acknowledge
action_of closed = close
action_of opened = reopen

-- The `ValueError`: the status that is there, and the text that was asked for.
pub data StatusResult (F : Type 0) : Type 0 where
  ok : Store F → AlarmEvent F → StatusResult F
  not_allowed : EventStatus → String → StatusResult F

module _ {F : Type 0} where
  -- The fields that go with the new status.
  unfoldable pub stamp : EventStatus → ℕ → Option ℕ → AlarmEvent F → AlarmEvent F
  stamp acknowledged now user e = record e {
    event_status = acknowledged;
    acknowledged_by = user;
    acknowledged_at = some now;
  }
  stamp closed now user e = record e { event_status = closed; closed_at = some now }
  stamp opened now user e = record e { event_status = opened; closed_at = none }

  -- change_event_status, once the text is looked up
  unfoldable pub change_to :
      ℕ → Store F → AlarmEvent F → String → Option ℕ → String → Option EventStatus → StatusResult F
  unfolding stamp save
  change_to now s e new_status user action_note none = not_allowed e.event_status new_status
  change_to now s e new_status user action_note (some t) =
      ok
        (record s {
          events = save (stamp t now user e) s.events;
          histories =
              s.histories
              ++ (record {
                alarm_event = e.id;
                action_type = action_of t;
                action_by = user;
                action_note = action_note;
              }
                  ∷ []);
        })
        (stamp t now user e)

  -- change_event_status, of the row `e`
  unfoldable pub change_event_status :
      ℕ → Store F → AlarmEvent F → String → Option ℕ → String → StatusResult F
  unfolding allowed_transitions find_status change_to
  change_event_status now s e new_status user action_note =
      change_to now s e new_status user action_note
        (find_status new_status (allowed_transitions e.event_status))

  -- get_status_counts: open, acknowledged, closed
  unfoldable pub get_status_counts : Store F → ℕ × ℕ × ℕ
  get_status_counts s = (
    length (select (λ e. same_status e.event_status opened) s.events),
    length (select (λ e. same_status e.event_status acknowledged) s.events),
    length (select (λ e. same_status e.event_status closed) s.events),
  )
