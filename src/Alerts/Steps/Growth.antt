-- ===== src/Alerts/Steps/Growth.antt =====
-- alerts/models.py: the tables of events and of history, and the notifications, before and after steps.
use mathlib.Core.List.{append_assoc, append-nil}
use icmp.Base.{ℕ, ◌≡◌, refl, sym, ap, ◌∙◌, List, [], ◌∷◌, ◌++◌}
use icmp.Alerts.Types.{EventHistory, AlarmEvent, Store}
use icmp.Alerts.Tables.{create_alarm_event, auto_close, save}
use icmp.Alerts.Status.{stamp}
use icmp.Alerts.Steps.{Step, opens, refreshes, closes, changes, restamp, Steps, stop, then_}
use icmp.Alerts.Steps.Soundness.{ids, map-append-id, map-save}

-- From one store to a later one: the events created in between, which are the ones handed to the
-- notifications, and the history written in between.
pub record Grows {F : Type 0} (s t : Store F) : Type 0 where
  pub created : List ℕ
  pub log : List EventHistory
  pub ids_grow : ids t ≡ ids s ++ created
  pub queued_grow : t.queued ≡ s.queued ++ created
  pub log_grows : t.histories ≡ s.histories ++ log

grow_twice :
    {A : Type 0} (a x y : List A) {b c : List A} → b ≡ a ++ x → c ≡ b ++ y → c ≡ a ++ (x ++ y)
grow_twice a x y p q = q ∙ ap (λ l. l ++ y) p ∙ append_assoc a x y

module _ {F : Type 0} where
  saved-Grows :
      (s : Store F) (log : List EventHistory) (e : AlarmEvent F)
      → Grows s (record s { events = save e s.events; histories = s.histories ++ log })
  saved-Grows s log e = record {
    created = [];
    log = log;
    ids_grow = map-save e s.events ∙ sym (append-nil _);
    queued_grow = sym (append-nil _);
    log_grows = refl;
  }

  refreshed-Grows :
      (s : Store F) (e : AlarmEvent F) → Grows s (record s { events = save e s.events })
  refreshed-Grows s e = record {
    created = [];
    log = [];
    ids_grow = map-save e s.events ∙ sym (append-nil _);
    queued_grow = sym (append-nil _);
    log_grows = sym (append-nil _);
  }

  Step-Grows : {s t : Store F} → Step s t → Grows s t
  unfolding create_alarm_event auto_close restamp
  Step-Grows {s = s} (opens now rule facility severity title device worker channel message value) =
      record {
        created = s.next_id ∷ [];
        log = [];
        ids_grow = map-append-id s.events _;
        queued_grow = refl;
        log_grows = sym (append-nil _);
      }
  Step-Grows {s = s} (refreshes seen value severity message e m o) = refreshed-Grows s _
  Step-Grows {s = s} (closes now note e m o) = saved-Grows s _ _
  Step-Grows {s = s} (changes now t user note e m o) = saved-Grows s _ (stamp t now user e)

  pub Steps-Grows : {s t : Store F} → Steps s t → Grows s t
  Steps-Grows stop = record {
    created = [];
    log = [];
    ids_grow = sym (append-nil _);
    queued_grow = sym (append-nil _);
    log_grows = sym (append-nil _);
  }
  Steps-Grows (then_ rest last_) =
      let g = Steps-Grows rest in
      let h = Step-Grows last_ in
      record {
        created = g.created ++ h.created;
        log = g.log ++ h.log;
        ids_grow = grow_twice _ g.created h.created g.ids_grow h.ids_grow;
        queued_grow = grow_twice _ g.created h.created g.queued_grow h.queued_grow;
        log_grows = grow_twice _ g.log h.log g.log_grows h.log_grows;
      }
