-- ===== src/Safety/Checklist.antt =====
-- safety/views.py: the two pages that a worker sends, the checklist and the VR education.
pub mod Invariant
pub mod Final
pub mod Changes
pub mod Once
use icmp.Base.{
  ℕ, suc, Bool, true, false, not, ◌||◌, Option, none, some, List, [], ◌∷◌, ◌++◌, map, length,
  select, any, ◌==◌, if◌then◌else◌,
}
use icmp.Safety.{
  SafetyCheckItem, SafetyCheckSession, SafetyCheckItemResult, SafetyStore, session_of, save,
}

-- What the pages answer; `raised` is an exception of a number that does not parse or of a missing
-- facility.
pub data Answer : Type 0 where
  no_worker : Answer
  already : Answer
  next_vr : Answer
  bad_request : Answer
  back : Answer
  vr_saved : Answer
  page : Answer
  raised : Answer

-- A POST: `submit_checklist` with the item ids, if all of them are numbers, or another action.
pub data Action : Type 0 where
  submit_checklist : Option (List ℕ) → Action
  vr_complete : Action
  other_action : Action

abbrev pub has_id : ℕ → List ℕ → Bool
has_id n ids = any (λ i. i == n) ids

-- set(ids)
unfoldable pub distinct : List ℕ → List ℕ
distinct [] = []
distinct (n ∷ ids) = let rest = distinct ids in if has_id n rest then rest else n ∷ rest

abbrev pub active_items : SafetyStore → List SafetyCheckItem
active_items s = select (λ i. i.is_active) s.items

abbrev pub result_of : SafetyCheckSession → List ℕ → SafetyCheckItem → SafetyCheckItemResult
result_of t ids i = record { session = t.id; item = i.id; is_checked = has_id i.id ids }

-- len(checked_ids) == items.count()
abbrev pub all_checked : SafetyStore → List ℕ → Bool
all_checked s ids = length ids == length (active_items s)

abbrev pub checked_session : SafetyCheckSession → Bool → ℕ → SafetyCheckSession
checked_session t full now = record t {
  checklist_completed = full;
  checklist_completed_at = if full then some now else none;
}

-- The results of the session are replaced, and the session is saved.
unfoldable pub save_checklist : SafetyStore → SafetyCheckSession → ℕ → List ℕ → SafetyStore
unfolding save
save_checklist s t now ids = record s {
  results =
      select (λ r. not (r.session == t.id)) s.results ++ map (result_of t ids) (active_items s);
  sessions = save (checked_session t (all_checked s ids) now) s.sessions;
}

abbrev pub new_session : ℕ → ℕ → ℕ → ℕ → SafetyCheckSession
new_session id worker facility date = record {
  id = id;
  worker = worker;
  facility = facility;
  check_date = date;
  checklist_completed = false;
  checklist_completed_at = none;
  vr_completed = false;
  vr_completed_at = none;
}

abbrev pub with_session : SafetyStore → SafetyCheckSession → SafetyStore
with_session s t = record s { sessions = s.sessions ++ (t ∷ []); next_id = suc s.next_id }

-- SafetyCheckSession.objects.create, then the rest; the facility is not null.
unfoldable pub submit_new : SafetyStore → ℕ → ℕ → ℕ → List ℕ → Option ℕ → Answer × SafetyStore
unfolding save_checklist
submit_new s worker today now ids none = (raised, s)
submit_new s worker today now ids (some facility) =
    let t = new_session s.next_id worker facility today in
    (next_vr, save_checklist (with_session s t) t now ids)

-- The submission with numbers, from the session of the day on.
unfoldable pub submit_ids :
    SafetyStore → ℕ → ℕ → ℕ → List ℕ → Option SafetyCheckSession → Answer × SafetyStore
unfolding submit_new save_checklist
submit_ids s worker today now ids none = submit_new s worker today now ids s.facility
submit_ids s worker today now ids (some t) = (next_vr, save_checklist s t now ids)

unfoldable pub submit_posted :
    SafetyStore → ℕ → ℕ → ℕ → Option (List ℕ) → Option SafetyCheckSession → Answer × SafetyStore
unfolding submit_ids distinct
submit_posted s worker today now none session = (raised, s)
submit_posted s worker today now (some ids) session =
    submit_ids s worker today now (distinct ids) session

abbrev pub is_completed : Option SafetyCheckSession → Bool
is_completed none = false
is_completed (some t) = t.checklist_completed

unfoldable pub submit : SafetyStore → ℕ → ℕ → ℕ → Option (List ℕ) → Answer × SafetyStore
unfolding session_of submit_posted
submit s worker today now ids =
    let session = session_of worker today s.sessions in
    if is_completed session then (already, s) else submit_posted s worker today now ids session

-- mysafety_detail, of a POST
unfoldable pub mysafety_detail : SafetyStore → Option ℕ → ℕ → ℕ → Action → Answer × SafetyStore
unfolding submit
mysafety_detail s none today now action = (no_worker, s)
mysafety_detail s (some worker) today now (submit_checklist ids) = submit s worker today now ids
mysafety_detail s (some worker) today now action = (bad_request, s)

abbrev pub vr_session : SafetyCheckSession → ℕ → SafetyCheckSession
vr_session t now = record t { vr_completed = true; vr_completed_at = some now }

unfoldable pub vr_page : SafetyStore → SafetyCheckSession → ℕ → Action → Answer × SafetyStore
unfolding save
vr_page s t now vr_complete = (vr_saved, record s { sessions = save (vr_session t now) s.sessions })
vr_page s t now action = (page, s)

unfoldable pub vr_of : SafetyStore → Option SafetyCheckSession → ℕ → Action → Answer × SafetyStore
unfolding vr_page
vr_of s none now action = (back, s)
vr_of s (some t) now action =
    if not t.checklist_completed then (back, s) else vr_page s t now action

-- mysafety_vr, of a POST
unfoldable pub mysafety_vr : SafetyStore → Option ℕ → ℕ → ℕ → Action → Answer × SafetyStore
unfolding session_of vr_of
mysafety_vr s none today now action = (back, s)
mysafety_vr s (some worker) today now action =
    vr_of s (session_of worker today s.sessions) now action
