-- ===== src/Safety/Checklist/Invariant.antt =====
-- safety/views.py: what every session keeps over any requests.
use icmp.Base.{
  ℕ, ◌≡◌, refl, subst, Bool, true, false, not, ◌&&◌, ◌==◌, Option, none, some, List, [], ◌∷◌, ◌++◌,
  All, Bool-cases, inl, inr, arith, if◌then◌else◌,
}
use icmp.Safety.{SafetyCheckSession, SafetyStore, session_of, save, is_of}
use icmp.Safety.Checklist.{
  Answer, Action, submit_checklist, vr_complete, new_session, with_session, checked_session,
  vr_session, all_checked, save_checklist, submit_new, submit_ids, submit_posted, submit,
  is_completed, mysafety_detail, mysafety_vr, vr_page, vr_of, distinct,
}

-- A request: to one of the two pages, by a worker or by no worker, on a day, at an instant.
pub record Request : Type 0 where
  pub to_vr : Bool
  pub worker : Option ℕ
  pub today : ℕ
  pub now : ℕ
  pub action : Action

abbrev pub answer : SafetyStore → Request → Answer × SafetyStore
answer s r =
    if r.to_vr
    then mysafety_vr s r.worker r.today r.now r.action
    else mysafety_detail s r.worker r.today r.now r.action

unfoldable pub answer_all : SafetyStore → List Request → SafetyStore
answer_all s [] = s
answer_all s (r ∷ rs) = answer_all (answer s r).1 rs

abbrev is_some : Option ℕ → Bool
is_some none = false
is_some (some t) = true

-- The VR education follows the checklist, and each mark has its time.
pub record InOrder (t : SafetyCheckSession) : Type 0 where
  pub vr_after : (t.vr_completed && not t.checklist_completed) ≡ false
  pub checklist_timed : is_some t.checklist_completed_at ≡ t.checklist_completed
  pub vr_timed : is_some t.vr_completed_at ≡ t.vr_completed

abbrev pub IsSound : SafetyStore → Type 0
IsSound s = All InOrder s.sessions

new_session-InOrder : (i w f d : ℕ) → InOrder (new_session i w f d)
new_session-InOrder i w f d = record { vr_after = refl; checklist_timed = refl; vr_timed = refl }

checked_session-InOrder :
    (t : SafetyCheckSession) (full : Bool) (now : ℕ)
    → InOrder t
    → t.checklist_completed ≡ false
    → InOrder (checked_session t full now)
checked_session-InOrder t full now h e = record {
  vr_after = let unseen : t.vr_completed ≡ false = ground (arith, h.vr_after) in ground arith;
  checklist_timed = ground arith;
  vr_timed = h.vr_timed;
}

vr_session-InOrder :
    (t : SafetyCheckSession) (now : ℕ)
    → t.checklist_completed ≡ true
    → InOrder t
    → InOrder (vr_session t now)
vr_session-InOrder t now e h = record {
  vr_after = rw e refl;
  checklist_timed = h.checklist_timed;
  vr_timed = refl;
}

save-InOrder :
    (t : SafetyCheckSession) (ts : List SafetyCheckSession)
    → InOrder t
    → All InOrder ts
    → All InOrder (save t ts)
unfolding save
save-InOrder t [] h hs = tt
save-InOrder t (s ∷ ts) h hs = (
  elim (Bool-cases (s.id == t.id)) [ inl e ↦ rw e h | inr e ↦ rw e hs.0 ],
  save-InOrder t ts h hs.1,
)

append-InOrder :
    (t : SafetyCheckSession) (ts : List SafetyCheckSession)
    → InOrder t
    → All InOrder ts
    → All InOrder (ts ++ (t ∷ []))
append-InOrder t [] h hs = (h, tt)
append-InOrder t (s ∷ ts) h hs = (hs.0, append-InOrder t ts h hs.1)

session_of-InOrder :
    (w d : ℕ) (ts : List SafetyCheckSession) {t : SafetyCheckSession}
    → All InOrder ts
    → session_of w d ts ≡ some t
    → InOrder t
unfolding session_of
session_of-InOrder w d [] h e = absurd (ground arith)
session_of-InOrder w d (s ∷ ts) {t} h e = elim (Bool-cases (is_of w d s)) [
  | inl own ↦ let same : s ≡ t = ground arith in subst InOrder same h.0
  | inr other ↦ session_of-InOrder w d ts h.1 (ground arith)
]

save_checklist-IsSound :
    (s : SafetyStore) (t : SafetyCheckSession) (now : ℕ) (ids : List ℕ)
    → IsSound s
    → InOrder t
    → t.checklist_completed ≡ false
    → IsSound (save_checklist s t now ids)
unfolding save_checklist
save_checklist-IsSound s t now ids h i e =
    save-InOrder _ s.sessions (checked_session-InOrder t (all_checked s ids) now i e) h

submit_new-IsSound :
    (s : SafetyStore) (w d now : ℕ) (ids : List ℕ) (f : Option ℕ)
    → IsSound s
    → IsSound (submit_new s w d now ids f).1
unfolding submit_new
submit_new-IsSound s w d now ids none h = h
submit_new-IsSound s w d now ids (some f) h =
    let t = new_session s.next_id w f d in
    let i = new_session-InOrder s.next_id w f d in
    save_checklist-IsSound (with_session s t) t now ids (append-InOrder t s.sessions i h) i refl

submit_posted-IsSound :
    (s : SafetyStore) (w d now : ℕ) (ids : Option (List ℕ)) (o : Option SafetyCheckSession)
    → IsSound s
    → session_of w d s.sessions ≡ o
    → is_completed o ≡ false
    → IsSound (submit_posted s w d now ids o).1
unfolding submit_posted submit_ids
submit_posted-IsSound s w d now none o h e c = h
submit_posted-IsSound s w d now (some ids) none h e c =
    submit_new-IsSound s w d now (distinct ids) s.facility h
submit_posted-IsSound s w d now (some ids) (some t) h e c =
    save_checklist-IsSound s t now (distinct ids) h (session_of-InOrder w d s.sessions h e) c

submit-IsSound :
    (s : SafetyStore) (w d now : ℕ) (ids : Option (List ℕ))
    → IsSound s
    → IsSound (submit s w d now ids).1
unfolding submit
submit-IsSound s w d now ids h = elim (Bool-cases (is_completed (session_of w d s.sessions))) [
  | inl e ↦ rw e h
  | inr e ↦ rw e (submit_posted-IsSound s w d now ids (session_of w d s.sessions) h refl e)
]

vr_page-IsSound :
    (s : SafetyStore) (t : SafetyCheckSession) (now : ℕ) (a : Action)
    → IsSound s
    → InOrder t
    → t.checklist_completed ≡ true
    → IsSound (vr_page s t now a).1
unfolding vr_page
vr_page-IsSound s t now vr_complete h i e =
    save-InOrder _ s.sessions (vr_session-InOrder t now e i) h
vr_page-IsSound s t now _ h i e = h

unless-IsSound :
    (c : Bool) (x y : Answer × SafetyStore)
    → IsSound x.1
    → (c ≡ true → IsSound y.1)
    → IsSound (if not c then x else y).1
unless-IsSound true x y h g = g refl
unless-IsSound false x y h g = h

vr_of-IsSound :
    (s : SafetyStore) (o : Option SafetyCheckSession) (w d now : ℕ) (a : Action)
    → IsSound s
    → session_of w d s.sessions ≡ o
    → IsSound (vr_of s o now a).1
unfolding vr_of
vr_of-IsSound s none w d now a h e = h
vr_of-IsSound s (some t) w d now a h e =
    unless-IsSound t.checklist_completed _ _ h
      (vr_page-IsSound s t now a h (session_of-InOrder w d s.sessions h e))

choose-IsSound :
    (b : Bool) (x y : Answer × SafetyStore)
    → IsSound x.1
    → IsSound y.1
    → IsSound (if b then x else y).1
choose-IsSound true x y h g = h
choose-IsSound false x y h g = g

mysafety_detail-IsSound :
    (s : SafetyStore) (w : Option ℕ) (d now : ℕ) (a : Action)
    → IsSound s
    → IsSound (mysafety_detail s w d now a).1
unfolding mysafety_detail
mysafety_detail-IsSound s none d now a h = h
mysafety_detail-IsSound s (some w) d now (submit_checklist ids) h = submit-IsSound s w d now ids h
mysafety_detail-IsSound s (some w) d now _ h = h

mysafety_vr-IsSound :
    (s : SafetyStore) (w : Option ℕ) (d now : ℕ) (a : Action)
    → IsSound s
    → IsSound (mysafety_vr s w d now a).1
unfolding mysafety_vr
mysafety_vr-IsSound s none d now a h = h
mysafety_vr-IsSound s (some w) d now a h =
    vr_of-IsSound s (session_of w d s.sessions) w d now a h refl

answer-IsSound : (s : SafetyStore) (r : Request) → IsSound s → IsSound (answer s r).1
answer-IsSound s r h =
    choose-IsSound r.to_vr _ _ (mysafety_vr-IsSound s r.worker r.today r.now r.action h)
      (mysafety_detail-IsSound s r.worker r.today r.now r.action h)

-- After any requests of workers and of others, in any order, each session that was sound before has its
-- VR education completed only with its checklist, and each mark set exactly with its time.
pub answer_all-IsSound :
    (s : SafetyStore) (rs : List Request) → IsSound s → IsSound (answer_all s rs)
unfolding answer_all
answer_all-IsSound s [] h = h
answer_all-IsSound s (r ∷ rs) h = answer_all-IsSound (answer s r).1 rs (answer-IsSound s r h)
