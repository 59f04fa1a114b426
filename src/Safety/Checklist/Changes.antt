-- ===== src/Safety/Checklist/Changes.antt =====
-- safety/views.py: what a request may do to the tables, as a relation of the tables before and after.
use mathlib.Core.List.{Memᴰ}
use icmp.Base.{
  ℕ, ◌≡◌, refl, sym, Bool, true, false, not, Option, none, some, List, [], ◌∷◌, Bool-cases, inl,
  inr, arith, if◌then◌else◌,
}
use icmp.Safety.{SafetyCheckSession, SafetyStore, session_of, save, is_of}
use icmp.Safety.Checklist.{
  Answer, already, Action, submit_checklist, vr_complete, new_session, with_session, vr_session,
  save_checklist, submit_new, submit_ids, submit_posted, submit, is_completed, mysafety_detail,
  mysafety_vr, vr_page, vr_of, distinct,
}
use icmp.Safety.Checklist.Invariant.{Request, answer}

-- What a request may do to the tables.
pub data Change (s : SafetyStore) : SafetyStore → Type 0 where
  same : Change s s
  checks :
      (t : SafetyCheckSession) (now : ℕ) (ids : List ℕ)
      → Memᴰ t s.sessions
      → t.checklist_completed ≡ false
      → Change s (save_checklist s t now ids)
  creates :
      (w f d now : ℕ) (ids : List ℕ)
      → Change s (
          save_checklist
            (with_session s (new_session s.next_id w f d))
            (new_session s.next_id w f d)
            now
            ids)
  trains :
      (t : SafetyCheckSession) (now : ℕ)
      → Memᴰ t s.sessions
      → Change s (record s { sessions = save (vr_session t now) s.sessions })

session_of-Mem :
    (w d : ℕ) (ts : List SafetyCheckSession) (t : SafetyCheckSession)
    → session_of w d ts ≡ some t
    → Memᴰ t ts
unfolding session_of
session_of-Mem w d [] t e = absurd (ground arith)
session_of-Mem w d (s ∷ ts) t e = elim (Bool-cases (is_of w d s)) [
  | inl own ↦ let it : s ≡ t = ground arith in Memᴰ.head (sym it)
  | inr other ↦ Memᴰ.tail (session_of-Mem w d ts t (ground arith))
]

choose :
    (s : SafetyStore) (b : Bool) (x y : Answer × SafetyStore)
    → (b ≡ true → Change s x.1)
    → (b ≡ false → Change s y.1)
    → Change s (if b then x else y).1
choose s true x y h g = h refl
choose s false x y h g = g refl

submit_new-Change :
    (s : SafetyStore) (w d now : ℕ) (ids : List ℕ) (f : Option ℕ)
    → Change s (submit_new s w d now ids f).1
unfolding submit_new
submit_new-Change s w d now ids none = same
submit_new-Change s w d now ids (some f) = creates w f d now ids

submit_posted-Change :
    (s : SafetyStore) (w d now : ℕ) (ids : Option (List ℕ)) (o : Option SafetyCheckSession)
    → session_of w d s.sessions ≡ o
    → is_completed o ≡ false
    → Change s (submit_posted s w d now ids o).1
unfolding submit_posted submit_ids
submit_posted-Change s w d now none o e c = same
submit_posted-Change s w d now (some ids) none e c =
    submit_new-Change s w d now (distinct ids) s.facility
submit_posted-Change s w d now (some ids) (some t) e c =
    checks t now (distinct ids) (session_of-Mem w d s.sessions t e) c

submit-Change :
    (s : SafetyStore) (w d now : ℕ) (ids : Option (List ℕ)) → Change s (submit s w d now ids).1
unfolding submit
submit-Change s w d now ids =
    choose s (is_completed (session_of w d s.sessions)) (already, s)
      (submit_posted s w d now ids (session_of w d s.sessions)) (λ e. same)
      (λ e. submit_posted-Change s w d now ids (session_of w d s.sessions) refl e)

vr_page-Change :
    (s : SafetyStore) (t : SafetyCheckSession) (now : ℕ) (a : Action)
    → Memᴰ t s.sessions
    → Change s (vr_page s t now a).1
unfolding vr_page
vr_page-Change s t now vr_complete m = trains t now m
vr_page-Change s t now _ m = same

vr_of-Change :
    (s : SafetyStore) (o : Option SafetyCheckSession) (w d now : ℕ) (a : Action)
    → session_of w d s.sessions ≡ o
    → Change s (vr_of s o now a).1
unfolding vr_of
vr_of-Change s none w d now a e = same
vr_of-Change s (some t) w d now a e =
    choose s (not t.checklist_completed) _ _ (λ h. same)
      (λ h. vr_page-Change s t now a (session_of-Mem w d s.sessions t e))

detail-Change :
    (s : SafetyStore) (w : Option ℕ) (d now : ℕ) (a : Action)
    → Change s (mysafety_detail s w d now a).1
unfolding mysafety_detail
detail-Change s none d now a = same
detail-Change s (some w) d now (submit_checklist ids) = submit-Change s w d now ids
detail-Change s (some w) d now _ = same

vr-Change :
    (s : SafetyStore) (w : Option ℕ) (d now : ℕ) (a : Action) → Change s (mysafety_vr s w d now a).1
unfolding mysafety_vr
vr-Change s none d now a = same
vr-Change s (some w) d now a = vr_of-Change s (session_of w d s.sessions) w d now a refl

pub answer-Change : (s : SafetyStore) (r : Request) → Change s (answer s r).1
answer-Change s r =
    choose s r.to_vr _ _ (λ e. vr-Change s r.worker r.today r.now r.action)
      (λ e. detail-Change s r.worker r.today r.now r.action)
