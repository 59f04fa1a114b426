-- ===== src/Safety/Checklist/Final.antt =====
-- safety/views.py: what a submission of the checklist leaves.
use icmp.Base.{
  ℕ, ◌≡◌, ◌∙◌, refl, sym, subst, ◌||◌, any, length, ==_iff, select-append, ap, Bool, true, false,
  not, Option, none, some, List, [], ◌∷◌, ◌++◌, map, select, ◌==◌, Bool-cases, inl, inr, arith,
  if◌then◌else◌,
}
use mathlib.Core.Path.{ap₂}
use icmp.Safety.{
  SafetyCheckItem, SafetyCheckSession, SafetyCheckItemResult, SafetyStore, session_of, save, is_of,
}
use icmp.Safety.Checklist.{
  Answer, already, next_vr, new_session, with_session, checked_session, all_checked, active_items,
  result_of, save_checklist, submit_new, submit_ids, submit_posted, submit, is_completed, distinct,
  has_id,
}

id_of : Option SafetyCheckSession → ℕ
id_of none = 0
id_of (some t) = t.id

session_of-save :
    (w d : ℕ) (ts : List SafetyCheckSession) (t u : SafetyCheckSession)
    → session_of w d ts ≡ some t
    → u.id ≡ t.id
    → is_of w d u ≡ true
    → session_of w d (save u ts) ≡ some u
unfolding session_of save
session_of-save w d [] t u e i h = absurd (ground arith)
session_of-save w d (s ∷ ts) t u e i h = elim (Bool-cases (s.id == t.id)) [
  | inl own ↦ let same : (s.id == u.id) ≡ true = rw i own in rw same (rw h refl)
  | inr other ↦
      let same : (s.id == u.id) ≡ false = rw i other in
      elim (Bool-cases (is_of w d s)) [
        | inl k ↦ absurd (ground (arith, ap (λ o. id_of o) e))
        | inr k ↦ rw same (rw k (session_of-save w d ts t u (ground arith) i h))
      ]
]

-- The results that a session has, in the order of the table.
abbrev pub results_of : ℕ → SafetyStore → List SafetyCheckItemResult
results_of id s = select (λ r. r.session == id) s.results

session_of-append :
    (w d : ℕ) (ts : List SafetyCheckSession) (t : SafetyCheckSession)
    → session_of w d ts ≡ none
    → is_of w d t ≡ true
    → session_of w d (ts ++ (t ∷ [])) ≡ some t
unfolding session_of
session_of-append w d [] t e h = rw h refl
session_of-append w d (s ∷ ts) t e h = elim (Bool-cases (is_of w d s)) [
  | inl own ↦ absurd (ground arith)
  | inr other ↦ rw other (session_of-append w d ts t (ground arith) h)
]

session_of-is_of :
    (w d : ℕ) (ts : List SafetyCheckSession) (t : SafetyCheckSession)
    → session_of w d ts ≡ some t
    → is_of w d t ≡ true
unfolding session_of
session_of-is_of w d [] t e = absurd (ground arith)
session_of-is_of w d (s ∷ ts) t e = elim (Bool-cases (is_of w d s)) [
  | inl own ↦ let same : s ≡ t = ground arith in subst (λ u. is_of w d u ≡ true) same own
  | inr other ↦ session_of-is_of w d ts t (ground arith)
]

none_left :
    (id : ℕ) (rs : List SafetyCheckItemResult)
    → select (λ r. r.session == id) (select (λ r. not (r.session == id)) rs) ≡ []
none_left id [] = refl
none_left id (r ∷ rs) = ground (arith, none_left id rs)

own_kept :
    (t : SafetyCheckSession) (ids : List ℕ) (is : List SafetyCheckItem)
    → select (λ r. r.session == t.id) (map (result_of t ids) is) ≡ map (result_of t ids) is
own_kept t ids [] = refl
own_kept t ids (i ∷ is) = ground (arith, own_kept t ids is)

-- What an accepted submission leaves of the day of the worker.
record Recorded (w d now : ℕ) (full : Bool) (ids : List ℕ) (items : List SafetyCheckItem)
    (s : SafetyStore) : Type 0 where
  pub session : SafetyCheckSession
  pub stored : session_of w d s.sessions ≡ some session
  pub completed : session.checklist_completed ≡ full
  pub completed_at :
      session.checklist_completed_at ≡ (if session.checklist_completed then some now else none)
  pub results : results_of session.id s ≡ map (result_of session ids) items

save_checklist-Recorded :
    (s : SafetyStore) (t : SafetyCheckSession) (w d now : ℕ) (ids : List ℕ)
    → session_of w d s.sessions ≡ some t
    → Recorded w d now (all_checked s ids) ids (active_items s) (save_checklist s t now ids)
unfolding save_checklist
save_checklist-Recorded s t w d now ids e = record {
  session = checked_session t (all_checked s ids) now;
  stored =
      session_of-save w d s.sessions t (checked_session t (all_checked s ids) now) e refl
        (session_of-is_of w d s.sessions t e);
  completed = refl;
  completed_at = refl;
  results =
      select-append (λ r. r.session == t.id) (select (λ r. not (r.session == t.id)) s.results) _
      ∙ ap (λ rs. rs ++ select (λ r. r.session == t.id) (map (result_of t ids) (active_items s)))
          (none_left t.id s.results)
      ∙ own_kept t ids (active_items s);
}

taken :
    (c : Bool) (x y : Answer × SafetyStore) (P : Answer × SafetyStore → Type 0)
    → (y.0 ≡ next_vr → P y)
    → (if c then (already, x.1) else y).0 ≡ next_vr
    → P (if c then (already, x.1) else y)
taken true x y P h e = absurd (ground arith)
taken false x y P h e = h e

submit_new-Recorded :
    (s : SafetyStore) (w d now : ℕ) (ids : List ℕ) (f : Option ℕ)
    → session_of w d s.sessions ≡ none
    → (submit_new s w d now ids f).0 ≡ next_vr
    → Recorded w d now (all_checked s ids) ids (active_items s) (submit_new s w d now ids f).1
unfolding submit_new
submit_new-Recorded s w d now ids none e a = absurd (ground arith)
submit_new-Recorded s w d now ids (some f) e a =
    let t = new_session s.next_id w f d in
    save_checklist-Recorded (with_session s t) t w d now ids
      (session_of-append w d s.sessions t e (ground arith))

submit_posted-Recorded :
    (s : SafetyStore) (w d now : ℕ) (ids : List ℕ) (o : Option SafetyCheckSession)
    → session_of w d s.sessions ≡ o
    → (submit_posted s w d now (some ids) o).0 ≡ next_vr
    → Recorded w d now
        (all_checked s (distinct ids))
        (distinct ids)
        (active_items s)
        (submit_posted s w d now (some ids) o).1
unfolding submit_posted submit_ids
submit_posted-Recorded s w d now ids none e a =
    submit_new-Recorded s w d now (distinct ids) s.facility e a
submit_posted-Recorded s w d now ids (some t) e a =
    save_checklist-Recorded s t w d now (distinct ids) e

submit-Leaves :
    (s : SafetyStore) (w d now : ℕ) (ids : List ℕ)
    → (submit s w d now (some ids)).0 ≡ next_vr
    → Recorded w d now
        (all_checked s (distinct ids))
        (distinct ids)
        (active_items s)
        (submit s w d now (some ids)).1
unfolding submit
submit-Leaves s w d now ids =
    let o = session_of w d s.sessions in
    taken (is_completed o) (already, s) (submit_posted s w d now (some ids) o)
      (λ p. Recorded w d now (all_checked s (distinct ids)) (distinct ids) (active_items s) p.1)
      (submit_posted-Recorded s w d now ids o refl)

-- No id is there twice.
abbrev pub DistinctIds : List ℕ → Type 0
DistinctIds [] = Unit
DistinctIds (i ∷ ids) = (any (λ n. n == i) ids ≡ false) × DistinctIds ids

absorb : (n i : ℕ) (ids : List ℕ) → has_id i ids ≡ true → has_id n ids ≡ ((i == n) || has_id n ids)
absorb n i ids h = elim (Bool-cases (i == n)) [
  | inl e ↦ let same : i ≡ n = (==_iff i n).0 e in rw e (subst (λ m. has_id m ids ≡ true) same h)
  | inr e ↦ rw e refl
]

has_id-distinct : (n : ℕ) (ids : List ℕ) → has_id n (distinct ids) ≡ has_id n ids
unfolding distinct
has_id-distinct n [] = refl
has_id-distinct n (i ∷ ids) = elim (Bool-cases (has_id i (distinct ids))) [
  | inl e ↦
      let listed : has_id i ids ≡ true = sym (has_id-distinct i ids) ∙ e in
      rw e (rw (has_id-distinct n ids) (absorb n i ids listed))
  | inr e ↦ rw e (ap (λ b. (i == n) || b) (has_id-distinct n ids))
]

distinct-DistinctIds : (ids : List ℕ) → DistinctIds (distinct ids)
unfolding distinct
distinct-DistinctIds [] = tt
distinct-DistinctIds (i ∷ ids) = elim (Bool-cases (has_id i (distinct ids))) [
  | inl e ↦ rw e (distinct-DistinctIds ids)
  | inr e ↦ rw e ((e, distinct-DistinctIds ids))
]

-- The results that a form with these ids gives: one for each item that is in use, checked exactly if
-- its id came.
abbrev pub results_for : ℕ → List ℕ → List SafetyCheckItem → List SafetyCheckItemResult
results_for session ids items =
    map (λ i. record { session = session; item = i.id; is_checked = any (λ n. n == i.id) ids })
      (select (λ i. i.is_active) items)

-- What an accepted submission with these ids leaves of the day of the worker: `unique` is the set of
-- the ids.
pub record Submitted (s : SafetyStore) (w d now : ℕ) (ids : List ℕ) (t : SafetyStore) : Type 0 where
  pub session : SafetyCheckSession
  pub stored : session_of w d t.sessions ≡ some session
  pub unique : List ℕ
  pub unique_distinct : DistinctIds unique
  pub unique_same : (n : ℕ) → any (λ i. i == n) unique ≡ any (λ i. i == n) ids
  pub completed :
      session.checklist_completed ≡ (length unique == length (select (λ i. i.is_active) s.items))
  pub completed_at :
      session.checklist_completed_at ≡ (if session.checklist_completed then some now else none)
  pub results : results_of session.id t ≡ results_for session.id ids s.items

results_of-distinct :
    (t : SafetyCheckSession) (ids : List ℕ) (is : List SafetyCheckItem)
    → map (result_of t (distinct ids)) (select (λ i. i.is_active) is) ≡ results_for t.id ids is
results_of-distinct t ids [] = refl
results_of-distinct t ids (i ∷ is) = elim (Bool-cases i.is_active) [
  | inl e ↦ rw e (
      ap₂ (λ b rest. record { session = t.id; item = i.id; is_checked = b } ∷ rest)
        (has_id-distinct i.id ids) (results_of-distinct t ids is))
  | inr e ↦ rw e (results_of-distinct t ids is)
]

-- A submission that is accepted leaves the session of the worker and the day. It is completed, with its
-- time, exactly if as many different ids came as there are active items, and its results are one row
-- for each active item in order, checked exactly if the item's id came.
pub submit-Recorded :
    (s : SafetyStore) (w d now : ℕ) (ids : List ℕ)
    → (submit s w d now (some ids)).0 ≡ next_vr
    → Submitted s w d now ids (submit s w d now (some ids)).1
submit-Recorded s w d now ids e =
    let r = submit-Leaves s w d now ids e in
    record {
      session = r.session;
      stored = r.stored;
      unique = distinct ids;
      unique_distinct = distinct-DistinctIds ids;
      unique_same = λ n. has_id-distinct n ids;
      completed = r.completed;
      completed_at = r.completed_at;
      results = r.results ∙ results_of-distinct r.session ids s.items;
    }
