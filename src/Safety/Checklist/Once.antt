-- ===== src/Safety/Checklist/Once.antt =====
-- safety/views.py: the requests after a full submission of the checklist.
use mathlib.Core.List.{Memᴰ}
use mathlib.Core.Path.{ap₂}
use icmp.Base.{
  ℕ, suc, ◌+◌, ◌<◌, ◌≡◌, ◌≢◌, ◌∙◌, refl, sym, subst, ap, Bool, true, false, ◌==◌, ==_iff, Option,
  some, List, [], ◌∷◌, ◌++◌, map, All, Bool-cases, inl, inr, arith, if◌then◌else◌,
}
use icmp.Alerts.Steps.Soundness.{Distinct, below-append, Distinct-append}
use icmp.Safety.{SafetyCheckSession, SafetyStore, session_of, save, is_of}
use icmp.Safety.Checklist.{
  already, new_session, with_session, checked_session, vr_session, all_checked, save_checklist,
  submit_posted, submit, is_completed,
}
use icmp.Safety.Checklist.Invariant.{Request, answer, answer_all}
use icmp.Safety.Checklist.Changes.{Change, same, checks, creates, trains, answer-Change}

abbrev pub ids_of : List SafetyCheckSession → List ℕ
ids_of ts = map (λ (t : SafetyCheckSession). t.id) ts

-- The ids of the sessions are those of a table.
pub record IsTable (s : SafetyStore) : Type 0 where
  pub below : All (λ i. i < s.next_id) (ids_of s.sessions)
  pub unlike : Distinct (ids_of s.sessions)

-- The worker's checklist of the day is completed.
abbrev pub is_done : ℕ → ℕ → List SafetyCheckSession → Bool
unfolding session_of
is_done w d ts = is_completed (session_of w d ts)

save-absent :
    (u : SafetyCheckSession) (ts : List SafetyCheckSession)
    → All (λ i. u.id ≢ i) (ids_of ts)
    → save u ts ≡ ts
unfolding save
save-absent u [] h = refl
save-absent u (s ∷ ts) h = elim (Bool-cases (s.id == u.id)) [
  | inl e ↦ absurd (h.0 (sym ((==_iff s.id u.id).0 e)))
  | inr e ↦ rw e (ap (λ l. s ∷ l) (save-absent u ts h.1))
]

id-listed :
    (t : SafetyCheckSession) (ts : List SafetyCheckSession) (i : ℕ)
    → All (λ j. i ≢ j) (ids_of ts)
    → Memᴰ t ts
    → i ≢ t.id
id-listed t [] i h m = elim m [ ]
id-listed t (s ∷ ts) i h (Memᴰ.head e) = λ eq. h.0 (eq ∙ ap (λ (y : SafetyCheckSession). y.id) e)
id-listed t (s ∷ ts) i h (Memᴰ.tail m) = id-listed t ts i h.1 m

is_done-head :
    (w d : ℕ) (t u : SafetyCheckSession) (ts : List SafetyCheckSession)
    → is_of w d u ≡ is_of w d t
    → (t.checklist_completed ≡ true → u.checklist_completed ≡ true)
    → is_done w d (t ∷ ts) ≡ true
    → is_done w d (u ∷ ts) ≡ true
unfolding session_of
is_done-head w d t u ts e c h = elim (Bool-cases (is_of w d t)) [
  | inl own ↦
      let own' : is_of w d u ≡ true = e ∙ own in
      let done : t.checklist_completed ≡ true =
        subst (λ b. is_completed (if b then some t else session_of w d ts) ≡ true) own h in
      rw own' (c done)
  | inr other ↦
      let other' : is_of w d u ≡ false = e ∙ other in
      let rest =
        subst (λ b. is_completed (if b then some t else session_of w d ts) ≡ true) other h in
      rw other' rest
]

is_done-tail :
    (w d : ℕ) (s : SafetyCheckSession) (ts us : List SafetyCheckSession)
    → (is_done w d ts ≡ true → is_done w d us ≡ true)
    → is_done w d (s ∷ ts) ≡ true
    → is_done w d (s ∷ us) ≡ true
unfolding session_of
is_done-tail w d s ts us g h = elim (Bool-cases (is_of w d s)) [
  | inl own ↦
      rw own (subst (λ b. is_completed (if b then some s else session_of w d ts) ≡ true) own h)
  | inr other ↦
      rw other
        (g (subst (λ b. is_completed (if b then some s else session_of w d ts) ≡ true) other h))
]

-- A row that is saved with its worker and day, and no less completed, undoes nothing.
is_done-save :
    (w d : ℕ) (t u : SafetyCheckSession) (ts : List SafetyCheckSession)
    → Distinct (ids_of ts)
    → Memᴰ t ts
    → u.id ≡ t.id
    → is_of w d u ≡ is_of w d t
    → (t.checklist_completed ≡ true → u.checklist_completed ≡ true)
    → is_done w d ts ≡ true
    → is_done w d (save u ts) ≡ true
unfolding save
is_done-save w d t u [] k m i e c h = elim m [ ]
is_done-save w d t u (s ∷ ts) k (Memᴰ.head here) i e c h =
    let own : (s.id == u.id) ≡ true =
      (==_iff s.id u.id).1 (sym (i ∙ ap (λ (y : SafetyCheckSession). y.id) here)) in
    let absent : save u ts ≡ ts =
      save-absent u ts (subst (λ n. All (λ j. n ≢ j) (ids_of ts)) ((==_iff s.id u.id).0 own) k.0) in
    rw (own, absent)
      (is_done-head w d t u ts e c (subst (λ x. is_done w d (x ∷ ts) ≡ true) (sym here) h))
is_done-save w d t u (s ∷ ts) k (Memᴰ.tail m) i e c h = elim (Bool-cases (s.id == u.id)) [
  | inl own ↦ absurd (id-listed t ts s.id k.0 m ((==_iff s.id u.id).0 own ∙ i))
  | inr other ↦ rw other (is_done-tail w d s ts (save u ts) (is_done-save w d t u ts k.1 m i e c) h)
]

is_done-append :
    (w d : ℕ) (ts : List SafetyCheckSession) (t : SafetyCheckSession)
    → is_done w d ts ≡ true
    → is_done w d (ts ++ (t ∷ [])) ≡ true
unfolding session_of
is_done-append w d [] t h = absurd (ground arith)
is_done-append w d (s ∷ ts) t h = is_done-tail w d s ts (ts ++ (t ∷ [])) (is_done-append w d ts t) h

ids_of-save :
    (u : SafetyCheckSession) (ts : List SafetyCheckSession) → ids_of (save u ts) ≡ ids_of ts
unfolding save
ids_of-save u [] = refl
ids_of-save u (s ∷ ts) = elim (Bool-cases (s.id == u.id)) [
  | inl own ↦ rw own (ap₂ (λ i l. i ∷ l) (sym ((==_iff s.id u.id).0 own)) (ids_of-save u ts))
  | inr other ↦ rw other (ap (λ l. s.id ∷ l) (ids_of-save u ts))
]

ids_of-append :
    (ts : List SafetyCheckSession) (t : SafetyCheckSession)
    → ids_of (ts ++ (t ∷ [])) ≡ ids_of ts ++ (t.id ∷ [])
ids_of-append [] t = refl
ids_of-append (s ∷ ts) t = ap (λ l. s.id ∷ l) (ids_of-append ts t)

listed_last : (ts : List SafetyCheckSession) (t : SafetyCheckSession) → Memᴰ t (ts ++ (t ∷ []))
listed_last [] t = Memᴰ.head refl
listed_last (s ∷ ts) t = Memᴰ.tail (listed_last ts t)

save-IsTable :
    (s t : SafetyStore) (u : SafetyCheckSession)
    → t.sessions ≡ save u s.sessions
    → t.next_id ≡ s.next_id
    → IsTable s
    → IsTable t
save-IsTable s t u e n h =
    let same_ids : ids_of s.sessions ≡ ids_of t.sessions =
      sym (ap ids_of e ∙ ids_of-save u s.sessions) in
    record {
      below =
          subst (λ m. All (λ i. i < m) (ids_of t.sessions)) (sym n)
            (subst (All (λ i. i < s.next_id)) same_ids h.below);
      unlike = subst Distinct same_ids h.unlike;
    }

with_session-IsTable :
    (s : SafetyStore) (w f d : ℕ)
    → IsTable s
    → IsTable (with_session s (new_session s.next_id w f d))
with_session-IsTable s w f d h =
    let t = new_session s.next_id w f d in
    let grown : ids_of s.sessions ++ (s.next_id ∷ []) ≡ ids_of (s.sessions ++ (t ∷ [])) =
      sym (ids_of-append s.sessions t) in
    let next : s.next_id + 1 ≡ suc s.next_id = omega arith in
    record {
      below =
          subst (λ m. All (λ i. i < m) (ids_of (s.sessions ++ (t ∷ [])))) next
            (subst (All (λ i. i < s.next_id + 1)) grown
              (below-append s.next_id (ids_of s.sessions) h.below));
      unlike =
          subst Distinct grown (Distinct-append s.next_id (ids_of s.sessions) h.below h.unlike);
    }

-- A table in which a worker's checklist of a day is completed.
record IsDone (w d : ℕ) (s : SafetyStore) : Type 0 where
  table : IsTable s
  done : is_done w d s.sessions ≡ true

Change-IsDone : {s t : SafetyStore} (w d : ℕ) → IsDone w d s → Change s t → IsDone w d t
unfolding save_checklist
Change-IsDone w d h same = h
Change-IsDone {s = s} w d h (checks t now ids m c) =
    let u = checked_session t (all_checked s ids) now in
    record {
      table = save-IsTable s _ u refl refl h.table;
      done =
          is_done-save w d t u s.sessions h.table.unlike m refl refl
            (λ k. absurd (ground (arith, k, c))) h.done;
    }
Change-IsDone {s = s} w d h (creates w' f d' now ids) =
    let t = new_session s.next_id w' f d' in
    let v = with_session s t in
    let u = checked_session t (all_checked v ids) now in
    let k = with_session-IsTable s w' f d' h.table in
    record {
      table = save-IsTable v _ u refl refl k;
      done =
          is_done-save w d t u v.sessions k.unlike (listed_last s.sessions t) refl refl
            (λ e. absurd (ground (arith, e))) (is_done-append w d s.sessions t h.done);
    }
Change-IsDone {s = s} w d h (trains t now m) = record {
  table = save-IsTable s _ (vr_session t now) refl refl h.table;
  done =
      is_done-save w d t (vr_session t now) s.sessions h.table.unlike m refl refl (λ k. k) h.done;
}

answer_all-IsDone :
    (w d : ℕ) (s : SafetyStore) (rs : List Request) → IsDone w d s → IsDone w d (answer_all s rs)
unfolding answer_all
answer_all-IsDone w d s [] h = h
answer_all-IsDone w d s (r ∷ rs) h =
    answer_all-IsDone w d (answer s r).1 rs (Change-IsDone w d h (answer-Change s r))

-- Once a worker's checklist of a day is completed, in a table whose ids differ and lie below the next
-- one: after any requests, of this worker and of others, to both pages, another submission by the
-- worker on that day is refused and changes nothing.
pub submit-answer_all :
    (s : SafetyStore) (w d later : ℕ) (t : SafetyCheckSession) (rs : List Request)
    (ids : Option (List ℕ))
    → IsTable s
    → session_of w d s.sessions ≡ some t
    → t.checklist_completed ≡ true
    → submit (answer_all s rs) w d later ids ≡ (already, answer_all s rs)
unfolding submit
submit-answer_all s w d later t rs ids table found completed =
    let start : IsDone w d s = record { table = table; done = ap is_completed found ∙ completed } in
    let v = answer_all s rs in
    ap (λ b. if b then (already, v) else submit_posted v w d later ids (session_of w d v.sessions))
      (answer_all-IsDone w d s rs start).done
