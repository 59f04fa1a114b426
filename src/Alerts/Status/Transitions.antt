-- ===== src/Alerts/Status/Transitions.antt =====
-- alerts/services.py: what the manual change of a status accepts, and what it keeps.
use icmp.Base.{
  ℕ, String, ◌≡◌, refl, sym, ap, Bool, true, false, not, Option, none, some, List, [], ◌∷◌, ◌↔◌,
  inl, inr, string_eq, ◌=?◌, if◌then◌else◌, arith, Bool-cases, any,
}
use icmp.Alerts.Types.{EventStatus, opened, acknowledged, closed, AlarmEvent, Store}
use icmp.Alerts.Status.{
  status_text, allowed_transitions, find_status, same_status, StatusResult, ok, not_allowed,
  change_to, change_event_status,
}

abbrev pub is_ok : {F : Type 0} → StatusResult F → Bool
is_ok (ok s e) = true
is_ok (not_allowed old new) = false

abbrev is_found : Option EventStatus → Bool
is_found none = false
is_found (some t) = true

-- Another status than the present one, of that text.
abbrev pub Target : EventStatus → String → Type 0
Target present w = (t : EventStatus) × (w ≡ status_text t) × (same_status present t ≡ false)

same_status_refl : (t : EventStatus) → same_status t t ≡ true
same_status_refl opened = refl
same_status_refl acknowledged = refl
same_status_refl closed = refl

same_status-eq : (a b : EventStatus) → same_status a b ≡ true → a ≡ b
same_status-eq opened opened h = refl
same_status-eq acknowledged acknowledged h = refl
same_status-eq closed closed h = refl
same_status-eq _ _ h = ground arith

any-allowed_transitions :
    (present t : EventStatus)
    → any (same_status t) (allowed_transitions present) ≡ not (same_status present t)
unfolding allowed_transitions
any-allowed_transitions opened opened = refl
any-allowed_transitions opened acknowledged = refl
any-allowed_transitions opened closed = refl
any-allowed_transitions acknowledged opened = refl
any-allowed_transitions acknowledged acknowledged = refl
any-allowed_transitions acknowledged closed = refl
any-allowed_transitions closed opened = refl
any-allowed_transitions closed acknowledged = refl
any-allowed_transitions closed closed = refl

find_status_sound :
    (w : String) (ss : List EventStatus)
    → is_found (find_status w ss) ≡ true
    → (t : EventStatus) × (w ≡ status_text t) × (any (same_status t) ss ≡ true)
unfolding find_status
find_status_sound w [] found = ground arith
find_status_sound w (s ∷ ss) found = elim (Bool-cases (status_text s =? w)) [
  | inl hit ↦
      (s, sym ((string_eq.beq_iff (status_text s) w).0 hit), ground (arith, same_status_refl s))
  | inr miss ↦
      let (t, text, there) = find_status_sound w ss (ground arith) in (t, text, ground arith)
]

find_status_complete :
    (t : EventStatus) (ss : List EventStatus)
    → any (same_status t) ss ≡ true
    → is_found (find_status (status_text t) ss) ≡ true
unfolding find_status
find_status_complete t [] there = there
find_status_complete t (s ∷ ss) there = elim (Bool-cases (same_status t s)) [
  | inl same ↦
      let text : (status_text s =? status_text t) ≡ true =
        (string_eq.beq_iff (status_text s) (status_text t)).1
          (sym (ap status_text (same_status-eq t s same))) in
      ground arith
  | inr other ↦ let rest = find_status_complete t ss (ground arith) in ground arith
]

find_iff :
    (w : String) (present : EventStatus)
    → (is_found (find_status w (allowed_transitions present)) ≡ true) ↔ Target present w
find_iff w present = (
  λ found.
      let (t, text, there) = find_status_sound w (allowed_transitions present) found in
      (t, text, ground (arith, any-allowed_transitions present t)),
  λ (t, text, other).
      let there : any (same_status t) (allowed_transitions present) ≡ true =
        ground (arith, any-allowed_transitions present t) in
      rw text (find_status_complete t (allowed_transitions present) there),
)

-- A status found among the allowed ones is another than the present one.
abbrev pub IsOther : EventStatus → Option EventStatus → Type 0
IsOther present none = Unit
IsOther present (some t) = same_status present t ≡ false

abbrev Among : List EventStatus → Option EventStatus → Type 0
Among ss none = Unit
Among ss (some t) = any (same_status t) ss ≡ true

find_status-Among : (w : String) (ss : List EventStatus) → Among ss (find_status w ss)
unfolding find_status
find_status-Among w [] = tt
find_status-Among w (s ∷ ss) = step (status_text s =? w) (find_status w ss) (find_status-Among w ss)
  where
    longer : (o : Option EventStatus) → Among ss o → Among (s ∷ ss) o
    longer none h = tt
    longer (some t) h = ground arith

    step :
        (b : Bool) (o : Option EventStatus) → Among ss o → Among (s ∷ ss) (if b then some s else o)
    step true o h = ground (arith, same_status_refl s)
    step false o h = longer o h

Among-IsOther :
    (present : EventStatus) (o : Option EventStatus)
    → Among (allowed_transitions present) o
    → IsOther present o
Among-IsOther present none h = tt
Among-IsOther present (some t) h = ground (arith, any-allowed_transitions present t)

pub find_status-IsOther :
    (w : String) (present : EventStatus)
    → IsOther present (find_status w (allowed_transitions present))
find_status-IsOther w present =
    Among-IsOther present _ (find_status-Among w (allowed_transitions present))

module _ {F : Type 0} where
  is_ok-change_to :
      (now : ℕ) (s : Store F) (e : AlarmEvent F) (w : String) (user : Option ℕ) (note : String)
      (o : Option EventStatus)
      → is_ok (change_to now s e w user note o) ≡ is_found o
  unfolding change_to
  is_ok-change_to now s e w user note none = refl
  is_ok-change_to now s e w user note (some t) = refl

  -- A change of status is accepted exactly when the text asked for names a status other than the
  -- present one; every other text is refused.
  pub change_event_status_iff :
      (now : ℕ) (s : Store F) (e : AlarmEvent F) (w : String) (user : Option ℕ) (note : String)
      → (is_ok (change_event_status now s e w user note) ≡ true) ↔ Target e.event_status w
  unfolding change_event_status
  change_event_status_iff now s e w user note =
      rw (is_ok-change_to now s e w user note (find_status w (allowed_transitions e.event_status)))
        (find_iff w e.event_status)
