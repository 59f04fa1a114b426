-- ===== src/Alerts/Notices/Policies.antt =====
-- alerts/tasks.py: which policy send_all_notifications follows.
use mathlib.Core.List.{Memᴰ}
use icmp.Base.{
  ◌≤◌, ◌≡◌, refl, sym, subst, ◌∙◌, ◌⊎◌, String, Bool, true, false, ◌&&◌, Option, none, some, List,
  [], ◌∷◌, All, ltb, Bool-cases, inl, inr, string_eq, ◌=?◌, arith,
}
use icmp.Alerts.Notices.{AlarmPolicy, newer_policy, newest_policy, policy_for}

-- A policy in use, for an event of that name.
abbrev pub is_for : String → AlarmPolicy → Bool
is_for name p = (p.event_type =? name) && p.is_active

-- What a query for the policy of a name may answer.
abbrev pub Newest : String → List AlarmPolicy → Option AlarmPolicy → Type 0
Newest name ps none = All (λ q. is_for name q ≡ false) ps
Newest name ps (some p) =
    Memᴰ p ps
    × (is_for name p ≡ true)
    × All (λ q. is_for name q ≡ true → q.updated_at ≤ p.updated_at) ps

-- What the search answers from the best policy of the rows before.
abbrev From : String → AlarmPolicy → List AlarmPolicy → Option AlarmPolicy → Type 0
From name b ps none = ⊥
From name b ps (some p) =
    ((p ≡ b) ⊎ (Memᴰ p ps × (is_for name p ≡ true)))
    × (b.updated_at ≤ p.updated_at)
    × All (λ q. is_for name q ≡ true → q.updated_at ≤ p.updated_at) ps

longer-From :
    (name : String) (b c p : AlarmPolicy) (ps : List AlarmPolicy) (o : Option AlarmPolicy)
    → ((c ≡ b) ⊎ ((c ≡ p) × (is_for name p ≡ true)))
    → b.updated_at ≤ c.updated_at
    → (is_for name p ≡ true → p.updated_at ≤ c.updated_at)
    → From name c ps o
    → From name b (p ∷ ps) o
longer-From name b c p ps none which low high h = h
longer-From name b c p ps (some x) which low high (member, above, all) =
    (source member which, omega (arith, low, above), ((λ k. omega (arith, high k, above)), all))
  where
    source :
        ((x ≡ c) ⊎ (Memᴰ x ps × (is_for name x ≡ true)))
        → ((c ≡ b) ⊎ ((c ≡ p) × (is_for name p ≡ true)))
        → (x ≡ b) ⊎ (Memᴰ x (p ∷ ps) × (is_for name x ≡ true))
    source (inr (m, k)) w = inr (Memᴰ.tail m, k)
    source (inl e) (inl w) = inl (e ∙ w)
    source (inl e) (inr (w, k)) =
        inr (Memᴰ.head (e ∙ w), subst (λ y. is_for name y ≡ true) (sym (e ∙ w)) k)

newest_policy-From :
    (name : String) (b : AlarmPolicy) (ps : List AlarmPolicy)
    → From name b ps (newest_policy name (some b) ps)
unfolding newest_policy newer_policy
newest_policy-From name b [] = (inl refl, omega arith, tt)
newest_policy-From name b (p ∷ ps) = elim (Bool-cases (is_for name p)) [
  | inr other ↦ rw other (
      longer-From name b b p ps (newest_policy name (some b) ps) (inl refl) (omega arith)
        (λ k. absurd (ground (arith, k, other))) (newest_policy-From name b ps))
  | inl own ↦ elim (Bool-cases (ltb b.updated_at p.updated_at)) [
    | inl later ↦
        rw (own, later)
          (longer-From name b p p ps (newest_policy name (some p) ps) (inr (refl, own))
            (ground (arith, later)) (λ k. omega arith) (newest_policy-From name p ps))
    | inr earlier ↦
        rw (own, earlier)
          (longer-From name b b p ps (newest_policy name (some b) ps) (inl refl) (omega arith)
            (λ k. ground (arith, earlier)) (newest_policy-From name b ps))
  ]
]

found-Newest :
    (name : String) (p : AlarmPolicy) (ps : List AlarmPolicy) (o : Option AlarmPolicy)
    → is_for name p ≡ true
    → From name p ps o
    → Newest name (p ∷ ps) o
found-Newest name p ps none own h = absurd h
found-Newest name p ps (some x) own (member, above, all) =
    let at = source member in (at.0, at.1, ((λ k. above), all))
  where
    source :
        ((x ≡ p) ⊎ (Memᴰ x ps × (is_for name x ≡ true))) → Memᴰ x (p ∷ ps) × (is_for name x ≡ true)
    source (inl e) = (Memᴰ.head e, subst (λ y. is_for name y ≡ true) (sym e) own)
    source (inr (m, k)) = (Memᴰ.tail m, k)

longer-Newest :
    (name : String) (p : AlarmPolicy) (ps : List AlarmPolicy) (o : Option AlarmPolicy)
    → is_for name p ≡ false
    → Newest name ps o
    → Newest name (p ∷ ps) o
longer-Newest name p ps none other h = (other, h)
longer-Newest name p ps (some x) other (m, k, all) =
    (Memᴰ.tail m, k, ((λ own. absurd (ground (arith, own, other))), all))

newest_policy-Newest :
    (name : String) (ps : List AlarmPolicy) → Newest name ps (newest_policy name none ps)
unfolding newest_policy newer_policy
newest_policy-Newest name [] = tt
newest_policy-Newest name (p ∷ ps) = elim (Bool-cases (is_for name p)) [
  | inl own ↦
      rw own
        (found-Newest name p ps (newest_policy name (some p) ps) own (newest_policy-From name p ps))
  | inr other ↦
      rw other
        (longer-Newest name p ps (newest_policy name none ps) other (newest_policy-Newest name ps))
]

-- For a name that is not empty, the policy that is followed is one of the table that is in use and has
-- that name, and no such policy was updated after it; where none is followed, the table has no such
-- policy.
pub policy_for-Newest :
    (name : String) (ps : List AlarmPolicy)
    → (name =? "") ≡ false
    → Newest name ps (policy_for name ps)
unfolding policy_for
policy_for-Newest name ps named = rw named (newest_policy-Newest name ps)
