-- ===== src/Base/Deque.antt =====
-- collections.deque(maxlen=n), oldest element first.
use Prim.Native.Nat.{ℕ, suc, ◌+◌, ◌-◌, ◌≤◌, ◌<◌}
use mathlib.Core.Path.{◌≡◌, sym, ap, ◌∙◌}
use mathlib.Core.Logic.{inl, inr}
use mathlib.Core.List.{List, [], ◌∷◌, ◌++◌}
use native.Mathlib.Omega.{arith}
use icmp.Base.Tests.{if◌then◌else◌, leb, Bool-cases}
use icmp.Base.Lists.{
  length, drop, last, length-append, length-drop, length-last, drop-append, drop-drop,
}

module _ {ℓ} {A : Type ℓ} where
  -- d.append(x): a full deque drops its oldest element.
  unfoldable pub append : ℕ → List A → A → List A
  append n q x = let r = q ++ (x ∷ []) in if leb (length r) n then r else drop 1 r

  -- A deque that holds the last n elements of a history holds them after an append too.
  pub append-last : (n : ℕ) (h : List A) (x : A) → append n (last n h) x ≡ last n (h ++ (x ∷ []))
  unfolding append
  append-last n h x = elim (Bool-cases (leb (length (last n h ++ (x ∷ []))) n)) [
    | inl fits ↦
        let short : length h + 1 ≤ n =
          ground (arith, length-append (last n h) (x ∷ []), length-last n h) in
        let whole : length h - n ≡ 0 = omega arith in
        let whole' : length (h ++ (x ∷ [])) - n ≡ 0 = omega (arith, length-append h (x ∷ [])) in
        rw fits
          (ap (λ k. drop k h ++ (x ∷ [])) whole ∙ sym (ap (λ k. drop k (h ++ (x ∷ []))) whole'))
    | inr full ↦
        let long : n ≤ length h =
          ground (arith, length-append (last n h) (x ∷ []), length-last n h) in
        let next : suc (length h - n) ≡ length (h ++ (x ∷ [])) - n =
          omega (arith, length-append h (x ∷ [])) in
        rw full (
          ap (drop 1) (sym (drop-append (length h - n) h (x ∷ []) (omega arith)))
          ∙ drop-drop (length h - n) (h ++ (x ∷ []))
          ∙ ap (λ k. drop k (h ++ (x ∷ []))) next)
  ]

  pub append-ne-nil : (n : ℕ) (q : List A) (x : A) → 0 < n → 0 < length (append n q x)
  unfolding append
  append-ne-nil n q x h = ground (arith, length-append q (x ∷ []), length-drop 1 (q ++ (x ∷ [])))

  pub length-append_le : (n : ℕ) (q : List A) (x : A) → length q ≤ n → length (append n q x) ≤ n
  unfolding append
  length-append_le n q x h = ground (arith, length-append q (x ∷ []), length-drop 1 (q ++ (x ∷ [])))
