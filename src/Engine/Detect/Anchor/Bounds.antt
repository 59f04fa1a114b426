-- ===== src/Engine/Detect/Anchor/Bounds.antt =====
-- common/modules/change_point.py: the indices of a result of `anchor_status` and the window.
use icmp.Base.{
  ℕ, ◌+◌, ◌-◌, ◌*◌, ◌<◌, ◌≤◌, String, ◌≡◌, refl, sym, subst, Bool, ◌&&◌, Option, none, some, List,
  [], ◌∷◌, All, length, select, ltb, leb, arith, Bool-cases, Option-cases, inl, inr, All-select,
}
use mathlib.Core.List.{Sublistᴰ}
use mathlib.Core.List.Sublistᴰ.{slnil, cons, cons-cons}
use icmp.Float.{Float, lit, ◌>!◌}
use icmp.Engine.Window.{SlidingWindow, get_values}
use icmp.Engine.Detect.{Numeric, PeltAnswer, found, failed}
use icmp.Engine.Detect.Changepoint.{ChangePointDetector, interpolate_nan, penalty_of}
use icmp.Engine.Detect.Changepoint.Signal.{KeepsLength, length-interpolate_nan}
use icmp.Engine.Detect.Anchor.{
  CpAnchorResult, Points, last_of, segment_of, has_jump, slice_of, next_bound, gated_from,
  breakpoints_of, chosen, no_points, signal_points, points_of, anchor_result, anchor_status,
}

abbrev pub Ascending : List ℕ → Type 0
Ascending [] = Unit
Ascending (x ∷ xs) = All (λ y. x ≤ y) xs × Ascending xs

-- ruptures gives the breakpoints in their order.
pub record GivesAscending {F : Type 0} (np : Numeric F) : Type 0 where
  pub ascending :
      (model : String) (min_size : ℕ) (pen : F) (signal : List F) (raw : List ℕ)
      → np.pelt model min_size pen signal ≡ found raw
      → Ascending raw

-- Strictly inside a window of n values.
abbrev pub Inside : ℕ → ℕ → Type 0
Inside n b = (0 < b) × (b < n)

All-Sublist : (P : ℕ → Type 0) {xs ys : List ℕ} → Sublistᴰ xs ys → All P ys → All P xs
All-Sublist P slnil h = tt
All-Sublist P (cons p) h = All-Sublist P p h.1
All-Sublist P (cons-cons e p) h = (subst P (sym e) h.0, All-Sublist P p h.1)

Ascending-Sublist : {xs ys : List ℕ} → Sublistᴰ xs ys → Ascending ys → Ascending xs
Ascending-Sublist slnil h = tt
Ascending-Sublist (cons p) h = Ascending-Sublist p h.1
Ascending-Sublist (cons-cons {b = b} {l₁ = l₁} e p) h = (
  subst (λ x. All (λ y. x ≤ y) l₁) (sym e) (All-Sublist (λ y. b ≤ y) p h.0),
  Ascending-Sublist p h.1,
)

Sublist-select : (p : ℕ → Bool) (xs : List ℕ) → Sublistᴰ (select p xs) xs
Sublist-select p [] = slnil
Sublist-select p (x ∷ xs) = elim (Bool-cases (p x)) [
  | inl e ↦ rw e (cons-cons refl (Sublist-select p xs))
  | inr e ↦ rw e (cons (Sublist-select p xs))
]

Ascending-select : (p : ℕ → Bool) (xs : List ℕ) → Ascending xs → Ascending (select p xs)
Ascending-select p xs h = Ascending-Sublist (Sublist-select p xs) h

-- The last entry of a list, with what holds of every entry.
last_of-All : (P : ℕ → Type 0) (xs : List ℕ) (a : ℕ) → last_of xs ≡ some a → All P xs → P a
unfolding last_of
last_of-All P [] a e h = absurd (ground arith)
last_of-All P (x ∷ []) a e h = let same : x ≡ a = ground arith in subst P same h.0
last_of-All P (x ∷ y ∷ xs) a e h = last_of-All P (y ∷ xs) a e h.1

last_of-greatest : (xs : List ℕ) (a : ℕ) → last_of xs ≡ some a → Ascending xs → All (λ b. b ≤ a) xs
unfolding last_of
last_of-greatest [] a e h = tt
last_of-greatest (x ∷ []) a e h = (ground arith, tt)
last_of-greatest (x ∷ y ∷ xs) a e h =
    (last_of-All (λ b. x ≤ b) (y ∷ xs) a e h.0, last_of-greatest (y ∷ xs) a e h.1)

-- The anchor of a window of n values, with the segment after it.
pub data Anchored (n : ℕ) (gated : List ℕ) : Option ℕ → ℕ → Type 0 where
  whole : gated ≡ [] → Anchored n gated none n
  after :
      (a : ℕ) (rest : ℕ)
      → Inside n a
      → a + rest ≡ n
      → All (λ b. b ≤ a) gated
      → Anchored n gated (some a) rest

chosen-Inside :
    (n : ℕ) (a : PeltAnswer)
    → ((raw : List ℕ) → a ≡ found raw → Ascending raw)
    → All (Inside n) (chosen n a) × Ascending (chosen n a)
unfolding chosen
chosen-Inside n (failed e) h = (tt, tt)
chosen-Inside n (found raw) h = (
  All-select (λ b. ltb 0 b && ltb b n) raw (λ b t. ground arith),
  Ascending-select (λ b. ltb 0 b && ltb b n) raw (h raw refl),
)

last_of-none : (xs : List ℕ) → last_of xs ≡ none → xs ≡ []
unfolding last_of
last_of-none [] e = refl
last_of-none (x ∷ []) e = absurd (ground arith)
last_of-none (x ∷ y ∷ xs) e = absurd (ground (arith, last_of-none (y ∷ xs) e))

gated-Anchored :
    (n : ℕ) (gated : List ℕ)
    → All (Inside n) gated
    → Ascending gated
    → Anchored n gated (last_of gated) (segment_of n (last_of gated))
unfolding segment_of
gated-Anchored n gated h up = elim (Option-cases (last_of gated)) [
  | inl e ↦ rw e (whole (last_of-none gated e))
  | inr (a, e) ↦
      let own = last_of-All (Inside n) gated a e h in
      rw e (after a (n - a) own (omega arith) (last_of-greatest gated a e up))
]

-- The points that the first part finds in a window of n values.
record Found (n : ℕ) (p : Points) : Type 0 where
  inside : All (Inside n) p.breakpoints
  ascending : Ascending p.breakpoints
  part : Sublistᴰ p.gated p.breakpoints

nothing-Found : (n : ℕ) → Found n no_points
nothing-Found n = record { inside = tt; ascending = tt; part = slnil }

module _ {F : Type 0} ⦃f : Float F⦄ where
  gated_from-Sublist :
      (np : Numeric F) (gate : F) (signal : List F) (prev : ℕ) (bs : List ℕ)
      → Sublistᴰ (gated_from np gate signal prev bs) bs
  unfolding gated_from
  gated_from-Sublist np gate signal prev [] = slnil
  gated_from-Sublist np gate signal prev (b ∷ bs) =
      elim (Bool-cases (
        has_jump np gate (slice_of prev b signal)
          (slice_of b (next_bound (length signal) bs) signal))) [
            | inl e ↦ rw e (cons-cons refl (gated_from-Sublist np gate signal b bs))
            | inr e ↦ rw e (cons (gated_from-Sublist np gate signal b bs))
          ]

  signal_points-Found :
      (np : Numeric F)
      → GivesAscending np
      → (d : ChangePointDetector F) (n : ℕ) (o : Option (List F))
      → ((s : List F) → o ≡ some s → length s ≡ n)
      → Found n (signal_points np d n o)
  unfolding signal_points breakpoints_of
  signal_points-Found np g d n none h = nothing-Found n
  signal_points-Found np g d n (some s) h =
      elim (Bool-cases (leb (2 * d.min_size) n && np.var s >! lit 0)) [
        | inr e ↦ rw e (nothing-Found n)
        | inl e ↦
            let kept =
              chosen-Inside (length s) _
                (g.ascending d.cost_model d.min_size (penalty_of np s) s) in
            rw e (record {
              inside = subst (λ k. All (Inside k) (breakpoints_of np d s)) (h s refl) kept.0;
              ascending = kept.1;
              part = gated_from-Sublist np d.magnitude_gate s 0 (breakpoints_of np d s);
            })
      ]

  points_of-Found :
      (np : Numeric F)
      → KeepsLength np
      → GivesAscending np
      → (d : ChangePointDetector F) (values : List F)
      → Found (length values) (points_of np d values)
  unfolding points_of
  points_of-Found np k g d values = elim (Bool-cases (ltb 0 (length values))) [
    | inr e ↦ rw e (nothing-Found (length values))
    | inl e ↦ rw e (
        signal_points-Found np g d (length values) (interpolate_nan np values)
          (λ s. length-interpolate_nan np k values s))
  ]

  -- What a result states of a window of n values.
  pub record Bounded (n : ℕ) (r : CpAnchorResult F) : Type 0 where
    pub inside : All (Inside n) r.breakpoints
    pub gated : Sublistᴰ r.gated_breakpoints r.breakpoints
    pub anchored : Anchored n r.gated_breakpoints r.anchor_index r.segment_length

  -- Each breakpoint of a result lies strictly inside the window's values, the gated ones are some of
  -- them in their order, and the anchor is the newest gated one, with the rest of the window as its
  -- segment, or there is none and the segment is the window.
  pub anchor_status-Bounded :
      (np : Numeric F)
      → KeepsLength np
      → GivesAscending np
      → (now : ℕ) (w : SlidingWindow F) (d : ChangePointDetector F) (device sensor : String)
      → Bounded (length (get_values w device sensor)) (anchor_status np now w d device sensor).0
  unfolding anchor_status anchor_result
  anchor_status-Bounded np k g now w d device sensor =
      let values = get_values w device sensor in
      let p = points_of np d values in
      let h = points_of-Found np k g d values in
      record {
        inside = h.inside;
        gated = h.part;
        anchored =
            gated-Anchored (length values) p.gated
              (All-Sublist (Inside (length values)) h.part h.inside)
              (Ascending-Sublist h.part h.ascending);
      }
