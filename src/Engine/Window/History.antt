-- ===== src/Engine/Window/History.antt =====
-- common/modules/sliding_window.py: the window against its history: every point pushed, in order.
use icmp.Base.{
  ℕ, zero, suc, ◌<◌, String, ◌≡◌, refl, sym, ap, ◌∙◌, Bool, true, false, some, List, [], ◌∷◌, ◌++◌,
  length, leb, ◌==◌, last, select, select-append, subst, drop-nil, ◌-◌, drop-nil, ◌-◌, length-last,
  if◌then◌else◌, lookup, lookup-insert, string_eq, pair_eq, ◌=?◌, append, append-last, arith,
}
use mathlib.Core.List.{append_assoc, append-nil}
use icmp.Engine.Types.{DataPoint}
use icmp.Engine.Window.{
  Key, key_of, SlidingWindow, ok, points_of, init, push, push_many, get, is_full,
}

module _ {F : Type 0} where
  -- The points of one channel.
  abbrev pub of_channel : Key → List (DataPoint F) → List (DataPoint F)
  of_channel k ps = select (λ p. key_of p =? k) ps

  -- The window stands for the history `h`: each channel holds its last `window_size` points.
  pub record Holds (w : SlidingWindow F) (h : List (DataPoint F)) : Type 0 where
    pub at_key : (k : Key) → points_of (lookup k w.channels) ≡ last w.window_size (of_channel k h)

  at_pushed :
      (w : SlidingWindow F) (h : List (DataPoint F)) (p : DataPoint F)
      → Holds w h
      → (k : Key) (b : Bool) → (key_of p =? k) ≡ b
      → points_of (
          if b
          then some (append w.window_size (points_of (lookup (key_of p) w.channels)) p)
          else lookup k w.channels)
        ≡ last w.window_size (of_channel k h ++ (if b then p ∷ [] else []))
  at_pushed w h p holds k false e =
      holds.at_key k ∙ ap (last w.window_size) (sym (append-nil (of_channel k h)))
  at_pushed w h p holds k true e =
      ap (λ q. append w.window_size q p)
        (ap (λ j. points_of (lookup j w.channels)) ((pair_eq.beq_iff (key_of p) k).0 e)
          ∙ holds.at_key k)
      ∙ append-last w.window_size (of_channel k h) p

  push-Holds :
      (w : SlidingWindow F) (h : List (DataPoint F)) (p : DataPoint F)
      → Holds w h
      → Holds (push w p) (h ++ (p ∷ []))
  unfolding push
  push-Holds w h p holds = record {
    at_key = λ k.
        ap points_of (lookup-insert (key_of p) k _ w.channels)
        ∙ at_pushed w h p holds k (key_of p =? k) refl
        ∙ ap (last w.window_size) (sym (select-append (λ q. key_of q =? k) h (p ∷ [])));
  }

  push_many-Holds :
      (w : SlidingWindow F) (h ps : List (DataPoint F))
      → Holds w h
      → Holds (push_many w ps) (h ++ ps)
  unfolding push_many
  push_many-Holds w h [] holds = rw append-nil holds
  push_many-Holds w h (p ∷ ps) holds =
      subst (Holds (push_many (push w p) ps)) (append_assoc h (p ∷ []) ps)
        (push_many-Holds (push w p) (h ++ (p ∷ [])) ps (push-Holds w h p holds))

  window_size-push_many :
      (w : SlidingWindow F) (ps : List (DataPoint F)) → (push_many w ps).window_size ≡ w.window_size
  unfolding push_many push
  window_size-push_many w [] = refl
  window_size-push_many w (p ∷ ps) = window_size-push_many (push w p) ps

  abbrev fresh : ℕ → SlidingWindow F
  fresh n = record { window_size = suc n; channels = [] }

  init-Holds : (n : ℕ) {w : SlidingWindow F} → init n ≡ ok w → Holds w [] × (w.window_size ≡ n)
  unfolding init
  init-Holds zero h = cc
  init-Holds (suc n) {w} h =
      let e : fresh n ≡ w = cc in
      subst (λ v. Holds v [] × (v.window_size ≡ suc n)) e
        (record { at_key = λ k. sym (drop-nil (0 - suc n)) }, refl)

  -- After any points are pushed into a new window of size n, `get` returns the last n of the points
  -- of the asked channel, in the order in which they came.
  pub get-push_many :
      (n : ℕ) (w : SlidingWindow F) (ps : List (DataPoint F)) (device sensor : String)
      → init n ≡ ok w
      → get (push_many w ps) device sensor ≡ last n (of_channel (device, sensor) ps)
  unfolding get
  get-push_many n w ps device sensor built =
      let (holds, size) = init-Holds n built in
      (push_many-Holds w [] ps holds).at_key (device, sensor)
      ∙ ap (λ m. last m (of_channel (device, sensor) ps)) (window_size-push_many w ps ∙ size)

  is_full-eq :
      (w : SlidingWindow F) (device sensor : String)
      → 0 < w.window_size
      → is_full w device sensor ≡ (length (get w device sensor) == w.window_size)
  unfolding is_full get
  is_full-eq w device sensor h = ground arith

  full_of_last : (n : ℕ) (h : List (DataPoint F)) → (length (last n h) == n) ≡ leb n (length h)
  full_of_last n h = ground (arith, length-last n h)

  -- A channel of a new window of size n is full exactly when at least n points were pushed to it.
  pub is_full-push_many :
      (n : ℕ) (w : SlidingWindow F) (ps : List (DataPoint F)) (device sensor : String)
      → 0 < n
      → init n ≡ ok w
      → is_full (push_many w ps) device sensor ≡ leb n (length (of_channel (device, sensor) ps))
  is_full-push_many n w ps device sensor pos built =
      let size : (push_many w ps).window_size ≡ n =
        window_size-push_many w ps ∙ (init-Holds n built).1 in
      is_full-eq (push_many w ps) device sensor (omega (arith, size))
      ∙ ap (λ m. length (get (push_many w ps) device sensor) == m) size
      ∙ ap (λ q. length q == n) (get-push_many n w ps device sensor built)
      ∙ full_of_last n (of_channel (device, sensor) ps)
