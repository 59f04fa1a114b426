-- ===== src/Engine/Window/Channels.antt =====
-- common/modules/sliding_window.py: the well-formedness of a window, and `clear`.
use icmp.Base.{
  ℕ, zero, suc, ◌≤◌, ◌<◌, String, ◌≡◌, refl, subst, true, some, List, [], ◌∷◌, length,
  if◌then◌else◌, Dict, lookup, insert, delete, keys_distinct, insert-distinct, delete-distinct,
  lookup-delete, string_eq, pair_eq, ◌=?◌, append-ne-nil, length-append_le, arith,
}
use icmp.Engine.Types.{DataPoint}
use icmp.Engine.Window.{
  Key, key_of, SlidingWindow, ok, points_of, init, push, push_many, get, clear,
}

abbrev EntriesFit : {F : Type 0} → ℕ → Dict Key (List (DataPoint F)) → Type 0
EntriesFit n [] = Unit
EntriesFit n ((k, q) ∷ d) = (0 < length q) × (length q ≤ n) × EntriesFit n d

-- Each channel is kept once, with between one and `window_size` points.
pub record IsValid {F : Type 0} (w : SlidingWindow F) : Type 0 where
  pub sized : 0 < w.window_size
  pub distinct : keys_distinct w.channels ≡ true
  pub fits : EntriesFit w.window_size w.channels

module _ {F : Type 0} where
  fits-insert :
      (n : ℕ) (k : Key) (q : List (DataPoint F)) (d : Dict Key (List (DataPoint F)))
      → 0 < length q
      → length q ≤ n
      → EntriesFit n d
      → EntriesFit n (insert k q d)
  fits-insert n k q [] some_ fit h = (some_, fit, tt)
  fits-insert n k q ((j, r) ∷ d) some_ fit h = ground (arith, fits-insert n k q d some_ fit h.2)

  fits-delete :
      (n : ℕ) (k : Key) (d : Dict Key (List (DataPoint F)))
      → EntriesFit n d
      → EntriesFit n (delete k d)
  fits-delete n k [] h = tt
  fits-delete n k ((j, r) ∷ d) h = ground (arith, fits-delete n k d h.2)

  fits-lookup :
      (n : ℕ) (k : Key) (d : Dict Key (List (DataPoint F)))
      → EntriesFit n d
      → length (points_of (lookup k d)) ≤ n
  fits-lookup n k [] h = omega arith
  fits-lookup n k ((j, r) ∷ d) h = ground (arith, fits-lookup n k d h.2)

  push-IsValid : (w : SlidingWindow F) (p : DataPoint F) → IsValid w → IsValid (push w p)
  unfolding push
  push-IsValid w p v =
      let q = points_of (lookup (key_of p) w.channels) in
      record {
        sized = v.sized;
        distinct = insert-distinct (key_of p) _ w.channels v.distinct;
        fits =
            fits-insert w.window_size (key_of p) _ w.channels
              (append-ne-nil w.window_size q p v.sized)
              (length-append_le w.window_size q p
                (fits-lookup w.window_size (key_of p) w.channels v.fits))
              v.fits;
      }

  push_many-IsValid :
      (w : SlidingWindow F) (ps : List (DataPoint F)) → IsValid w → IsValid (push_many w ps)
  unfolding push_many
  push_many-IsValid w [] v = v
  push_many-IsValid w (p ∷ ps) v = push_many-IsValid (push w p) ps (push-IsValid w p v)

  init-IsValid : (n : ℕ) {w : SlidingWindow F} → init n ≡ ok w → IsValid w
  unfolding init
  init-IsValid zero h = cc
  init-IsValid (suc n) {w} h =
      let e : (record { window_size = suc n; channels = [] }) ≡ w = cc in
      subst IsValid e (record { sized = omega arith; distinct = refl; fits = tt })

  -- Clearing one channel empties that channel, leaves what every other channel returns as it was,
  -- and keeps the window well-formed.
  pub get-clear :
      (w : SlidingWindow F) (device sensor : String) (j : Key)
      → IsValid w
      → (v : SlidingWindow F) × (clear w (some device) (some sensor) ≡ ok v)
        × IsValid v
        × (get v j.0 j.1 ≡ (if ◌=?◌ {A = Key} (device, sensor) j then [] else get w j.0 j.1))
  unfolding clear get
  get-clear w device sensor j v = (
    record w { channels = delete (device, sensor) w.channels },
    refl,
    record {
      sized = v.sized;
      distinct = delete-distinct (device, sensor) w.channels v.distinct;
      fits = fits-delete w.window_size (device, sensor) w.channels v.fits;
    },
    ground (arith, lookup-delete (device, sensor) j w.channels),
  )

  -- Whatever is pushed into a new window, each channel is kept once, holds at least one point, and
  -- holds no more than the size given.
  pub push_many-bounded :
      (n : ℕ) (w : SlidingWindow F) (ps : List (DataPoint F))
      → init n ≡ ok w
      → IsValid (push_many w ps)
  push_many-bounded n w ps h = push_many-IsValid w ps (init-IsValid n h)
