-- ===== src/Engine/Detect/Anchor/Edges.antt =====
-- common/modules/change_point.py: the triggers of a channel over any calls of `anchor_status`.
use icmp.Base.{
  ℕ, String, ◌≡◌, refl, ap, ◌∙◌, Option, some, Bool, true, false, not, ◌&&◌, List, [], ◌∷◌, map,
  select, if◌then◌else◌, string_eq, pair_eq, ◌=?◌, lookup, lookup-insert,
}
use icmp.Float.{Float}
use icmp.Engine.Window.{Key, SlidingWindow, get_values}
use icmp.Engine.Detect.{Numeric}
use icmp.Engine.Detect.Changepoint.{ChangePointDetector}
use icmp.Engine.Detect.Anchor.{
  CpAnchorResult, anchor_status, anchor_result, contamination_of, or_false,
}

-- A call, with the window as it is at that time.
pub record Call (F : Type 0) : Type 0 where
  pub now : ℕ
  pub window : SlidingWindow F
  pub device_id : String
  pub sensor_type : String

-- The rising edges of a sequence of flags, from the flag before it.
pub rises : Bool → List Bool → List Bool
rises before [] = []
rises before (c ∷ cs) = (c && not before) ∷ rises c cs

or_false-if :
    (own c : Bool) (o : Option Bool)
    → or_false (if own then some c else o) ≡ (if own then c else or_false o)
or_false-if true c o = refl
or_false-if false c o = refl

module _ {F : Type 0} ⦃f : Float F⦄ where
  -- The results of the calls, one after another.
  pub anchor_all : Numeric F → ChangePointDetector F → List (Call F) → List (CpAnchorResult F)
  anchor_all np d [] = []
  anchor_all np d (c ∷ cs) =
      let (r, d') = anchor_status np c.now c.window d c.device_id c.sensor_type in
      r ∷ anchor_all np d' cs

  abbrev pub of_channel : Key → List (CpAnchorResult F) → List (CpAnchorResult F)
  of_channel key rs = select (λ r. (r.device_id, r.sensor_type) =? key) rs

  -- The flag of a channel that the detector keeps.
  abbrev pub kept : Key → ChangePointDetector F → Bool
  kept key d = or_false (lookup key d.last_contamination)

  abbrev pub calls_of : Key → List (Call F) → List (Call F)
  calls_of key cs = select (λ c. (c.device_id, c.sensor_type) =? key) cs

  -- The newest block of values of the channel of a call has moved.
  abbrev pub has_moved : Numeric F → F → ℕ → Call F → Bool
  has_moved np gate blk c =
      contamination_of np gate blk (get_values c.window c.device_id c.sensor_type)

  abbrev pub triggers : List (CpAnchorResult F) → List Bool
  triggers rs = map (λ r. r.trigger) rs

  -- One more result and its call, before those of which the claim is known.
  edge_step :
      (moved : Call F → Bool) (own : Bool) (r : CpAnchorResult F) (rest : List (CpAnchorResult F))
      (c : Call F) (cs : List (Call F)) (before after : Bool)
      → (own ≡ true → r.trigger ≡ (moved c && not before))
      → after ≡ (if own then moved c else before)
      → triggers rest ≡ rises after (map moved cs)
      → triggers (if own then r ∷ rest else rest)
        ≡ rises before (map moved (if own then c ∷ cs else cs))
  unfolding rises
  edge_step moved true r rest c cs before after t a ih =
      ap (λ b. b ∷ triggers rest) (t refl)
      ∙ ap (λ bs. (moved c && not before) ∷ bs) (ih ∙ ap (λ b. rises b (map moved cs)) a)
  edge_step moved false r rest c cs before after t a ih = ih ∙ ap (λ b. rises b (map moved cs)) a

  -- The triggers of a channel are the rising edges of the moves of its window, from the flag that
  -- the detector keeps of it, whatever calls for other channels stand between.
  pub triggers-anchor_all :
      (np : Numeric F) (d : ChangePointDetector F) (cs : List (Call F)) (key : Key)
      → triggers (of_channel key (anchor_all np d cs))
        ≡ rises
            (kept key d)
            (map (has_moved np d.magnitude_gate d.contamination_block) (calls_of key cs))
  unfolding anchor_all anchor_status anchor_result rises
  triggers-anchor_all np d [] key = refl
  triggers-anchor_all np d (c ∷ cs) key =
      let own = (c.device_id, c.sensor_type) =? key in
      let moved = has_moved np d.magnitude_gate d.contamination_block in
      let d' = (anchor_status np c.now c.window d c.device_id c.sensor_type).1 in
      edge_step moved own _ _ c (calls_of key cs) (kept key d) (kept key d')
        (λ e.
          ap (λ k. moved c && not (kept k d))
            ((pair_eq.beq_iff (c.device_id, c.sensor_type) key).0 e))
        (ap or_false (lookup-insert (c.device_id, c.sensor_type) key (moved c) d.last_contamination)
          ∙ or_false-if own (moved c) (lookup key d.last_contamination))
        (triggers-anchor_all np d' cs key)
