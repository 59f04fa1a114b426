-- ===== src/Alerts/Steps/Soundness.antt =====
-- alerts/models.py: the ids and the times of the table of events, and the events notified, against the
-- step relation.
use mathlib.Core.List.{Memᴰ}
use icmp.Base.{
  ℕ, ◌+◌, ◌<◌, String, ◌≡◌, ◌≢◌, refl, sym, ap, ◌∙◌, subst, ==_iff, Bool, true, false, Option, none,
  some, List, [], ◌∷◌, ◌++◌, map, All, if◌then◌else◌, ◌==◌, arith,
}
use icmp.Alerts.Types.{
  EventStatus, opened, acknowledged, closed, Severity, AlarmRule, EventHistory, AlarmEvent, Store,
}
use icmp.Alerts.Tables.{save, auto_close, create_alarm_event}
use icmp.Alerts.Status.{stamp}
use icmp.Alerts.Steps.{Step, opens, refreshes, closes, changes, restamp, Steps, stop, then_}

-- Whether an event carries the times of its status: none of closing while it is open, that of
-- closing once it is closed, that of acknowledgement once it is acknowledged.
abbrev pub times_fit : EventStatus → Option ℕ → Option ℕ → Bool
times_fit opened acknowledged_at none = true
times_fit opened acknowledged_at (some t) = false
times_fit acknowledged none closed_at = false
times_fit acknowledged (some t) closed_at = true
times_fit closed acknowledged_at none = false
times_fit closed acknowledged_at (some t) = true

abbrev pub Distinct : List ℕ → Type 0
Distinct [] = Unit
Distinct (x ∷ xs) = All (λ y. x ≢ y) xs × Distinct xs

module _ {F : Type 0} where
  abbrev pub Fits : AlarmEvent F → Type 0
  Fits e = times_fit e.event_status e.acknowledged_at e.closed_at ≡ true

  abbrev pub ids : Store F → List ℕ
  ids s = map (λ (e : AlarmEvent F). e.id) s.events

  -- Ids are given once and are below the next one; each event is notified at most once; the times of
  -- each event are those of its status.
  pub record IsSound (s : Store F) : Type 0 where
    pub ids_below : All (λ i. i < s.next_id) (ids s)
    pub ids_distinct : Distinct (ids s)
    pub queued_below : All (λ i. i < s.next_id) s.queued
    pub queued_distinct : Distinct s.queued
    pub times : All Fits s.events

All-append {κ} :
    {A : Type 0} (P : A → Type κ) (xs ys : List A) → All P xs → All P ys → All P (xs ++ ys)
All-append P [] ys a b = b
All-append P (x ∷ xs) ys a b = (a.0, All-append P xs ys a.1 b)

All-weaken : (n : ℕ) (xs : List ℕ) → All (λ i. i < n) xs → All (λ i. i < n + 1) xs
All-weaken n [] h = tt
All-weaken n (x ∷ xs) h = (omega (arith, h.0), All-weaken n xs h.1)

pub below-append :
    (n : ℕ) (xs : List ℕ) → All (λ i. i < n) xs → All (λ i. i < n + 1) (xs ++ (n ∷ []))
below-append n xs b = All-append (λ i. i < n + 1) xs (n ∷ []) (All-weaken n xs b) (omega arith, tt)

pub Distinct-append :
    (n : ℕ) (xs : List ℕ) → All (λ i. i < n) xs → Distinct xs → Distinct (xs ++ (n ∷ []))
Distinct-append n [] b d = (tt, tt)
Distinct-append n (x ∷ xs) b d = (
  All-append (λ y. x ≢ y) xs (n ∷ []) d.0 ((λ e. omega (arith, b.0)), tt),
  Distinct-append n xs b.1 d.1,
)

pub All-Mem : {A : Type 0} (P : A → Type 0) (a : A) (xs : List A) → All P xs → Memᴰ a xs → P a
All-Mem P a [] h m = elim m [ ]
All-Mem P a (x ∷ xs) h (Memᴰ.head e) = subst P (sym e) h.0
All-Mem P a (x ∷ xs) h (Memᴰ.tail m) = All-Mem P a xs h.1 m

module _ {F : Type 0} where
  pub map-append-id :
      (es : List (AlarmEvent F)) (e : AlarmEvent F)
      → map (λ (x : AlarmEvent F). x.id) (es ++ (e ∷ []))
        ≡ map (λ (x : AlarmEvent F). x.id) es ++ (e.id ∷ [])
  map-append-id [] e = refl
  map-append-id (x ∷ xs) e = ap (λ l. x.id ∷ l) (map-append-id xs e)

  pub map-save :
      (e : AlarmEvent F) (es : List (AlarmEvent F))
      → map (λ (x : AlarmEvent F). x.id) (save e es) ≡ map (λ (x : AlarmEvent F). x.id) es
  unfolding save
  map-save e [] = refl
  map-save e (x ∷ xs) = kept (x.id == e.id) refl (map-save e xs)
    where
      kept :
          (b : Bool)
          → (x.id == e.id) ≡ b
          → map (λ (y : AlarmEvent F). y.id) (save e xs) ≡ map (λ (y : AlarmEvent F). y.id) xs
          → ((if b then e else x).id ∷ map (λ (y : AlarmEvent F). y.id) (save e xs))
            ≡ (x.id ∷ map (λ (y : AlarmEvent F). y.id) xs)
      kept true same rest =
          ap (λ i. i ∷ map (λ (y : AlarmEvent F). y.id) (save e xs))
            (sym ((==_iff x.id e.id).0 same))
          ∙ ap (λ l. x.id ∷ l) rest
      kept false other rest = ap (λ l. x.id ∷ l) rest

  save-Fits :
      (e : AlarmEvent F) (es : List (AlarmEvent F)) → Fits e → All Fits es → All Fits (save e es)
  unfolding save
  save-Fits e [] h hs = tt
  save-Fits e (x ∷ xs) h hs = (chosen (x.id == e.id), save-Fits e xs h hs.1)
    where
      chosen : (b : Bool) → Fits (if b then e else x)
      chosen true = h
      chosen false = hs.0

  -- Rows of the same ids, whose times fit, keep a table sound.
  saved-IsSound :
      (s : Store F) (h : List EventHistory) (e : AlarmEvent F)
      → Fits e
      → IsSound s
      → IsSound (record s { events = save e s.events; histories = h })
  unfolding save
  saved-IsSound s h e fit sound = record {
    ids_below = subst (All (λ i. i < s.next_id)) (sym (map-save e s.events)) sound.ids_below;
    ids_distinct = subst Distinct (sym (map-save e s.events)) sound.ids_distinct;
    queued_below = sound.queued_below;
    queued_distinct = sound.queued_distinct;
    times = save-Fits e s.events fit sound.times;
  }

  created-IsSound :
      {s : Store F} (now : ℕ) (rule : AlarmRule) (facility : ℕ) (severity : Severity)
      (title : String) (device worker channel : Option ℕ) (message : String) (value : Option F)
      → IsSound s
      → IsSound (
          create_alarm_event now s rule facility severity title device worker channel message value)
  unfolding create_alarm_event
  created-IsSound {s = s} now rule facility severity title device worker channel message value
        sound =
      let n = s.next_id in
      let ids_of = sym (map-append-id s.events _) in
      record {
        ids_below = subst (All (λ i. i < n + 1)) ids_of (below-append n (ids s) sound.ids_below);
        ids_distinct =
            subst Distinct ids_of (Distinct-append n (ids s) sound.ids_below sound.ids_distinct);
        queued_below = below-append n s.queued sound.queued_below;
        queued_distinct = Distinct-append n s.queued sound.queued_below sound.queued_distinct;
        times = All-append Fits s.events (_ ∷ []) sound.times (refl, tt);
      }

  stamp-Fits :
      (t : EventStatus) (now : ℕ) (user : Option ℕ) (e : AlarmEvent F) → Fits (stamp t now user e)
  unfolding stamp
  stamp-Fits opened now user e = refl
  stamp-Fits acknowledged now user e = refl
  stamp-Fits closed now user e = refl

  pub Step-IsSound : {s t : Store F} → Step s t → IsSound s → IsSound t
  unfolding auto_close restamp
  Step-IsSound (opens now rule facility severity title device worker channel message value) sound =
      created-IsSound now rule facility severity title device worker channel message value sound
  Step-IsSound {s = s} (refreshes seen value severity message e m o) sound =
      saved-IsSound s s.histories _ (All-Mem Fits e s.events sound.times m) sound
  Step-IsSound {s = s} (closes now note e m o) sound = saved-IsSound s _ _ refl sound
  Step-IsSound {s = s} (changes now t user note e m o) sound =
      saved-IsSound s _ (stamp t now user e) (stamp-Fits t now user e) sound

  pub Steps-IsSound : {s t : Store F} → IsSound s → Steps s t → IsSound t
  Steps-IsSound sound stop = sound
  Steps-IsSound sound (then_ rest last_) = Step-IsSound last_ (Steps-IsSound sound rest)
