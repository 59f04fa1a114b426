-- ===== src/Monitoring/Anomaly/Changepoint/Trace.antt =====
-- monitoring/anomaly/changepoint.py: the events of a gas over any calls, as the moves of a two-state
-- machine.
use mathlib.Core.List.{append_assoc, append-nil}
use icmp.Base.{
  ℕ, String, ◌≡◌, refl, sym, ap, ◌∙◌, subst, Bool, true, false, ◌&&◌, Option, some, List, [], ◌∷◌,
  ◌++◌, map, length, ltb, take, drop, if◌then◌else◌, Dict, lookup, insert, has_key, lookup-insert,
  lookup-has_key, string_eq, ◌=?◌, arith,
}
use icmp.Float.{Float}
use icmp.Monitoring.Types.{GasReading}
use icmp.Monitoring.Anomaly.{Stats}
use icmp.Monitoring.Anomaly.Buffers.{Buffers, Rows, push, get, buffer_size, window_size}
use icmp.Monitoring.Anomaly.Changepoint.{
  CpState, stable, shift, CpEvent, change_point, back_to_stable, CpResult, States, cp_gas_fields,
  initial_states, ensure_state, or_stable, or_none, state_of, set_state, next_state, event_of,
  shift_score, ratio_of, is_change_of, detect_values, detect_gas, detect_loop, detect,
}

-- The machine: STABLE moves to SHIFT by CHANGE_POINT, and SHIFT to STABLE by BACK_TO_STABLE.
pub data Trace : CpState → List CpEvent → CpState → Type 0 where
  done : {s : CpState} → Trace s [] s
  rises : {es : List CpEvent} {t : CpState} → Trace shift es t → Trace stable (change_point ∷ es) t
  falls :
      {es : List CpEvent} {t : CpState} → Trace stable es t → Trace shift (back_to_stable ∷ es) t

Trace-append :
    {a b c : CpState} {es fs : List CpEvent} → Trace a es b → Trace b fs c → Trace a (es ++ fs) c
Trace-append done u = u
Trace-append (rises t) u = rises (Trace-append t u)
Trace-append (falls t) u = falls (Trace-append t u)

abbrev picked : Bool → Option CpEvent → List CpEvent
picked true (some e) = e ∷ []
picked _ _ = []

-- The events of a gas of a device among results, in their order.
abbrev pub events_of : {F : Type 0} → String → String → List (CpResult F) → List CpEvent
events_of uid gas [] = []
events_of uid gas (r ∷ rs) =
    picked ((r.device_uid =? uid) && (r.metric =? gas)) r.event ++ events_of uid gas rs

events_of-append :
    {F : Type 0} (uid gas : String) (rs qs : List (CpResult F))
    → events_of uid gas (rs ++ qs) ≡ events_of uid gas rs ++ events_of uid gas qs
events_of-append uid gas [] qs = refl
events_of-append uid gas (r ∷ rs) qs =
    ap (λ es. picked ((r.device_uid =? uid) && (r.metric =? gas)) r.event ++ es)
      (events_of-append uid gas rs qs)
    ∙ sym (append_assoc _ (events_of uid gas rs) (events_of uid gas qs))

step-Trace : (c : Bool) (s : CpState) → Trace s (picked true (event_of c s)) (next_state c s)
unfolding event_of next_state
step-Trace true stable = rises done
step-Trace true shift = done
step-Trace false stable = done
step-Trace false shift = falls done

pick-Trace :
    (same c : Bool) (b x : CpState)
    → (same ≡ true → b ≡ x)
    → Trace x (picked same (event_of c b)) (if same then next_state c b else x)
pick-Trace true c b x h =
    subst (λ y. Trace y (picked true (event_of c b)) (next_state c b)) (h refl) (step-Trace c b)
pick-Trace false c b x h = done

state_of-set_state :
    (u g uid gas : String) (v : CpState) (s : States)
    → state_of u g (set_state uid gas v s)
      ≡ (if (uid =? u) && (gas =? g) then v else state_of u g s)
state_of-set_state u g uid gas v s = ground (
  arith,
  lookup-insert uid u (insert gas v (or_none (lookup uid s))) s,
  lookup-insert gas g v (or_none (lookup uid s)),
  string_eq.beq_iff uid u,
  string_eq.beq_iff gas g,
)

lookup-initial :
    (g : String) (gases : List String)
    → or_stable (lookup g (map (λ gas. (gas, stable)) gases)) ≡ stable
lookup-initial g [] = refl
lookup-initial g (x ∷ xs) = ground (arith, lookup-initial g xs)

state_of-ensure_state :
    (u g uid : String) (s : States) → state_of u g (ensure_state uid s) ≡ state_of u g s
unfolding ensure_state
state_of-ensure_state u g uid s = step (has_key uid s) refl
  where
    other :
        (b : Bool) (d : Dict String CpState)
        → (uid =? u) ≡ b
        → has_key uid s ≡ false
        → or_stable (lookup g d) ≡ stable
        → or_stable (lookup g (or_none (if b then some d else lookup u s))) ≡ state_of u g s
    other true d same absent fresh =
        fresh
        ∙ sym (
            ap (λ o. or_stable (lookup g (or_none o)))
              (ap (λ k. lookup k s) (sym ((string_eq.beq_iff uid u).0 same))
                ∙ lookup-has_key uid s absent))
    other false d same absent fresh = refl

    step :
        (b : Bool)
        → has_key uid s ≡ b
        → state_of u g (if b then s else insert uid initial_states s) ≡ state_of u g s
    step true there = refl
    step false absent =
        ap (λ o. or_stable (lookup g (or_none o))) (lookup-insert uid u initial_states s)
        ∙ other (uid =? u) initial_states refl absent (lookup-initial g cp_gas_fields)

module _ {F : Type 0} ⦃f : Float F⦄ (stats : Stats F) (u g : String) where
  -- The results of a call lead from the states before it to those after it.
  abbrev Leads : List (CpResult F) → States → States → Type 0
  Leads rs s t = Trace (state_of u g s) (events_of u g rs) (state_of u g t)

  same_state :
      (uid gas : String) (s : States)
      → ((uid =? u) && (gas =? g)) ≡ true
      → state_of uid gas s ≡ state_of u g s
  same_state uid gas s same =
      let p : (uid =? u) ≡ true = ground arith in
      let q : (gas =? g) ≡ true = ground arith in
      ap (λ k. state_of k gas s) ((string_eq.beq_iff uid u).0 p)
      ∙ ap (λ k. state_of u k s) ((string_eq.beq_iff gas g).0 q)

  if-Leads :
      (b : Bool) (s : States) (x y : List (CpResult F) × States)
      → Leads x.0 s x.1
      → Leads y.0 s y.1
      → Leads (if b then x else y).0 s (if b then x else y).1
  if-Leads true s x y h k = h
  if-Leads false s x y h k = k

  detect_values-Leads :
      (uid gas : String) (measured_at : ℕ) (prev curr : List F) (s : States)
      → let (r, t) = detect_values stats uid measured_at gas prev curr s in Leads (r ∷ []) s t
  unfolding detect_values
  detect_values-Leads uid gas measured_at prev curr s =
      let c = is_change_of (shift_score stats prev curr) (ratio_of stats prev curr) in
      let t =
        pick-Trace ((uid =? u) && (gas =? g)) c (state_of uid gas s) (state_of u g s)
          (same_state uid gas s) in
      rw
        (
          append-nil (picked ((uid =? u) && (gas =? g)) (event_of c (state_of uid gas s))),
          state_of-set_state u g uid gas (next_state c (state_of uid gas s)) s,
        )
        t

  detect_gas-Leads :
      (uid gas : String) (measured_at : ℕ) (values : List F) (s : States)
      → let (rs, t) = detect_gas stats uid measured_at gas values s in Leads rs s t
  unfolding detect_gas
  detect_gas-Leads uid gas measured_at values s =
      if-Leads (ltb (length values) buffer_size) s ([], s) _ done
        (detect_values-Leads uid gas measured_at (take window_size values) (drop window_size values)
          s)

  detect_loop-Leads :
      (rows : Rows F) (uid : String) (measured_at : ℕ) (gases : List String) (b : Buffers F)
      (s : States)
      → let (rs, b', t) = detect_loop stats rows uid measured_at gases b s in Leads rs s t
  unfolding detect_loop
  detect_loop-Leads rows uid measured_at [] b s = done
  detect_loop-Leads rows uid measured_at (gas ∷ gases) b s =
      let (values, b') = get rows uid gas buffer_size b in
      let (first, s') = detect_gas stats uid measured_at gas values s in
      let (rest, b'', s'') = detect_loop stats rows uid measured_at gases b' s' in
      rw (events_of-append u g first rest) (
        Trace-append (detect_gas-Leads uid gas measured_at values s)
          (detect_loop-Leads rows uid measured_at gases b' s'))

  detect-Leads :
      (rows : Rows F) (uid : String) (r : GasReading F) (b : Buffers F) (s : States)
      → let (rs, b', t) = detect stats rows uid r b s in Leads rs s t
  unfolding detect
  detect-Leads rows uid r b s =
      rw (← state_of-ensure_state u g uid s)
        (detect_loop-Leads rows uid r.measured_at cp_gas_fields b (ensure_state uid s))

  -- Readings that come one after another, each pushed and then examined: all the results, in order,
  -- and the states at the end.
  abbrev pub detect_many :
      Rows F → List (String × GasReading F) → Buffers F → States → List (CpResult F) × States
  unfolding push detect
  detect_many rows [] b s = ([], s)
  detect_many rows ((uid, r) ∷ calls) b s =
      let (rs, b', t) = detect stats rows uid r (push uid r b) s in
      let (rest, v) = detect_many rows calls b' t in (rs ++ rest, v)

  -- Over any readings of any devices, the events of a gas of a device are the moves of a machine from
  -- its state before to its state after: CHANGE_POINT only out of STABLE and BACK_TO_STABLE only out
  -- of SHIFT, in turn, and no move without its event.
  pub detect_many-Trace :
      (rows : Rows F) (calls : List (String × GasReading F)) (b : Buffers F) (s : States)
      → Trace
          (state_of u g s)
          (events_of u g (detect_many rows calls b s).0)
          (state_of u g (detect_many rows calls b s).1)
  unfolding detect_many
  detect_many-Trace rows [] b s = done
  detect_many-Trace rows ((uid, r) ∷ calls) b s =
      let (rs, b', t) = detect stats rows uid r (push uid r b) s in
      let (rest, v) = detect_many rows calls b' t in
      rw (events_of-append u g rs rest) (
        Trace-append (detect-Leads rows uid r (push uid r b) s) (detect_many-Trace rows calls b' t))
