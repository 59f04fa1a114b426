-- ===== src/Monitoring/Anomaly/Buffers/History.antt =====
-- monitoring/anomaly/window.py: a buffer against the readings that were pushed.
use icmp.Base.{
  ℕ, zero, suc, ◌+◌, ◌-◌, ◌≤◌, ◌<◌, String, ◌≡◌, refl, sym, ap, ◌∙◌, Bool, true, false, not, ◌&&◌,
  Option, none, some, List, [], ◌∷◌, ◌++◌, map, length, leb, last, drop, any, if◌then◌else◌, lookup,
  insert, has_key, lookup-insert, lookup-has_key, string_eq, ◌=?◌, append, append-last, drop-nil,
  length-last, Bool-cases, inl, inr, arith,
}
use mathlib.Core.List.{append_assoc, append-nil}
use icmp.Monitoring.Types.{GasReading, gas_fields, read_gas}
use icmp.Monitoring.Anomaly.Buffers.{
  buffer_size, Buffer, Buffers, Rows, or_empty, empty_buffer, values_in, ensure_buffer,
  append_value, append_reading, push, is_nil, fill, get,
}

-- The elements of a list of gases occur once each.
abbrev in_list : String → List String → Bool
in_list g gases = any (λ x. x =? g) gases

abbrev distinct : List String → Bool
distinct [] = true
distinct (x ∷ xs) = not (in_list x xs) && distinct xs

in_list-ne :
    (g gas : String) (gases : List String)
    → (gas =? g) ≡ true
    → in_list gas gases ≡ false
    → in_list g gases ≡ false
in_list-ne g gas gases h miss =
    ap (λ k. in_list k gases) (sym ((string_eq.beq_iff gas g).0 h)) ∙ miss

abbrev listed : {A : Type 0} → Option A → List A
listed none = []
listed (some v) = v ∷ []

module _ {F : Type 0} where
  -- A deque, once there was a value or not.
  abbrev extended : Option F → List F → List F
  extended none q = q
  extended (some v) q = append buffer_size q v

  lookup-append_value :
      (g gas : String) (o : Option F) (buf : Buffer F)
      → or_empty (lookup g (append_value gas o buf))
        ≡ (if gas =? g then extended o (or_empty (lookup g buf)) else or_empty (lookup g buf))
  lookup-append_value g gas none buf = ground arith
  lookup-append_value g gas (some v) buf =
      ap or_empty (lookup-insert gas g (append buffer_size (or_empty (lookup gas buf)) v) buf)
      ∙ step (gas =? g) refl
    where
      step :
          (b : Bool)
          → (gas =? g) ≡ b
          → or_empty
              (if b then some (append buffer_size (or_empty (lookup gas buf)) v) else lookup g buf)
            ≡ (if b
                then append buffer_size (or_empty (lookup g buf)) v
                else or_empty (lookup g buf))
      step true h =
          ap (λ k. append buffer_size (or_empty (lookup k buf)) v) ((string_eq.beq_iff gas g).0 h)
      step false h = refl

  lookup-append_reading :
      (r : GasReading F) (g : String) (gases : List String) (buf : Buffer F)
      → distinct gases ≡ true
      → or_empty (lookup g (append_reading r gases buf)) ≡ (
          if in_list g gases
          then extended (read_gas r g) (or_empty (lookup g buf))
          else or_empty (lookup g buf))
  unfolding append_reading
  lookup-append_reading r g [] buf d = refl
  lookup-append_reading r g (gas ∷ gases) buf d =
      lookup-append_reading r g gases (append_value gas (read_gas r gas) buf) (ground (arith, d))
      ∙ step (gas =? g) refl (in_list gas gases) refl
    where
      rest : List F
      rest = or_empty (lookup g (append_value gas (read_gas r gas) buf))

      step :
          (b : Bool)
          → (gas =? g) ≡ b
          → (m : Bool) → in_list gas gases ≡ m
          → (if in_list g gases then extended (read_gas r g) rest else rest) ≡ (
              if in_list g (gas ∷ gases)
              then extended (read_gas r g) (or_empty (lookup g buf))
              else or_empty (lookup g buf))
      step true same false miss = rw (in_list-ne g gas gases same miss) (
          rw (lookup-append_value g gas (read_gas r gas) buf) (
            rw same (
              ap (λ k. extended (read_gas r k) (or_empty (lookup g buf)))
                ((string_eq.beq_iff gas g).0 same))))
      step true same true hit = absurd (ground (arith, d, hit))
      step false other m h = rw (lookup-append_value g gas (read_gas r gas) buf) (rw other refl)

  abbrev empties : List String → Buffer F
  empties gases = map (λ gas. (gas, [])) gases

  lookup-empty : (g : String) (gases : List String) → or_empty (lookup g (empties gases)) ≡ []
  lookup-empty g [] = refl
  lookup-empty g (x ∷ xs) = ground (arith, lookup-empty g xs)

  values_in-ensure_buffer :
      (u g uid : String) (b : Buffers F) → values_in u g (ensure_buffer uid b) ≡ values_in u g b
  unfolding ensure_buffer
  values_in-ensure_buffer u g uid b = step (has_key uid b) refl
    where
      other :
          (c : Bool) (d : Buffer F)
          → (uid =? u) ≡ c
          → has_key uid b ≡ false
          → or_empty (lookup g d) ≡ []
          → or_empty (lookup g (or_empty (if c then some d else lookup u b))) ≡ values_in u g b
      other true d same absent fresh =
          fresh
          ∙ sym (
              ap (λ o. or_empty (lookup g (or_empty o)))
                (ap (λ k. lookup k b) (sym ((string_eq.beq_iff uid u).0 same))
                  ∙ lookup-has_key uid b absent))
      other false d same absent fresh = refl

      step :
          (c : Bool)
          → has_key uid b ≡ c
          → values_in u g (if c then b else insert uid empty_buffer b) ≡ values_in u g b
      step true there = refl
      step false absent =
          ap (λ o. or_empty (lookup g (or_empty o))) (lookup-insert uid u empty_buffer b)
          ∙ other (uid =? u) empty_buffer refl absent (lookup-empty g gas_fields)

  values_in-push :
      (u g uid : String) (r : GasReading F) (b : Buffers F)
      → in_list g gas_fields ≡ true
      → values_in u g (push uid r b)
        ≡ (if uid =? u then extended (read_gas r g) (values_in u g b) else values_in u g b)
  unfolding push
  values_in-push u g uid r b known =
      ap (λ o. or_empty (lookup g (or_empty o)))
        (lookup-insert uid u
          (append_reading r gas_fields (or_empty (lookup uid (ensure_buffer uid b))))
          (ensure_buffer uid b))
      ∙ step (uid =? u) refl
    where
      before : Buffer F
      before = or_empty (lookup uid (ensure_buffer uid b))

      step :
          (c : Bool)
          → (uid =? u) ≡ c
          → or_empty (
              lookup g (
                or_empty (
                  if c
                  then some (append_reading r gas_fields before)
                  else lookup u (ensure_buffer uid b))))
            ≡ (if c then extended (read_gas r g) (values_in u g b) else values_in u g b)
      step true same =
          lookup-append_reading r g gas_fields before refl
          ∙ ap
              (λ c.
                if c
                then extended (read_gas r g) (or_empty (lookup g before))
                else or_empty (lookup g before))
              known
          ∙ ap (extended (read_gas r g)) (
              values_in-ensure_buffer uid g uid b
              ∙ ap (λ k. values_in k g b) ((string_eq.beq_iff uid u).0 same))
      step false other = values_in-ensure_buffer u g uid b

  -- Calls of push, the first first.
  abbrev pub push_readings : List (String × GasReading F) → Buffers F → Buffers F
  push_readings [] b = b
  push_readings (c ∷ cs) b = push_readings cs (push c.0 c.1 b)

  -- The values of a gas of a device that the calls brought, the first first.
  abbrev pub recorded : String → String → List (String × GasReading F) → List F
  recorded u g [] = []
  recorded u g (c ∷ cs) = (if c.0 =? u then listed (read_gas c.1 g) else []) ++ recorded u g cs

  extended-last :
      (o : Option F) (h : List F)
      → extended o (last buffer_size h) ≡ last buffer_size (h ++ listed o)
  extended-last none h = ap (last buffer_size) (sym (append-nil h))
  extended-last (some v) h = append-last buffer_size h v

  values_in-push_readings :
      (u g : String) (cs : List (String × GasReading F)) (b : Buffers F) (h : List F)
      → in_list g gas_fields ≡ true
      → values_in u g b ≡ last buffer_size h
      → values_in u g (push_readings cs b) ≡ last buffer_size (h ++ recorded u g cs)
  values_in-push_readings u g [] b h known start =
      start ∙ ap (last buffer_size) (sym (append-nil h))
  values_in-push_readings u g (c ∷ cs) b h known start =
      let new : List F = if c.0 =? u then listed (read_gas c.1 g) else [] in
      values_in-push_readings u g cs (push c.0 c.1 b) (h ++ new) known
        (values_in-push u g c.0 c.1 b known ∙ step (c.0 =? u))
      ∙ ap (last buffer_size) (append_assoc h new (recorded u g cs))
    where
      step :
          (s : Bool)
          → (if s then extended (read_gas c.1 g) (values_in u g b) else values_in u g b)
            ≡ last buffer_size (h ++ (if s then listed (read_gas c.1 g) else []))
      step true = ap (extended (read_gas c.1 g)) start ∙ extended-last (read_gas c.1 g) h
      step false = start ∙ ap (last buffer_size) (sym (append-nil h))

  drop-sum : (m n : ℕ) (xs : List F) → drop m (drop n xs) ≡ drop (n + m) xs
  drop-sum m zero xs = ap (λ k. drop k xs) (omega arith)
  drop-sum m (suc n) [] = drop-nil m ∙ sym (drop-nil (suc n + m))
  drop-sum m (suc n) (x ∷ xs) =
      let next : suc (n + m) ≡ suc n + m = omega arith in
      drop-sum m n xs ∙ ap (λ k. drop k (x ∷ xs)) next

  last-last : (m n : ℕ) (xs : List F) → m ≤ n → last m (last n xs) ≡ last m xs
  last-last m n xs h =
      drop-sum (length (last n xs) - m) (length xs - n) xs
      ∙ ap (λ k. drop k xs) (ground (arith, length-last n xs))

  -- slice that Python's values[-n:] takes: all of a list that is no longer than n
  shown-last : (n : ℕ) (xs : List F) → (if leb (length xs) n then xs else last n xs) ≡ last n xs
  shown-last n xs = elim (Bool-cases (leb (length xs) n)) [
    | inl short ↦
        let none_dropped : length xs - n ≡ 0 = ground (arith, short) in
        rw short (sym (ap (λ k. drop k xs) none_dropped))
    | inr long ↦ rw long refl
  ]

  is_nil-long : (xs : List F) → 0 < length xs → is_nil xs ≡ false
  is_nil-long [] h = absurd (omega arith)
  is_nil-long (x ∷ xs) h = refl

  values_in-fill :
      (rows : Rows F) (u g : String) (b : Buffers F)
      → 0 < length (values_in u g b)
      → values_in u g (fill rows u g b) ≡ values_in u g b
  unfolding fill
  values_in-fill rows u g b some_value =
      let same : values_in u g (ensure_buffer u b) ≡ values_in u g b =
        values_in-ensure_buffer u g u b in
      let long : is_nil (values_in u g (ensure_buffer u b)) ≡ false =
        ap is_nil same ∙ is_nil-long (values_in u g b) some_value in
      rw long same

  -- After any calls of push for any devices, in any order, from no buffers, `get` of a gas of a
  -- device that had a value of it returns, for n from 1 to 60, the last n of the values the calls
  -- brought for this gas of this device, whatever rows the database has.
  pub get-push_readings :
      (rows : Rows F) (u g : String) (n : ℕ) (cs : List (String × GasReading F))
      → in_list g gas_fields ≡ true
      → 0 < n
      → n ≤ buffer_size
      → 0 < length (recorded u g cs)
      → (get rows u g n (push_readings cs [])).0 ≡ last n (recorded u g cs)
  unfolding get
  get-push_readings rows u g n cs known positive small some_value =
      let held : values_in u g (push_readings cs []) ≡ last buffer_size (recorded u g cs) =
        values_in-push_readings u g cs [] [] known refl in
      let filled : values_in u g (fill rows u g (push_readings cs []))
          ≡ last buffer_size (recorded u g cs) =
        values_in-fill rows u g (push_readings cs [])
          (rw held (omega (arith, length-last buffer_size (recorded u g cs))))
        ∙ held in
      shown-last n (values_in u g (fill rows u g (push_readings cs [])))
      ∙ ap (last n) filled
      ∙ last-last n buffer_size (recorded u g cs) small
