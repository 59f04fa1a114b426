-- ===== src/Engine/Subsystem/Windows.antt =====
-- common/integration/prediction_subsystem.py: the two windows of a subsystem against each other.
use icmp.Base.{
  ℕ, zero, suc, ◌+◌, ◌-◌, ◌≤◌, String, ◌≡◌, refl, sym, ap, ◌∙◌, Bool, true, false, Option, none,
  some, List, [], ◌∷◌, length, drop, last, ltb, if◌then◌else◌, Bool-cases, inl, inr, arith,
  length-drop, drop-nil, Dict,
}
use icmp.Float.{Float}
use icmp.Engine.Types.{DataPoint}
use icmp.Engine.Threshold
use icmp.Engine.Threshold.{Info, InitResult}
use icmp.Engine.Window
use icmp.Engine.Window.{Key, SlidingWindow, WindowResult, get, push_many}
use icmp.Engine.Window.History.{of_channel, get-push_many}
use icmp.Engine.Detect.{Numeric}
use icmp.Engine.Detect.Changepoint.{ChangePointInit}
use icmp.Engine.Forecast.Data.{ForecastPolicy, PolicyResult}
use icmp.Engine.Subsystem.{
  Predictor, PredictionSubsystem, ok, err, short_history, with_policy, with_windows, with_table,
  default_detector, policy_or, init, Command, pushes, predicts, push_point, predict_channel,
  run_one, run,
}

drop-add {ℓ} : {A : Type ℓ} (n m k : ℕ) (xs : List A) → m + n ≡ k → drop n (drop m xs) ≡ drop k xs
drop-add n zero k xs e = ap (λ i. drop i xs) (omega arith)
drop-add n (suc m) k [] e = drop-nil n ∙ sym (drop-nil k)
drop-add n (suc m) zero (x ∷ xs) e = absurd (omega arith)
drop-add n (suc m) (suc k) (x ∷ xs) e = drop-add n m k xs (omega arith)

-- The last n of the last m entries.
last-last {ℓ} : {A : Type ℓ} (n m : ℕ) (xs : List A) → n ≤ m → last n (last m xs) ≡ last n xs
last-last n m xs h =
    drop-add (length (last m xs) - n) (length xs - m) (length xs - n) xs
      (omega (arith, length-drop (length xs - m) xs))

passed : {A : Type 0} {y z : A} (t : Bool) (x : A) → t ≡ false → (if t then x else y) ≡ z → y ≡ z
passed true x e h = absurd (ground arith)
passed false x e h = h

-- The points that the commands push, in their order.
abbrev pub pushed : {F : Type 0} → List (Command F) → List (DataPoint F)
pushed [] = []
pushed (pushes p ∷ cs) = p ∷ pushed cs
pushed (predicts now device sensor ∷ cs) = pushed cs

module _ {F : Type 0} ⦃f : Float F⦄ where
  pub record Built (cp_size history_size : ℕ) (s : PredictionSubsystem F) : Type 0 where
    pub ordered : cp_size ≤ history_size
    pub of_cp : Window.init cp_size ≡ WindowResult.ok s.cp_window
    pub of_history : Window.init history_size ≡ WindowResult.ok s.history

  windows-run :
      (np : Numeric F) (s : PredictionSubsystem F) (cs : List (Command F))
      → ((run np s cs).cp_window ≡ push_many s.cp_window (pushed cs))
        × ((run np s cs).history ≡ push_many s.history (pushed cs))
  unfolding run run_one push_point predict_channel push_many
  windows-run np s [] = (refl, refl)
  windows-run np s (pushes p ∷ cs) = windows-run np (push_point s p) cs
  windows-run np s (predicts now device sensor ∷ cs) =
      windows-run np (predict_channel np now s device sensor).1 cs

  with_policy-windows :
      (table : Dict String (Info F)) (arima : Predictor F) (w h : SlidingWindow F)
      (c : ChangePointInit F) (p : PolicyResult F) (s : PredictionSubsystem F)
      → with_policy table arima w h c p ≡ ok s
      → (w ≡ s.cp_window) × (h ≡ s.history)
  unfolding with_policy
  with_policy-windows table arima w h (ChangePointInit.err e) p s b = absurd (ground arith)
  with_policy-windows table arima w h (ChangePointInit.ok c) (PolicyResult.err e) s b =
      absurd (ground arith)
  with_policy-windows table arima w h (ChangePointInit.ok c) (PolicyResult.ok p) s b = ground arith

  with_windows-Built :
      (np : Numeric F) (table : Dict String (Info F)) (arima : Predictor F) (p : PolicyResult F)
      (n m : ℕ) (x y : WindowResult F) (s : PredictionSubsystem F)
      → n ≤ m
      → Window.init n ≡ x
      → Window.init m ≡ y
      → with_windows np table arima p x y ≡ ok s
      → Built n m s
  unfolding with_windows
  with_windows-Built np table arima p n m (WindowResult.err e) y s h a b d = absurd (ground arith)
  with_windows-Built np table arima p n m (WindowResult.ok w) (WindowResult.err e) s h a b d =
      absurd (ground arith)
  with_windows-Built np table arima p n m (WindowResult.ok w) (WindowResult.ok v) s h a b d =
      let own = with_policy-windows table arima w v (default_detector np w) p s d in
      record {
        ordered = h;
        of_cp = a ∙ ap WindowResult.ok own.0;
        of_history = b ∙ ap WindowResult.ok own.1;
      }

  with_table-Built :
      (np : Numeric F) (arima : Predictor F) (n m : ℕ) (p : PolicyResult F) (t : InitResult F)
      (s : PredictionSubsystem F)
      → n ≤ m
      → with_table np arima n m p t ≡ ok s
      → Built n m s
  unfolding with_table
  with_table-Built np arima n m p (InitResult.err e) s h b = absurd (ground arith)
  with_table-Built np arima n m p (InitResult.ok table) s h b =
      with_windows-Built np table arima p n m _ _ s h refl refl b

  init-Built :
      (np : Numeric F) (table : Dict String (Info F)) (arima : Option (Predictor F)) (n m : ℕ)
      (policy : Option (ForecastPolicy F)) (s : PredictionSubsystem F)
      → init np table arima n m policy ≡ ok s
      → Built n m s
  unfolding init
  init-Built np table none n m policy s b = absurd (ground arith)
  init-Built np table (some arima) n m policy s b = elim (Bool-cases (ltb m n)) [
    | inl short ↦ absurd (ground arith)
    | inr long ↦
        with_table-Built np arima n m (policy_or policy) (Threshold.init table) s (ground arith)
          (passed (ltb m n) (err (short_history m n)) long b)
  ]

  -- After any pushes and predictions, the history of a channel is the last `history_size` of its
  -- points, and the window of the change points holds the newest of those points.
  pub get-run :
      (np : Numeric F) (table : Dict String (Info F)) (arima : Option (Predictor F))
      (cp_size history_size : ℕ) (policy : Option (ForecastPolicy F)) (s : PredictionSubsystem F)
      (cs : List (Command F)) (device sensor : String)
      → init np table arima cp_size history_size policy ≡ ok s
      → (get (run np s cs).history device sensor
          ≡ last history_size (of_channel (device, sensor) (pushed cs)))
        × (get (run np s cs).cp_window device sensor
            ≡ last cp_size (get (run np s cs).history device sensor))
  get-run np table arima cp_size history_size policy s cs device sensor b =
      let built = init-Built np table arima cp_size history_size policy s b in
      let (cp, all) = windows-run np s cs in
      let ps = of_channel (device, sensor) (pushed cs) in
      let long =
        ap (λ w. get w device sensor) all
        ∙ get-push_many history_size s.history (pushed cs) device sensor built.of_history in
      (
        long,
        ap (λ w. get w device sensor) cp
            ∙ get-push_many cp_size s.cp_window (pushed cs) device sensor built.of_cp
            ∙ sym (last-last cp_size history_size ps built.ordered)
            ∙ ap (last cp_size) (sym long),
      )
