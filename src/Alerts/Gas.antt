-- ===== src/Alerts/Gas.antt =====
-- alerts/services.py: check_gas_thresholds, trigger_anomaly_alarms, trigger_changepoint_alarms.
pub mod Tracking
use icmp.Base.{
  ℕ, String, Bool, true, false, ◌&&◌, Option, none, some, List, [], ◌∷◌, map, any, select,
  if◌then◌else◌, string_eq, ◌=?◌, format, join, upper, contains,
}
use icmp.Float.{Float, ◌>!◌}
use icmp.Monitoring.{Device, GasReading, ThresholdPolicy}
use icmp.Monitoring.Gas.{GasLevel, Exceeded, check_threshold_exceeded}
use icmp.Alerts.Types.{RuleType, Severity, AlarmRule, AlarmEvent, Store}
use icmp.Alerts.Tables.{
  when_some, active_rule, open_of, latest, save, with_event, auto_close, create_alarm_event,
}

abbrev pub is_danger : GasLevel → Bool
is_danger GasLevel.danger = true
is_danger l = false

abbrev level_text : GasLevel → String
level_text GasLevel.normal = "정상"
level_text GasLevel.warning = "주의"
level_text GasLevel.danger = "위험"

-- The results of the detectors, as the handlers read them. The `z_score` of an entry that is not
-- ANOMALY_WARNING is not read.
pub record ZResult (F : Type 0) : Type 0 where
  pub metric : String
  pub value : F
  pub z_score : F
  pub is_anomaly : Bool

pub data CpEvent : Type 0 where
  change_point back_to_stable : CpEvent

pub record CpResult (F : Type 0) : Type 0 where
  pub metric : String
  pub prev_mean : F
  pub curr_mean : F
  pub mean_shift_score : F
  pub std_ratio : F
  pub event : Option CpEvent

abbrev is_anomaly_severity : Severity → Bool
is_anomaly_severity Severity.anomaly = true
is_anomaly_severity s = false

module _ {F : Type 0} ⦃f : Float F⦄ where
  -- max(values), the first of those that tie
  unfoldable pub max_value : F → List F → F
  max_value best [] = best
  max_value best (v ∷ vs) = max_value (if v >! best then v else best) vs

  abbrev exceeded_text : Exceeded F → String
  exceeded_text e =
      format (upper e.gas ∷ ": " ∷ f.show e.value ∷ " (" ∷ level_text e.level ∷ ")" ∷ [])

  abbrev pub gas_severity : List (Exceeded F) → Severity
  gas_severity es = if any (λ e. is_danger e.level) es then Severity.danger else Severity.warning

  -- check_gas_thresholds, past its guards
  unfoldable pub gas_exceeded :
      ℕ → Store F → AlarmRule → ℕ → Device → List (Exceeded F) → Option (AlarmEvent F) → Store F
  unfolding save auto_close create_alarm_event max_value
  gas_exceeded now s rule facility device [] none = s
  gas_exceeded now s rule facility device [] (some e) = auto_close now "센서값 정상 복귀로 자동 종료" s e
  gas_exceeded now s rule facility device (x ∷ xs) (some e) = with_event s (record e {
    last_seen_at = some now;
    current_value = some (max_value x.value (map (λ y. y.value) xs));
    severity = gas_severity (x ∷ xs);
    message = join ", " (map exceeded_text (x ∷ xs));
  })
  gas_exceeded now s rule facility device (x ∷ xs) none =
      create_alarm_event now s rule facility (gas_severity (x ∷ xs))
        (format ("[가스] " ∷ join ", " (map (λ y. upper y.gas) (x ∷ xs)) ∷ " 농도 이상 감지" ∷ []))
        (some device.id) none none (join ", " (map exceeded_text (x ∷ xs)))
        (some (max_value x.value (map (λ y. y.value) xs)))

  -- check_gas_thresholds
  unfoldable pub check_gas_thresholds :
      List (ThresholdPolicy F) → ℕ → Store F → Device → GasReading F → Store F
  unfolding gas_exceeded active_rule latest check_threshold_exceeded
  check_gas_thresholds policies now s device reading = when_some device.facility s (λ facility.
      if reading.quality_flag =? "ok"
      then when_some (active_rule RuleType.threshold s.rules) s (λ rule.
        gas_exceeded now s rule facility device (check_threshold_exceeded policies reading "알림")
          (latest (open_of rule.id device.id) s.events))
      else s)

  anomaly_text : ZResult F → String
  anomaly_text r =
      format (upper r.metric ∷ ": " ∷ f.show r.value ∷ " (z=" ∷ f.fixed 2 r.z_score ∷ ")" ∷ [])

  -- trigger_anomaly_alarms, past its guards
  unfoldable pub raise_anomalies :
      ℕ
      → Store F
      → AlarmRule
      → ℕ
      → Device
      → ZResult F
      → List (ZResult F)
      → Option (AlarmEvent F)
      → Store F
  unfolding save create_alarm_event max_value anomaly_text
  raise_anomalies now s rule facility device r rs (some e) = with_event s (record e {
    last_seen_at = some now;
    current_value = some (max_value (f.abs r.z_score) (map (λ x. f.abs x.z_score) rs));
    message = join ", " (map anomaly_text (r ∷ rs));
  })
  raise_anomalies now s rule facility device r rs none =
      create_alarm_event now s rule facility Severity.anomaly
        (format ("[AI] " ∷ join ", " (map (λ x. upper x.metric) (r ∷ rs)) ∷ " 통계 이상 감지" ∷ []))
        (some device.id) none none (join ", " (map anomaly_text (r ∷ rs)))
        (some (max_value (f.abs r.z_score) (map (λ x. f.abs x.z_score) rs)))

  unfoldable pub with_anomalies : ℕ → Store F → ℕ → Device → List (ZResult F) → Store F
  unfolding raise_anomalies active_rule latest
  with_anomalies now s facility device [] = s
  with_anomalies now s facility device (r ∷ rs) =
      when_some (active_rule RuleType.threshold s.rules) s (λ rule.
        raise_anomalies now s rule facility device r rs
          (latest (λ e. open_of rule.id device.id e && is_anomaly_severity e.severity) s.events))

  -- trigger_anomaly_alarms
  unfoldable pub trigger_anomaly_alarms : ℕ → Store F → Device → List (ZResult F) → Store F
  unfolding with_anomalies
  trigger_anomaly_alarms now s device results =
      when_some device.facility s
        (λ facility. with_anomalies now s facility device (select (λ r. r.is_anomaly) results))

  -- f'[CP] {gas}'
  abbrev pub cp_mark : CpResult F → String
  cp_mark r = format ("[CP] " ∷ upper r.metric ∷ [])

  abbrev pub cp_open : ℕ → ℕ → CpResult F → AlarmEvent F → Bool
  cp_open rule device r e =
      open_of rule device e && (is_anomaly_severity e.severity && contains (cp_mark r) e.title)

  abbrev cp_message : CpResult F → String
  cp_message r = format (
      "이전 평균 "
      ∷ f.fixed 2 r.prev_mean
      ∷ " → 현재 평균 "
      ∷ f.fixed 2 r.curr_mean
      ∷ " (평균 이동량: "
      ∷ f.fixed 2 r.mean_shift_score
      ∷ ", 표준편차 비율: "
      ∷ f.fixed 2 r.std_ratio
      ∷ ")"
      ∷ [])

  -- The body of the loop of trigger_changepoint_alarms for a result with an event.
  unfoldable pub cp_event :
      ℕ → Store F → AlarmRule → ℕ → Device → CpResult F → CpEvent → Option (AlarmEvent F) → Store F
  unfolding save create_alarm_event auto_close
  cp_event now s rule facility device r change_point (some e) = with_event s (record e {
    last_seen_at = some now;
    current_value = some r.mean_shift_score;
    message = cp_message r;
  })
  cp_event now s rule facility device r change_point none =
      create_alarm_event now s rule facility Severity.anomaly
        (format ("[CP] " ∷ upper r.metric ∷ " 상태 변화 감지" ∷ [])) (some device.id) none none
        (cp_message r) (some r.mean_shift_score)
  cp_event now s rule facility device r back_to_stable (some e) =
      auto_close now (format (upper r.metric ∷ " 상태 안정화로 자동 종료" ∷ [])) s e
  cp_event now s rule facility device r back_to_stable none = s

  unfoldable pub cp_one : ℕ → AlarmRule → ℕ → Device → Store F → CpResult F → Store F
  unfolding cp_event latest contains
  cp_one now rule facility device s r = when_some r.event s (λ event.
      cp_event now s rule facility device r event (latest (cp_open rule.id device.id r) s.events))

  unfoldable pub cp_loop : ℕ → AlarmRule → ℕ → Device → Store F → List (CpResult F) → Store F
  unfolding cp_one
  cp_loop now rule facility device s [] = s
  cp_loop now rule facility device s (r ∷ rs) =
      cp_loop now rule facility device (cp_one now rule facility device s r) rs

  -- trigger_changepoint_alarms
  unfoldable pub trigger_changepoint_alarms : ℕ → Store F → Device → List (CpResult F) → Store F
  unfolding cp_loop active_rule
  trigger_changepoint_alarms now s device results = when_some device.facility s (λ facility.
      when_some (active_rule RuleType.threshold s.rules) s
        (λ rule. cp_loop now rule facility device s results))
