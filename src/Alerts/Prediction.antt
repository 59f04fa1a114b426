-- ===== src/Alerts/Prediction.antt =====
-- alerts/services.py: trigger_forecast_alarms.
use icmp.Base.{
  ℕ, String, Bool, true, ◌&&◌, Option, none, some, List, [], ◌∷◌, if◌then◌else◌, string_eq, ◌=?◌,
  format, upper, contains, decimal_text,
}
use icmp.Float.{Float, lit}
use icmp.Engine.Forecast.Data.{ForecastConfidence, ForecastPolicyResult}
use icmp.Monitoring.{Device, DeviceChannel}
use icmp.Alerts.Types.{RuleType, Severity, AlarmRule, AlarmEvent, Store}
use icmp.Alerts.Tables.{
  when_some, active_rule, open_of, on_channel, latest, save, with_event, auto_close,
  create_alarm_event,
}

-- title_prefix
abbrev prefix : Option DeviceChannel → String
prefix none = "[예측]"
prefix (some c) = format ("[예측·" ∷ c.channel_code ∷ "]" ∷ [])

abbrev channel_id : Option DeviceChannel → Option ℕ
channel_id none = none
channel_id (some c) = some c.id

-- eta: the step of the danger axis if the headline is on it, else that of the caution axis
abbrev pub eta_of : ForecastPolicyResult → Option ℕ
eta_of r = elim r.headline_severity [
  | none ↦ r.caution_eta_step
  | some t ↦ if t =? "danger" then r.danger_eta_step else r.caution_eta_step
]

abbrev severity_or_caution : Option String → String
severity_or_caution none = "주의"
severity_or_caution (some t) = t

eta_text : Option ℕ → String
unfolding decimal_text
eta_text none = "None"
eta_text (some n) = decimal_text n

-- What a headline confidence does to the alarm: TENTATIVE and UNKNOWN hold it.
pub data Alarm : Type 0 where
  raise lower hold : Alarm

abbrev pub alarm_of : ForecastConfidence → Alarm
alarm_of ForecastConfidence.confirmed_warning = raise
alarm_of ForecastConfidence.confirmed_strong = raise
alarm_of ForecastConfidence.normal = lower
alarm_of c = hold

forecast_message : Option DeviceChannel → ForecastPolicyResult → String
unfolding eta_text
forecast_message channel r = format (
    prefix channel
    ∷ " "
    ∷ upper r.sensor_type
    ∷ " "
    ∷ severity_or_caution r.headline_severity
    ∷ " 임계 도달 예상 (ETA "
    ∷ eta_text (eta_of r)
    ∷ "스텝) — "
    ∷ r.reason
    ∷ [])

module _ {F : Type 0} where
  abbrev on_optional : Option DeviceChannel → AlarmEvent F → Bool
  on_optional none e = true
  on_optional (some c) e = on_channel c.id e

  abbrev pub forecast_open :
      ℕ → Device → Option DeviceChannel → ForecastPolicyResult → AlarmEvent F → Bool
  forecast_open rule device channel r e =
      open_of rule device.id e
      && (contains (format (prefix channel ∷ " " ∷ upper r.sensor_type ∷ [])) e.title
          && on_optional channel e)

module _ {F : Type 0} ⦃f : Float F⦄ where
  abbrev eta_value : Option ℕ → Option F
  eta_value none = none
  eta_value (some n) = some (lit n)

  -- The body of the loop, by the headline confidence and the open event.
  unfoldable pub forecast_event :
      ℕ
      → Store F
      → AlarmRule
      → ℕ
      → Device
      → Option DeviceChannel
      → ForecastPolicyResult
      → Alarm
      → Option (AlarmEvent F)
      → Store F
  unfolding save auto_close create_alarm_event forecast_message
  forecast_event now s rule facility device channel r raise (some e) = with_event s (record e {
    last_seen_at = some now;
    current_value = eta_value (eta_of r);
    message = forecast_message channel r;
  })
  forecast_event now s rule facility device channel r raise none =
      create_alarm_event now s rule facility Severity.predictive_warning
        (format (prefix channel ∷ " " ∷ upper r.sensor_type ∷ " 사전 경고" ∷ [])) (some device.id) none
        (channel_id channel) (forecast_message channel r) (eta_value (eta_of r))
  forecast_event now s rule facility device channel r lower (some e) =
      auto_close now (format (upper r.sensor_type ∷ " 예측 정상 복귀로 자동 종료" ∷ [])) s e
  forecast_event now s rule facility device channel r lower none = s
  forecast_event now s rule facility device channel r hold open_event = s

  unfoldable pub forecast_one :
      ℕ → AlarmRule → ℕ → Device → Option DeviceChannel → Store F → ForecastPolicyResult → Store F
  unfolding forecast_event latest contains
  forecast_one now rule facility device channel s r =
      forecast_event now s rule facility device channel r (alarm_of r.headline_confidence)
        (latest (forecast_open rule.id device channel r) s.events)

  unfoldable pub forecast_loop :
      ℕ
      → AlarmRule
      → ℕ
      → Device
      → Option DeviceChannel
      → Store F
      → List ForecastPolicyResult
      → Store F
  unfolding forecast_one
  forecast_loop now rule facility device channel s [] = s
  forecast_loop now rule facility device channel s (r ∷ rs) =
      forecast_loop now rule facility device channel
        (forecast_one now rule facility device channel s r) rs

  -- trigger_forecast_alarms; an empty list changes nothing.
  unfoldable pub trigger_forecast_alarms :
      ℕ → Store F → Device → List ForecastPolicyResult → Option DeviceChannel → Store F
  unfolding forecast_loop active_rule
  trigger_forecast_alarms now s device results channel = when_some device.facility s (λ facility.
      when_some (active_rule RuleType.forecast s.rules) s
        (λ rule. forecast_loop now rule facility device channel s results))
