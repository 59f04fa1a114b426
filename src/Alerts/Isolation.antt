-- ===== src/Alerts/Isolation.antt =====
-- alerts/services.py: trigger_if_anomaly_alarms and its power variant.
use icmp.Base.{
  ℕ, String, Bool, true, false, ◌&&◌, Option, none, some, [], ◌∷◌, if◌then◌else◌, string_eq, ◌=?◌,
  format,
}
use icmp.Engine.{RiskLevel}
use icmp.Monitoring.{Device, DeviceChannel}
use icmp.Alerts.Types.{RuleType, Severity, AlarmRule, AlarmEvent, Store}
use icmp.Alerts.Tables.{
  when_some, active_rule, open_of, on_channel, latest, save, with_event, auto_close,
  create_alarm_event,
}

-- IsolationForestResult: the fields that the handlers read. Its level is never DANGER.
pub record IfResult (F : Type 0) : Type 0 where
  pub level : RiskLevel
  pub mahalanobis_distance : F
  pub reason : String

-- The texts and the channel of the two variants.
pub record IfTexts : Type 0 where
  pub close_note : String
  pub title : String
  pub label : String
  pub channel : Option ℕ

-- channel.channel_name or channel.channel_code
abbrev pub channel_label : DeviceChannel → String
channel_label c = if c.channel_name =? "" then c.channel_code else c.channel_name

abbrev gas_texts : IfTexts
gas_texts = record {
  close_note = "IF 분포 정상 복귀로 자동 종료";
  title = "[IF] 가스 9채널 분포 이상 감지";
  label = "[IF] 가스 9채널 분포 이상 — ";
  channel = none;
}

abbrev power_texts : DeviceChannel → IfTexts
power_texts c = record {
  close_note = "전력 IF 분포 정상 복귀로 자동 종료";
  title = format ("[전력·IF] " ∷ channel_label c ∷ " 조합 이상 감지" ∷ []);
  label = format ("[전력·IF] " ∷ channel_label c ∷ " 조합 이상 — " ∷ []);
  channel = some c.id;
}

abbrev pub is_normal : RiskLevel → Bool
is_normal RiskLevel.normal = true
is_normal l = false

abbrev pub is_unknown : RiskLevel → Bool
is_unknown RiskLevel.unknown = true
is_unknown l = false

module _ {F : Type 0} where
  -- The two handlers past their guards, for a level that is NORMAL (true) or CAUTION (false).
  unfoldable pub if_alarm :
      ℕ
      → Store F
      → AlarmRule
      → ℕ
      → Device
      → IfTexts
      → IfResult F
      → Bool
      → Option (AlarmEvent F)
      → Store F
  unfolding save auto_close create_alarm_event
  if_alarm now s rule facility device t r true none = s
  if_alarm now s rule facility device t r true (some e) = auto_close now t.close_note s e
  if_alarm now s rule facility device t r false (some e) = with_event s (record e {
    last_seen_at = some now;
    current_value = some r.mahalanobis_distance;
    message = format (t.label ∷ r.reason ∷ []);
  })
  if_alarm now s rule facility device t r false none =
      create_alarm_event now s rule facility Severity.anomaly t.title (some device.id) none
        t.channel (format (t.label ∷ r.reason ∷ [])) (some r.mahalanobis_distance)

  unfoldable pub if_guarded :
      (ℕ → AlarmEvent F → Bool) → ℕ → Store F → Device → IfTexts → IfResult F → Store F
  unfolding if_alarm active_rule latest
  if_guarded query now s device t r = when_some device.facility s (λ facility.
      if is_unknown r.level
      then s
      else when_some (active_rule RuleType.ai s.rules) s (λ rule.
        if_alarm now s rule facility device t r (is_normal r.level)
          (latest (query rule.id) s.events)))

  -- trigger_if_anomaly_alarms; `none` is the result None.
  unfoldable pub trigger_if_anomaly_alarms : ℕ → Store F → Device → Option (IfResult F) → Store F
  unfolding if_guarded
  trigger_if_anomaly_alarms now s device none = s
  trigger_if_anomaly_alarms now s device (some r) =
      if_guarded (λ rule. open_of rule device.id) now s device gas_texts r

  -- trigger_if_anomaly_alarms_power
  unfoldable pub trigger_if_anomaly_alarms_power :
      ℕ → Store F → Device → DeviceChannel → Option (IfResult F) → Store F
  unfolding if_guarded
  trigger_if_anomaly_alarms_power now s device channel none = s
  trigger_if_anomaly_alarms_power now s device channel (some r) =
      if_guarded (λ rule e. open_of rule device.id e && on_channel channel.id e) now s device
        (power_texts channel) r
