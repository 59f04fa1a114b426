-- ===== src/Alerts/Notices.antt =====
-- alerts/tasks.py: send_all_notifications, which hands an event to the channels unless one like it was
-- handed on in the last five minutes.
pub mod Cooldown
pub mod Policies
use icmp.Base.{
  ℕ, ◌+◌, String, Bool, true, false, ◌&&◌, ◌||◌, Option, none, some, List, [], ◌∷◌, ◌++◌, any, ltb,
  ◌==◌, if◌then◌else◌, string_eq, ◌=?◌, contains,
}
use icmp.Alerts.Types.{Severity, EventType, AlarmEvent}
use icmp.Alerts.Commands.{event_of}

-- AlarmPolicy: `channels` is split at its commas, and each name stripped.
pub record AlarmPolicy : Type 0 where
  pub event_type : String
  pub is_active : Bool
  pub channels : List String
  pub updated_at : ℕ

pub data Channel : Type 0 where
  websocket slack discord : Channel

-- The dedup key of an event, and when its entry of the cache expires.
pub record CoolingKey : Type 0 where
  pub rule : ℕ
  pub facility : ℕ
  pub severity : Severity

-- The cache, and the tasks that were queued.
pub record Notices : Type 0 where
  pub cooling : List (CoolingKey × ℕ)
  pub queued : List (Channel × ℕ)

-- timeout=300, in microseconds
abbrev pub cooldown : ℕ
cooldown = 300_000_000

abbrev pub same_severity : Severity → Severity → Bool
same_severity Severity.normal Severity.normal = true
same_severity Severity.warning Severity.warning = true
same_severity Severity.danger Severity.danger = true
same_severity Severity.anomaly Severity.anomaly = true
same_severity Severity.predictive_warning Severity.predictive_warning = true
same_severity a b = false

abbrev pub same_key : CoolingKey → CoolingKey → Bool
same_key a b = a.rule == b.rule && (a.facility == b.facility && same_severity a.severity b.severity)

abbrev pub key_of : {F : Type 0} → AlarmEvent F → CoolingKey
key_of e = record { rule = e.rule; facility = e.facility; severity = e.severity }

-- cache.get(dedup_key)
unfoldable pub is_cooling : ℕ → CoolingKey → Notices → Bool
is_cooling now key n = any (λ c. same_key c.0 key && ltb now c.1) n.cooling

-- _POLICY_EVENT_TYPE.get(event_type, '')
abbrev policy_event_type : EventType → String
policy_event_type EventType.gas_event = "가스 경보"
policy_event_type EventType.power_event = "전력 이상"
policy_event_type t = ""

unfoldable pub newer_policy : Option AlarmPolicy → AlarmPolicy → AlarmPolicy
newer_policy none p = p
newer_policy (some q) p = if ltb q.updated_at p.updated_at then p else q

unfoldable pub newest_policy : String → Option AlarmPolicy → List AlarmPolicy → Option AlarmPolicy
unfolding newer_policy
newest_policy name best [] = best
newest_policy name best (p ∷ ps) =
    let next = if (p.event_type =? name) && p.is_active then some (newer_policy best p) else best in
    newest_policy name next ps

-- `if policy_event_name: …first()`, which follows AlarmPolicy.Meta.ordering: the policy that was
-- updated last.
unfoldable pub policy_for : String → List AlarmPolicy → Option AlarmPolicy
unfolding newest_policy
policy_for name policies = if name =? "" then none else newest_policy name none policies

abbrev when : Bool → Channel → List Channel
when true c = c ∷ []
when false c = []

-- The channels of a policy, and all of them where there is none.
channels_of : Option AlarmPolicy → List Channel
unfolding contains
channels_of none = websocket ∷ slack ∷ discord ∷ []
channels_of (some p) =
    when (any (λ c. contains "관제" c || contains "실시간" c) p.channels) websocket
    ++ (when (any (λ c. c =? "Slack") p.channels) slack
        ++ when (any (λ c. c =? "Discord") p.channels) discord)

tasks : ℕ → List Channel → List (Channel × ℕ)
tasks id [] = []
tasks id (c ∷ cs) = (c, id) ∷ tasks id cs

module _ {F : Type 0} where
  -- The part of send_all_notifications for an event of the table.
  unfoldable pub dispatch : ℕ → List AlarmPolicy → AlarmEvent F → Notices → Notices
  unfolding is_cooling policy_for channels_of tasks
  dispatch now policies e n = if is_cooling now (key_of e) n then n else record {
    cooling = (key_of e, now + cooldown) ∷ n.cooling;
    queued =
        n.queued ++ tasks e.id (channels_of (policy_for (policy_event_type e.event_type) policies));
  }

  found : ℕ → List AlarmPolicy → Notices → Option (AlarmEvent F) → Notices
  unfolding dispatch
  found now policies n none = n
  found now policies n (some e) = dispatch now policies e n

  -- send_all_notifications
  unfoldable pub send_all_notifications :
      ℕ → List AlarmPolicy → List (AlarmEvent F) → ℕ → Notices → Notices
  unfolding found event_of
  send_all_notifications now policies events id n = found now policies n (event_of id events)
