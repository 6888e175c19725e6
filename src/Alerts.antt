-- ===== src/Alerts.antt =====
-- pkg/alerts/alerts.go and pkg/alerts/webhook.go: which audit events are sent to which webhooks, the
-- cooldown of an event type and resource, and the retries of one delivery. Times are nanoseconds;
-- a call takes its readings of the clock, and each attempt of a delivery its result, as arguments.
pub mod Cooldown
pub mod Logins
pub mod Retry
mod Tests
use cloudflared_fips.Prelude.{
  ℕ, zero, suc, ◌+◌, ◌*◌, ◌-◌, ◌^◌, ◌%◌, String, Bool, true, false, ◌||◌, List, [], ◌∷◌, ◌++◌,
  Option, none, some, ltb, ◌==◌, str_eq, if◌then◌else◌, length,
}
use cloudflared_fips.Prelude.Assoc.{Assoc, lookup, insert}
use cloudflared_fips.Prelude.Text.{concat}
use cloudflared_fips.Audit.{AuditEvent}

pub record WebhookConfig : Type 0 where
  pub url : String
  pub events : List String

pub record WebhookPayload : Type 0 where
  pub timestamp : String
  pub event_type : String
  pub severity : String
  pub summary : String
  pub detail : String
  pub nist_ref : String

pub record AlertManager : Type 0 where
  pub webhooks : List WebhookConfig
  pub cooldowns : Assoc ℕ
  pub cooldown : ℕ

abbrev pub minute : ℕ
minute = 60 * 1000000000

-- `NewAlertManager`; its registration with the audit logger is `add_listener`.
new_alert_manager : List WebhookConfig → AlertManager
new_alert_manager webhooks = record { webhooks = webhooks; cooldowns = []; cooldown = 5 * minute }

pub configured : AlertManager → Bool
configured am = ltb 0 (length am.webhooks)

webhook_count : AlertManager → ℕ
webhook_count am = length am.webhooks

pub should_alert : AuditEvent → Bool
should_alert evt =
    if str_eq evt.event_type "compliance_change"
    then true
    else if str_eq evt.event_type "auth_attempt"
    then str_eq evt.action "login_failed" || str_eq evt.action "lockout"
    else if str_eq evt.event_type "credential_lifecycle"
    then str_eq evt.severity "warning" || str_eq evt.severity "critical"
    else if str_eq evt.event_type "system_event"
    then str_eq evt.severity "critical"
    else false

any_event : String → List String → Bool
any_event t [] = false
any_event t (e ∷ es) = str_eq e t || any_event t es

matches_filter : WebhookConfig → AuditEvent → Bool
unfolding any_event
matches_filter wh evt = if length wh.events == 0 then true else any_event evt.event_type wh.events

pub cooldown_key : AuditEvent → String
cooldown_key evt = concat (concat evt.event_type ":") evt.resource

pub payload_of : AuditEvent → WebhookPayload
payload_of evt = record {
  timestamp = evt.timestamp;
  event_type = evt.event_type;
  severity = evt.severity;
  summary = concat (concat evt.action ": ") evt.resource;
  detail = evt.detail;
  nist_ref = evt.nist_ref;
}

-- The loop over the webhooks: the deliveries that are started, each in a goroutine of its own.
pub deliveries : WebhookPayload → AuditEvent → List WebhookConfig → List (String × WebhookPayload)
deliveries payload evt [] = []
deliveries payload evt (wh ∷ rest) =
    let others = deliveries payload evt rest in
    if matches_filter wh evt then (wh.url, payload) ∷ others else others

-- `ok && time.Since(last) < am.cooldown`
pub cooling : ℕ → String → AlertManager → Bool
cooling since key am = elim (lookup key am.cooldowns) [
  | none ↦ false
  | some last ↦ ltb since (last + am.cooldown)
]

-- `onEvent`: the reading of `time.Since`, then that of `time.Now`; the answer is `none` where the
-- event is dropped.
pub on_event :
    ℕ → ℕ → AuditEvent → AlertManager → AlertManager × Option (List (String × WebhookPayload))
on_event since now evt am =
    let key = cooldown_key evt in
    if should_alert evt
    then (if cooling since key am then (am, none) else (
      record am { cooldowns = insert key now am.cooldowns },
      some (deliveries (payload_of evt) evt am.webhooks),
    ))
    else (am, none)

-- What `sendWebhookWithRetry` does: the results of its attempts come from `send`, by attempt.
pub record RetryRun : Type 0 where
  pub attempts : ℕ
  pub sleeps : List ℕ
  pub error : Option String

-- `time.Duration(1<<uint(attempt-1)) * time.Second`, by the shift: nanoseconds in 64 bits with a sign,
-- which wrap; `time.Sleep` of a negative number returns at once.
pub sleep_for : ℕ → ℕ
sleep_for shift = let d = 2 ^ shift * 1000000000 % 2 ^ 64 in if ltb d (2 ^ 63) then d else 0

-- the loop, with the rounds left and the state before the attempt
retry_loop : (ℕ → Option String) → ℕ → ℕ → RetryRun → RetryRun
retry_loop send zero attempt run = run
retry_loop send (suc rounds) attempt run =
    let slept = if ltb 0 attempt then run.sleeps ++ sleep_for (attempt - 1) ∷ [] else run.sleeps in
    let run' : RetryRun = record {
      attempts = run.attempts + 1;
      sleeps = slept;
      error = send attempt;
    } in
    elim (send attempt) [ none ↦ run' | some e ↦ retry_loop send rounds (attempt + 1) run' ]

pub send_with_retry : (ℕ → Option String) → ℕ → RetryRun
unfolding retry_loop
send_with_retry send max_retries =
    retry_loop send max_retries 0 (record { attempts = 0; sleeps = []; error = none })
