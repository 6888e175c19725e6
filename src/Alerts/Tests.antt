-- ===== src/Alerts/Tests.antt =====
-- The theorems on pkg/alerts at an alert manager with one webhook.
use cloudflared_fips.Prelude.{
  ℕ, ◌≡◌, refl, String, true, [], ◌∷◌, Option, none, some, arith, ltb, if◌then◌else◌,
}
use cloudflared_fips.Prelude.Text.{has_prefix, trim_prefix, before_last}
use cloudflared_fips.Prelude.Assoc.{lookup, insert}
use cloudflared_fips.Audit.{AuditEvent}
use cloudflared_fips.Auth.{
  AuthMiddleware, Request, new_auth_middleware, serve_http, log_audit, is_public, extract_ip,
  is_locked_out,
}
use cloudflared_fips.Alerts.{
  AlertManager, deliveries, payload_of, cooldown_key, should_alert, cooling, on_event,
  send_with_retry,
}
use cloudflared_fips.Alerts.Cooldown.{Arrival, Spaced, alerts, alerts-Spaced}
use cloudflared_fips.Alerts.Logins.{IsLoginEvent, arrived, login_alerts-share}
use cloudflared_fips.Alerts.Retry.{Ended, send_with_retry-Ended}

abbrev manager : AlertManager
manager = record {
  webhooks = record { url = "https://hook"; events = [] } ∷ [];
  cooldowns = [];
  cooldown = 100;
}

abbrev event : String → AuditEvent
event detail = record {
  timestamp = "t";
  event_type = "auth_attempt";
  severity = "warning";
  actor = "api:10.0.0.1";
  resource = "";
  action = "login_failed";
  detail = detail;
  nist_ref = "AC-2, AC-3, AC-7";
}

abbrev arrival : ℕ → Arrival
arrival t = record { since = t; now = t; evt = event "Invalid bearer token" }

alerts-Spaced_example : Spaced 100 (alerts manager (arrival 1 ∷ arrival 50 ∷ arrival 101 ∷ []))
alerts-Spaced_example =
    alerts-Spaced manager (arrival 1 ∷ arrival 50 ∷ arrival 101 ∷ [])
      (omega arith, (omega arith, (omega arith, tt)))

-- The third attempt succeeds.
abbrev third : ℕ → Option String
third n = if ltb n 2 then some "timeout" else none

send_with_retry-Ended_example : Ended third 3 (send_with_retry third 3)
send_with_retry-Ended_example = send_with_retry-Ended third 3 (omega arith)

abbrev middleware : AuthMiddleware
unfolding new_auth_middleware
middleware = new_auth_middleware "secret" true

abbrev guess : String → Request
guess remote_addr = record {
  path = "/api/v1/compliance";
  forwarded_for = "";
  remote_addr = remote_addr;
  authorization = "Bearer guess";
}

abbrev stranger : AuditEvent
stranger = record (event "Invalid bearer token") { actor = "api:10.0.0.2" }

-- an event of another kind, which is alerted in between
abbrev changed : Arrival
changed = record {
  since = 20;
  now = 20;
  evt = record (event "") { event_type = "compliance_change"; resource = "n1" };
}

event-IsLoginEvent : IsLoginEvent (event "Invalid bearer token")
unfolding serve_http is_public has_prefix extract_ip before_last is_locked_out lookup trim_prefix
    log_audit middleware new_auth_middleware
event-IsLoginEvent = record {
  readings = record { check = 1; since = 1; now = 1 };
  request = guess "10.0.0.1:4711";
  middleware = middleware;
  logged_at = "t";
  raw = record (event "Invalid bearer token") { timestamp = "" };
  logged = refl;
  stamped = refl;
}

stranger-IsLoginEvent : IsLoginEvent stranger
unfolding serve_http is_public has_prefix extract_ip before_last is_locked_out lookup trim_prefix
    log_audit middleware new_auth_middleware
stranger-IsLoginEvent = record {
  readings = record { check = 1; since = 1; now = 1 };
  request = guess "10.0.0.2:4711";
  middleware = middleware;
  logged_at = "t";
  raw = record stranger { timestamp = "" };
  logged = refl;
  stamped = refl;
}

login_alerts-share_example :
    let cooled : AlertManager = record manager { cooldowns = ("auth_attempt:", 1) ∷ [] } in
    on_event 50 50 stranger (arrived (changed ∷ []) cooled) ≡ (arrived (changed ∷ []) cooled, none)
unfolding on_event cooling should_alert cooldown_key lookup insert
login_alerts-share_example =
    let e = event "Invalid bearer token" in
    let cooled : AlertManager = record manager { cooldowns = ("auth_attempt:", 1) ∷ [] } in
    login_alerts-share e stranger manager cooled (deliveries (payload_of e) e manager.webhooks) 1 1
      50 50 (changed ∷ []) event-IsLoginEvent stranger-IsLoginEvent refl (omega arith, tt)
      (omega arith)
