-- ===== src/Audit/Tests.antt =====
-- The theorems on pkg/audit/audit.go at a log of three events.
use cloudflared_fips.Prelude.{ℕ, ◌≡◌, String, true, List, [], ◌∷◌}
use cloudflared_fips.Prelude.Int.{pos}
use cloudflared_fips.Audit.{AuditEvent, blank, new_audit_logger, recent_events}
use cloudflared_fips.Audit.Ring.{log_all, recent_events-history}

abbrev event : String → AuditEvent
event action = record blank { timestamp = "t"; event_type = "system_event"; action = action }

abbrev three : List (String × AuditEvent)
three = ("1", event "start") ∷ ("2", event "reload") ∷ ("3", event "stop") ∷ []

recent_events-history_example :
    recent_events (pos 2) (log_all three (new_audit_logger {L = ℕ} true))
    ≡ event "stop" ∷ event "reload" ∷ []
recent_events-history_example = recent_events-history ℕ true three (pos 2)
