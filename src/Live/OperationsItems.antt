-- ===== src/Live/OperationsItems.antt =====
-- The literals of the items in internal/compliance/live.go, for the security operations.
use cloudflared_fips.Compliance.{ChecklistItem}
use cloudflared_fips.Compliance.Items.{unset}

abbrev pub audit_log_active_item : ChecklistItem
audit_log_active_item =
    unset "so-1" "Audit Log Active" "critical" "direct"
      "Checks that the audit log file is writable and actively recording events"
      "NIST AU-2/AU-3 require auditable events to be recorded. Without an active audit log, compliance actions cannot be tracked."
      "Start the dashboard with --audit-log /var/log/cloudflared-fips/audit.json" "AU-2, AU-3"

abbrev pub dashboard_auth_item : ChecklistItem
dashboard_auth_item =
    unset "so-2" "Dashboard Authentication" "high" "direct"
      "Checks whether Bearer token authentication is enabled for the dashboard API"
      "AC-2/AC-3 require access control on management interfaces. Without auth, any local process can query or modify compliance data."
      "Set --dashboard-token or DASHBOARD_TOKEN environment variable" "AC-2, AC-3"

abbrev pub failed_auth_monitoring_item : ChecklistItem
failed_auth_monitoring_item =
    unset "so-3" "Failed Auth Monitoring" "high" "direct"
      "Checks that failed authentication attempts are logged and lockout is active"
      "AC-7 requires automated account lockout after repeated failures. SI-4 requires monitoring and alerting on security events."
      "Enable both --dashboard-token and --audit-log for full auth monitoring with lockout"
      "AC-7, SI-4"

abbrev pub alerting_configured_item : ChecklistItem
alerting_configured_item =
    unset "so-4" "Alerting Configured" "medium" "direct"
      "Checks whether webhook alerting is configured for compliance events"
      "CA-7 requires continuous monitoring with notification. SI-4 requires automated alerts on security events."
      "Set --alert-webhook to one or more webhook URLs (e.g., Slack, PagerDuty, SIEM)" "CA-7, SI-4"

abbrev pub secrets_at_rest_item : ChecklistItem
secrets_at_rest_item =
    unset "so-5" "Secrets at Rest" "critical" "direct"
      "Checks that secret files (tokens, keys, certificates) have restricted permissions (not world-readable)"
      "SC-28 requires protection of information at rest. World-readable secret files allow any local user to steal credentials."
      "chmod 0640 on all secret files; chown to cloudflared-fips user/group" "SC-28, SC-12"

abbrev pub tunnel_token_expiry_item : ChecklistItem
tunnel_token_expiry_item =
    unset "so-6" "Tunnel Token Expiry" "high" "direct"
      "Checks if the tunnel authentication token is approaching expiry"
      "SC-12/IA-5 require credential lifecycle management. An expired token causes tunnel outage."
      "Rotate the tunnel token via Cloudflare dashboard or API before expiry" "SC-12, IA-5"

abbrev pub tls_cert_expiry_item : ChecklistItem
tls_cert_expiry_item =
    unset "so-7" "TLS Certificate Expiry" "critical" "direct"
      "Checks that all configured TLS certificates are valid and not approaching expiry"
      "SC-12/IA-5 require credential lifecycle management. Expired certificates cause service outages and break TLS."
      "Renew certificates before expiry. Automate renewal with certbot/ACME." "SC-12, IA-5"

abbrev pub fleet_token_age_item : ChecklistItem
fleet_token_age_item =
    unset "so-8" "Fleet Token Age" "medium" "direct"
      "Checks the age of fleet enrollment tokens for credential rotation compliance"
      "SC-12/IA-5 require periodic credential rotation. Long-lived tokens increase the risk of compromise."
      "Rotate fleet enrollment tokens every 90 days via the fleet API" "SC-12, IA-5"

abbrev pub upstream_integrity_item : ChecklistItem
upstream_integrity_item =
    unset "so-9" "Upstream cloudflared Integrity" "high" "direct"
      "Verifies the upstream cloudflared binary against a known-good SHA-256 checksum"
      "SI-7 requires software integrity verification. A modified upstream binary could bypass FIPS crypto."
      "Download cloudflared from the official Cloudflare release page and verify its checksum"
      "SI-7, SA-11"

abbrev pub log_forwarding_item : ChecklistItem
log_forwarding_item =
    unset "so-10" "Log Forwarding (SIEM)" "high" "direct"
      "Checks whether audit logs are forwarded to an external SIEM via syslog"
      "AU-4/AU-9 require audit log storage with integrity protection. Forwarding to a SIEM prevents local log tampering."
      "Set --syslog-addr to forward audit events (e.g., --syslog-addr tcp://siem:514)" "AU-4, AU-9"

abbrev pub audit_log_integrity_item : ChecklistItem
audit_log_integrity_item =
    unset "so-11" "Audit Log Integrity" "high" "direct"
      "Checks audit log file permissions to prevent unauthorized modification"
      "AU-9 requires protection of audit information. World-readable or writable logs can be tampered with."
      "chmod 0640 on audit log files; chown to cloudflared-fips:cloudflared-fips" "AU-9"

abbrev pub compliance_scan_recent_item : ChecklistItem
compliance_scan_recent_item =
    unset "so-12" "Compliance Scan Recent" "medium" "direct"
      "Checks when the last compliance scan was performed"
      "CA-7 requires continuous monitoring. Stale compliance data may not reflect current system state."
      "The dashboard performs scans on every page load and SSE refresh (30s). If this check fails, the dashboard may not be running."
      "CA-7"

abbrev pub security_policy_enforced_item : ChecklistItem
security_policy_enforced_item =
    unset "so-13" "Security Policy Enforced" "high" "direct"
      "Checks the security policy enforcement mode (enforce, audit, or disabled)"
      "PL-1 requires security policy implementation. Audit mode logs but does not block; disabled mode provides no protection."
      "Set enforcement_mode: enforce in config or --enforcement-mode enforce on CLI" "PL-1"
