-- ===== src/Live/Operations.antt =====
-- The checks of internal/compliance/live.go on logging, access, alerts and policy.
use cloudflared_fips.Prelude.{
  ℕ, ◌-◌, ◌/◌, ◌%◌, String, Bool, true, false, ◌&&◌, [], ◌∷◌, Option, none, some, str_eq, ltb,
  if◌then◌else◌,
}
use cloudflared_fips.Prelude.Results.{Result, ok, err}
use cloudflared_fips.Prelude.Text.{concat, decimal}
use cloudflared_fips.Compliance.{pass, fail, warning, unknown, ChecklistItem}
use cloudflared_fips.Compliance.Items.{mark}
use cloudflared_fips.Live.{System, LiveChecker, FileInfo, first_found}
use cloudflared_fips.Live.OperationsItems.{
  audit_log_active_item, dashboard_auth_item, failed_auth_monitoring_item, alerting_configured_item,
  upstream_integrity_item, log_forwarding_item, audit_log_integrity_item,
  compliance_scan_recent_item, security_policy_enforced_item,
}
use cloudflared_fips.Live.Tunnel.{short_hash, with_short, mismatch}

pub check_audit_log_active : LiveChecker → ChecklistItem
check_audit_log_active lc = elim lc.audit_logger [
  | none ↦ mark fail "No audit logger configured" audit_log_active_item
  | some al ↦
      if al.has_events
      then mark pass (concat "Audit log active: " al.file_path) audit_log_active_item
      else mark warning (concat "Audit log exists but empty: " al.file_path) audit_log_active_item
]

pub check_dashboard_auth : LiveChecker → ChecklistItem
check_dashboard_auth lc =
    if lc.auth_enabled
    then mark pass "Dashboard API authentication enabled (Bearer token)" dashboard_auth_item
    else mark warning "Dashboard API in open mode (localhost-only, no token required)"
        dashboard_auth_item

abbrev has_logger : LiveChecker → Bool
has_logger lc = elim lc.audit_logger [ none ↦ false | some _ ↦ true ]

pub check_failed_auth_monitoring : LiveChecker → ChecklistItem
check_failed_auth_monitoring lc =
    if lc.auth_enabled && has_logger lc
    then mark pass
        "Auth + audit logging active; failed attempts logged with IP lockout (5 attempts / 5 min)"
        failed_auth_monitoring_item
    else if has_logger lc
    then mark warning "Audit logging active but auth disabled — no failed attempts to monitor"
        failed_auth_monitoring_item
    else mark warning "No auth monitoring configured (enable --dashboard-token and --audit-log)"
        failed_auth_monitoring_item

-- An alert manager is configured where it has a webhook.
pub check_alerting_configured : LiveChecker → ChecklistItem
check_alerting_configured lc = elim lc.webhooks [
  | none ↦
      mark warning "No webhooks configured (alerts logged only, no external notification)"
        alerting_configured_item
  | some n ↦
      if ltb 0 n
      then mark pass (concat "Alerting active: " (concat (decimal n) " webhook(s) configured"))
          alerting_configured_item
      else mark warning "No webhooks configured (alerts logged only, no external notification)"
          alerting_configured_item
]

-- The hash of the binary against the expected one; none is a panic.
unfoldable pub compare_upstream : String → String → Option ChecklistItem
compare_upstream hash expected =
    if str_eq hash expected
    then with_short (short_hash hash)
        (λ h. mark pass (concat "Upstream cloudflared verified: " h) upstream_integrity_item)
    else mismatch "Hash mismatch: got " (short_hash hash) (short_hash expected)
        upstream_integrity_item

abbrev pub upstream_at : System → LiveChecker → String → Option ChecklistItem
upstream_at s lc path =
    if str_eq lc.upstream_checksum ""
    then some (
        mark warning
          (concat "cloudflared found at "
            (concat path " but no expected checksum configured (use --upstream-checksum)"))
          upstream_integrity_item)
    else elim (s.read_hash path) [
      | err e ↦ some (
          mark unknown (concat "Cannot read " (concat path (concat ": " e)))
            upstream_integrity_item)
      | ok hash ↦ compare_upstream hash lc.upstream_checksum
    ]

unfoldable pub check_upstream_integrity : System → LiveChecker → Option ChecklistItem
check_upstream_integrity s lc =
    elim (first_found s ("/usr/local/bin/cloudflared" ∷ "/usr/bin/cloudflared" ∷ [])) [
      | none ↦ some (
          mark unknown "Upstream cloudflared binary not found at standard paths"
            upstream_integrity_item)
      | some path ↦ upstream_at s lc path
    ]

pub check_log_forwarding : LiveChecker → ChecklistItem
check_log_forwarding lc = elim lc.audit_logger [
  | none ↦ mark fail "No audit logging configured" log_forwarding_item
  | some al ↦
      if al.syslog_active
      then mark pass "Audit events forwarded to syslog (SIEM integration active)"
          log_forwarding_item
      else mark warning "Audit log active but no syslog forwarding (local log only)"
          log_forwarding_item
]

abbrev octal_digit : ℕ → String
octal_digit n = decimal (n % 8)

-- `%04o` of permission bits, which are below 01000
abbrev octal4 : ℕ → String
octal4 n = concat "0" (concat (octal_digit (n / 64)) (concat (octal_digit (n / 8)) (octal_digit n)))

-- The tests on the bits: `perm&0o007 != 0` looks at what others may do, and `perm > 0o640`
-- compares the numbers.
unfoldable pub judge_log_perm : ℕ → ChecklistItem
judge_log_perm perm =
    if ltb 0 (perm % 8)
    then mark fail
        (concat "Audit log is world-accessible: "
          (concat (octal4 perm) " (must be 0640 or stricter)"))
        audit_log_integrity_item
    else if ltb 416 perm
    then mark warning
        (concat "Audit log permissions " (concat (octal4 perm) " wider than recommended 0640"))
        audit_log_integrity_item
    else mark pass (concat "Audit log permissions: " (octal4 perm)) audit_log_integrity_item

abbrev log_stat : Result FileInfo → ChecklistItem
log_stat (err e) = mark warning (concat "Cannot stat audit log: " e) audit_log_integrity_item
log_stat (ok i) = judge_log_perm i.perm

pub check_audit_log_integrity : System → LiveChecker → ChecklistItem
check_audit_log_integrity s lc = elim lc.audit_logger [
  | none ↦ mark warning "No audit logger configured" audit_log_integrity_item
  | some al ↦
      if str_eq al.file_path ""
      then mark warning "Audit log path not available" audit_log_integrity_item
      else log_stat (s.stat al.file_path)
]

unfoldable pub check_compliance_scan_recent : System → LiveChecker → ChecklistItem
check_compliance_scan_recent s lc = elim lc.last_scan_time [
  | none ↦ mark warning "No scan timestamp recorded" compliance_scan_recent_item
  | some at ↦
      let age = s.now - at in
      if ltb 1800 age
      then mark fail
          (concat "Last scan was " (concat (decimal (age / 60)) " minutes ago (>30 min)"))
          compliance_scan_recent_item
      else if ltb 300 age
      then mark warning (concat "Last scan was " (concat (decimal (age / 60)) " minutes ago"))
          compliance_scan_recent_item
      else mark pass (concat "Last scan: " (s.format_time at)) compliance_scan_recent_item
]

pub check_security_policy_enforced : LiveChecker → ChecklistItem
check_security_policy_enforced lc =
    let mode = if str_eq lc.enforcement_mode "" then "audit" else lc.enforcement_mode in
    if str_eq mode "enforce"
    then mark pass "Security policy enforcement: ENFORCE (non-compliant requests blocked)"
        security_policy_enforced_item
    else if str_eq mode "audit"
    then mark warning "Security policy enforcement: AUDIT (violations logged but not blocked)"
        security_policy_enforced_item
    else if str_eq mode "disabled"
    then mark warning "Security policy enforcement: DISABLED (no policy enforcement active)"
        security_policy_enforced_item
    else mark unknown (concat "Unknown enforcement mode: " mode) security_policy_enforced_item
