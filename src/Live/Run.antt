-- ===== src/Live/Run.antt =====
-- The four sections of internal/compliance/live.go. A check that panics, which is none, leaves no
-- section.
use cloudflared_fips.Prelude.{ℕ, String, List, [], ◌∷◌, Option, none, some}
use cloudflared_fips.Compliance.{ChecklistItem, Section}
use cloudflared_fips.Live.{System, LiveChecker}
use cloudflared_fips.Live.Tunnel.{
  check_boring_crypto_active, check_os_fips_mode, check_fips_self_test, check_tunnel_protocol,
  check_tls_version, check_cipher_suites, check_key_exchange, check_certificate_validity,
  check_tunnel_redundancy, check_binary_integrity, check_config_drift, check_fips_backend,
}
use cloudflared_fips.Live.Service.{
  check_local_tls_enabled, check_local_cipher_suite, check_local_certificate_valid,
  check_service_reachable, check_build_manifest_present, check_sbom_present,
  check_reproducible_build, check_signature_valid, check_fips_certs_listed, check_upstream_version,
  check_fips_module_sunset,
}
use cloudflared_fips.Live.Operations.{
  check_audit_log_active, check_dashboard_auth, check_failed_auth_monitoring,
  check_alerting_configured, check_upstream_integrity, check_log_forwarding,
  check_audit_log_integrity, check_compliance_scan_recent, check_security_policy_enforced,
}
use cloudflared_fips.Live.Credentials.{
  check_secrets_at_rest, check_tunnel_token_expiry, check_tls_cert_expiry, check_fleet_token_age,
}

abbrev section : String → String → String → List ChecklistItem → Section
section id name description items = record {
  id = id;
  name = name;
  description = description;
  items = items;
}

run_tunnel_checks : System → LiveChecker → Option Section
run_tunnel_checks s lc = elim (check_binary_integrity s lc) [
  | none ↦ none
  | some integrity ↦ some (
      section "tunnel" "Tunnel — cloudflared"
        "Segment 2 — Cloudflare Edge to cloudflared tunnel daemon (FIPS crypto)"
        (check_boring_crypto_active s
          ∷ check_os_fips_mode s
          ∷ check_fips_self_test s
          ∷ check_tunnel_protocol s lc
          ∷ check_tls_version
          ∷ check_cipher_suites s
          ∷ check_key_exchange
          ∷ check_certificate_validity s
          ∷ check_tunnel_redundancy s lc
          ∷ integrity
          ∷ check_config_drift s lc
          ∷ check_fips_backend s
          ∷ []))
]

run_local_service_checks : System → LiveChecker → Section
run_local_service_checks s lc =
    section "local" "Local Service" "Segment 3 — cloudflared to local origin service" (
      check_local_tls_enabled s lc
      ∷ check_local_cipher_suite s lc
      ∷ check_local_certificate_valid s lc
      ∷ check_service_reachable s lc
      ∷ [])

run_build_supply_chain_checks : System → LiveChecker → Section
run_build_supply_chain_checks s lc =
    section "build" "Build & Supply Chain"
      "Build provenance, integrity, and supply chain verification"
      (check_build_manifest_present s lc
        ∷ check_sbom_present s
        ∷ check_reproducible_build s
        ∷ check_signature_valid s lc
        ∷ check_fips_certs_listed s lc
        ∷ check_upstream_version s lc
        ∷ check_fips_module_sunset s
        ∷ [])

abbrev operations : System → LiveChecker → ChecklistItem → LiveChecker → ChecklistItem → Section
operations s lc expiry found upstream =
    section "security-ops" "Security Operations"
      "Audit logging, authentication, alerting, credential lifecycle, and policy enforcement (AU, AC, CA, SI, SC, PL controls)"
      (check_audit_log_active lc
        ∷ check_dashboard_auth lc
        ∷ check_failed_auth_monitoring lc
        ∷ check_alerting_configured lc
        ∷ check_secrets_at_rest s lc
        ∷ expiry
        ∷ check_tls_cert_expiry s found
        ∷ check_fleet_token_age s
        ∷ upstream
        ∷ check_log_forwarding found
        ∷ check_audit_log_integrity s found
        ∷ check_compliance_scan_recent s found
        ∷ check_security_policy_enforced found
        ∷ [])

-- The run stamps the checker with the time it starts, before any check; the token's path is kept.
unfoldable pub run_security_ops_checks : ℕ → System → LiveChecker → Option Section × LiveChecker
run_security_ops_checks start s lc =
    let stamped : LiveChecker = record lc { last_scan_time = some start } in
    let (expiry, found) = check_tunnel_token_expiry s stamped in
    (
      elim (check_upstream_integrity s found) [
        | none ↦ none
        | some upstream ↦ some (operations s stamped expiry found upstream)
      ],
      found,
    )
