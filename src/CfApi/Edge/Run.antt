-- ===== src/CfApi/Edge/Run.antt =====
-- `RunEdgeChecks` of pkg/cfapi/checker.go: each check asks the client, one after the other.
use cloudflared_fips.Prelude.{ℕ, String, ◌||◌, List, [], ◌∷◌, Option, str_eq, if◌then◌else◌}
use cloudflared_fips.Prelude.Results.{Result}
use cloudflared_fips.Compliance.{unknown, ChecklistItem, Section}
use cloudflared_fips.Compliance.Items.{mark, mark_status}
use cloudflared_fips.CfApi.{Client, Call, Wire}
use cloudflared_fips.CfApi.Zone.{
  Codec, get_min_tls_version, get_ciphers, get_security_header, get_certificate_packs,
  get_access_apps, get_tunnel, get_keyless_ssl_configs, get_regional_tiered_cache,
}
use cloudflared_fips.CfApi.Items.{auth_method_item, mfa_enforced_item, tunnel_health_item}
use cloudflared_fips.CfApi.Edge.{
  access_policy, identity_provider, cipher_restriction, min_tls_version, edge_certificate, hsts,
  tunnel_health, keyless_ssl, regional_services,
}

-- the client is passed beside it
pub record ComplianceChecker : Type 0 where
  pub zone_id : String
  pub account_id : String
  pub tunnel_id : String

abbrev pub Check : Type 0
Check = Client → ChecklistItem × Client

abbrev pub judging {ℓ} : {A : Type ℓ} → Call A → (Result A → ChecklistItem) → Check
judging call judge c = let (got, next) = call c in (judge got, next)

abbrev stating : ChecklistItem → Check
stating item c = (item, c)

unfoldable pub run_checks : List Check → Client → List ChecklistItem × Client
run_checks [] c = ([], c)
run_checks (check ∷ checks) c =
    let (item, next) = check c in let (items, end) = run_checks checks next in (item ∷ items, end)

-- The clock and the network differ from check to check. The decoders and `time.Parse` are Go's.
module _ (j : Codec) (parse_time : String → Option ℕ) (wire : ℕ → Wire) where
  abbrev pub check_tunnel_health : ComplianceChecker → Check
  check_tunnel_health cc =
      if str_eq cc.account_id "" || str_eq cc.tunnel_id ""
      then stating (mark unknown "Account ID or Tunnel ID not configured" tunnel_health_item)
      else judging (get_tunnel j (wire 6) cc.account_id cc.tunnel_id) tunnel_health

  abbrev pub edge_checks : ComplianceChecker → List Check
  edge_checks cc =
      judging (get_access_apps j (wire 0) cc.zone_id) access_policy
      ∷ judging (get_access_apps j (wire 1) cc.zone_id) identity_provider
      ∷ stating (mark_status unknown auth_method_item)
      ∷ stating (mark_status unknown mfa_enforced_item)
      ∷ judging (get_ciphers j (wire 2) cc.zone_id) cipher_restriction
      ∷ judging (get_min_tls_version j (wire 3) cc.zone_id) min_tls_version
      ∷ judging (get_certificate_packs j (wire 4) cc.zone_id)
          (edge_certificate parse_time (wire 4).later)
      ∷ judging (get_security_header j (wire 5) cc.zone_id) hsts
      ∷ check_tunnel_health cc
      ∷ judging (get_keyless_ssl_configs j (wire 7) cc.zone_id) keyless_ssl
      ∷ judging (get_regional_tiered_cache j (wire 8) cc.zone_id) regional_services
      ∷ []

  unfoldable pub run_edge_checks : ComplianceChecker → Client → Section × Client
  run_edge_checks cc c =
      let (items, next) = run_checks (edge_checks cc) c in
      (
        record {
          id = "edge";
          name = "Cloudflare Edge";
          description = "Cloudflare Access, Gateway, and edge TLS configuration";
          items = items;
        },
        next,
      )
