-- ===== src/CfApi/Edge.antt =====
-- pkg/cfapi/checker.go: the section "Cloudflare Edge" of a report, from what the API answers.
pub mod Run
pub mod Failing
pub mod Closed
use cloudflared_fips.Prelude.{
  ℕ, zero, suc, ◌+◌, ◌-◌, ◌*◌, ◌/◌, ◌≡◌, String, Bool, true, false, not, ◌&&◌, ◌||◌, List, [], ◌∷◌,
  ◌++◌, Option, none, some, length, str_eq, ltb, ◌==◌, if◌then◌else◌,
}
use cloudflared_fips.Prelude.Results.{Result, ok, err}
use cloudflared_fips.Prelude.Text.{concat, decimal, to_upper}
use cloudflared_fips.Compliance.{Status, pass, fail, warning, unknown, ChecklistItem, Section}
use cloudflared_fips.Compliance.Items.{mark, mark_status, is_empty}
use cloudflared_fips.CfApi.{Client, Wire}
use cloudflared_fips.CfApi.Zone.{
  Codec, StrictTransportSecurity, CertificatePack, AccessApp, TunnelConnection, TunnelInfo,
  KeylessSslConfig, get_min_tls_version, get_ciphers, get_security_header, get_certificate_packs,
  get_access_apps, get_tunnel, get_keyless_ssl_configs, get_regional_tiered_cache,
}
use cloudflared_fips.CfApi.Items.{
  access_policy_item, identity_provider_item, auth_method_item, mfa_enforced_item,
  cipher_restriction_item, min_tls_version_item, edge_certificate_item, hsts_item,
  tunnel_health_item, keyless_ssl_item, regional_services_item,
}

pub access_policy : Result (List AccessApp) → ChecklistItem
access_policy (err e) = mark unknown (concat "Cannot query Access API: " e) access_policy_item
access_policy (ok apps) =
    if ltb 0 (length apps)
    then mark pass (concat (decimal (length apps)) " Access application(s) configured")
        access_policy_item
    else mark fail "No Access applications found" access_policy_item

pub identity_provider : Result (List AccessApp) → ChecklistItem
identity_provider (err e) = mark_status unknown identity_provider_item
identity_provider (ok apps) =
    if ltb 0 (length apps)
    then mark pass "Identity provider configured (Access apps require IdP)" identity_provider_item
    else mark unknown "No Access apps configured; cannot determine IdP status"
        identity_provider_item

abbrev fips_ciphers : List String
fips_ciphers =
    "ECDHE-RSA-AES128-GCM-SHA256" ∷ "ECDHE-RSA-AES256-GCM-SHA384" ∷ "ECDHE-ECDSA-AES128-GCM-SHA256"
    ∷ "ECDHE-ECDSA-AES256-GCM-SHA384" ∷ "AES128-GCM-SHA256" ∷ "AES256-GCM-SHA384"
    ∷ "ECDHE-RSA-AES128-SHA256" ∷ "ECDHE-ECDSA-AES128-SHA256" ∷ "TLS_AES_128_GCM_SHA256"
    ∷ "TLS_AES_256_GCM_SHA384" ∷ []

-- The listed names are in capitals already.
is_listed : String → List String → Bool
is_listed name [] = false
is_listed name (c ∷ ciphers) =
    let rest = is_listed name ciphers in if str_eq c name then true else rest

pub is_fips_cipher_name : String → Bool
unfolding is_listed
is_fips_cipher_name name = is_listed (to_upper name) fips_ciphers

unfoldable pub all_fips : List String → Bool
all_fips [] = true
all_fips (c ∷ ciphers) =
    let rest = all_fips ciphers in if is_fips_cipher_name c then rest else false

pub cipher_restriction : Result (List String) → ChecklistItem
cipher_restriction (err e) =
    mark unknown (concat "Cannot query cipher settings: " e) cipher_restriction_item
cipher_restriction (ok ciphers) =
    if ltb 0 (length ciphers)
    then (if all_fips ciphers
        then mark pass
            (concat (decimal (length ciphers)) " cipher(s) configured, all FIPS-approved")
            cipher_restriction_item
        else mark warning
            (concat (decimal (length ciphers))
              " cipher(s) configured, some may not be FIPS-approved")
            cipher_restriction_item)
    else mark warning "No custom cipher restriction; Cloudflare defaults include non-FIPS ciphers"
        cipher_restriction_item

pub min_tls_version : Result String → ChecklistItem
min_tls_version (err e) =
    mark unknown (concat "Cannot query min TLS version: " e) min_tls_version_item
min_tls_version (ok version) =
    if str_eq version "1.2" || str_eq version "1.3"
    then mark pass (concat "Minimum TLS version: " version) min_tls_version_item
    else if str_eq version "1.1"
    then mark fail "Minimum TLS version 1.1 — must be 1.2 or higher for FIPS" min_tls_version_item
    else if str_eq version "1.0"
    then mark fail "Minimum TLS version 1.0 — must be 1.2 or higher for FIPS" min_tls_version_item
    else mark warning (concat "Unknown TLS version: " version) min_tls_version_item

-- one day, where times are in nanoseconds
abbrev pub day : ℕ
day = 86400 * 1000000000

-- An expiry that `time.Parse` refuses leaves the zero time, from which `time.Until` is its least
-- value, -106751 days; `day` divides what is left of any other expiry.
abbrev expiring : String → CertificatePack → ChecklistItem
expiring days_left pack =
    mark warning (concat "Certificate expires in " (concat days_left " days")) edge_certificate_item

abbrev active : CertificatePack → ChecklistItem
active pack = mark pass (concat "Active certificate (" (concat pack.kind ")")) edge_certificate_item

abbrev by_expiry : ℕ → CertificatePack → Option ℕ → ChecklistItem
by_expiry now pack none = expiring "-106751" pack
by_expiry now pack (some expiry) =
    if ltb expiry now
    then mark fail (concat "Certificate expired: " pack.certificate_expiry) edge_certificate_item
    else if ltb ((expiry - now) / day) 30
    then expiring (decimal ((expiry - now) / day)) pack
    else active pack

module _ (parse_time : String → Option ℕ) where
  pub judge_pack : ℕ → CertificatePack → ChecklistItem
  judge_pack now pack =
      if str_eq pack.certificate_expiry ""
      then active pack
      else by_expiry now pack (parse_time pack.certificate_expiry)

  -- the loop, which the first active pack ends
  pub first_active : ℕ → List CertificatePack → ChecklistItem
  first_active now [] = mark warning "No active certificate pack found" edge_certificate_item
  first_active now (pack ∷ packs) =
      let rest = first_active now packs in
      if str_eq pack.status "active" then judge_pack now pack else rest

  pub edge_certificate : ℕ → Result (List CertificatePack) → ChecklistItem
  edge_certificate now (err e) =
      mark unknown (concat "Cannot query certificates: " e) edge_certificate_item
  edge_certificate now (ok []) = mark fail "No certificate packs found" edge_certificate_item
  edge_certificate now (ok (pack ∷ packs)) = first_active now (pack ∷ packs)

-- `%v` of a Boolean
abbrev bool_text : Bool → String
bool_text b = if b then "true" else "false"

pub hsts : Result StrictTransportSecurity → ChecklistItem
hsts (err e) = mark unknown (concat "Cannot query HSTS settings: " e) hsts_item
hsts (ok header) =
    if header.enabled
    then mark pass
        (concat "HSTS enabled (max-age=" (
          concat (decimal header.max_age) (
            concat ", includeSubdomains=" (
              concat (bool_text header.include_subdomains)
                (concat ", preload=" (concat (bool_text header.preload) ")"))))))
        hsts_item
    else mark fail "HSTS is not enabled" hsts_item

count_active : List TunnelConnection → ℕ
count_active [] = 0
count_active (conn ∷ connections) =
    let rest = count_active connections in if conn.is_active then rest + 1 else rest

pub tunnel_health : Result TunnelInfo → ChecklistItem
tunnel_health (err e) = mark unknown (concat "Cannot query tunnel: " e) tunnel_health_item
tunnel_health (ok tunnel) =
    if str_eq tunnel.status "healthy"
    then mark pass
        (concat "Tunnel healthy: "
          (concat (decimal (count_active tunnel.connections)) " active connection(s)"))
        tunnel_health_item
    else if str_eq tunnel.status "degraded"
    then mark warning "Tunnel degraded — some connections may be down" tunnel_health_item
    else mark fail (concat "Tunnel status: " tunnel.status) tunnel_health_item

count_enabled : List KeylessSslConfig → ℕ
count_enabled [] = 0
count_enabled (config ∷ configs) =
    let rest = count_enabled configs in
    if str_eq config.status "active" && config.enabled then rest + 1 else rest

pub keyless_ssl : Result (List KeylessSslConfig) → ChecklistItem
keyless_ssl (err e) = mark unknown (concat "Cannot query Keyless SSL config: " e) keyless_ssl_item
keyless_ssl (ok configs) =
    let active_count = count_enabled configs in
    if ltb 0 active_count
    then mark pass
        (concat "Keyless SSL active: "
          (concat (decimal active_count) " configuration(s). Private keys remain in customer HSM."))
        keyless_ssl_item
    else if ltb 0 (length configs)
    then mark warning "Keyless SSL configurations exist but none are active/enabled"
        keyless_ssl_item
    else mark warning
        "Keyless SSL not configured. Private keys are managed by Cloudflare (Tier 1 architecture). For FIPS 140 Level 3, deploy Keyless SSL with an HSM."
        keyless_ssl_item

pub regional_services : Result Bool → ChecklistItem
regional_services (err e) =
    mark unknown (concat "Cannot query Regional Services status: " e) regional_services_item
regional_services (ok enabled) =
    if enabled
    then mark pass "Regional Services enabled — TLS processing restricted to compliant data centers"
        regional_services_item
    else mark warning
        "Regional Services not enabled. Traffic may be processed at any Cloudflare data center worldwide."
        regional_services_item
