-- ===== src/Deployment.antt =====
-- pkg/deployment/tier.go: the three tiers, their names and what they promise.
mod Tests
use cloudflared_fips.Prelude.{
  ℕ, ◌≡◌, refl, String, Bool, true, false, ◌||◌, Option, str_eq, if◌then◌else◌,
}
use cloudflared_fips.Prelude.Results.{Result, ok, err}
use cloudflared_fips.Prelude.Text.{concat, to_lower, trim_space}

-- A Go string type: `other` is any text that is none of the three constants.
pub data Tier : Type 0 where
  standard regional_keyless self_hosted : Tier
  other : String → Tier

-- The quoted text of the error is `%q` of the input, which `quote` stands for.
pub parse_tier : (String → String) → String → Result Tier
parse_tier quote s =
    let t = to_lower (trim_space s) in
    if str_eq t "standard" || str_eq t "1" || str_eq t "tier1"
    then ok standard
    else if str_eq t "regional_keyless"
        || str_eq t "regional-keyless"
        || str_eq t "2"
        || str_eq t "tier2"
    then ok regional_keyless
    else if str_eq t "self_hosted" || str_eq t "self-hosted" || str_eq t "3" || str_eq t "tier3"
    then ok self_hosted
    else err (
        concat "unknown deployment tier: "
          (concat (quote s) " (valid: standard, regional_keyless, self_hosted)"))

pub record TierInfo : Type 0 where
  pub tier : Tier
  pub name : String
  pub description : String
  pub edge_verification : String
  pub key_management : String
  pub client_inspection : String
  pub fedramp_dependency : Bool
  pub cloudflare_optional : Bool
  pub symmetric_proxy : Bool

pub get_tier_info : Tier → TierInfo
get_tier_info standard = record {
  tier = standard;
  name = "Standard Cloudflare Tunnel";
  description =
      "Direct tunnel to Cloudflare edge. Edge crypto relies on Cloudflare's FedRAMP Moderate authorization.";
  edge_verification = "inherited";
  key_management = "Cloudflare-managed (edge key storage)";
  client_inspection = "Limited (Cloudflare logs, no ClientHello access)";
  fedramp_dependency = true;
  cloudflare_optional = false;
  symmetric_proxy = false;
}
get_tier_info regional_keyless = record {
  tier = regional_keyless;
  name = "Cloudflare FIPS 140 Level 3 (Keyless SSL + HSM)";
  description =
      "Cloudflare's official FIPS 140 Level 3 reference architecture. Tunnel carries both application traffic and Keyless SSL key operations. Private keys remain in customer's FIPS 140-2 Level 3 HSM via PKCS#11. Regional Services restricts processing to FedRAMP US data centers.";
  edge_verification = "api + inherited";
  key_management = "Customer HSM (FIPS 140-2 L3) via Keyless SSL + PKCS#11";
  client_inspection = "Limited (Cloudflare logs, no ClientHello access)";
  fedramp_dependency = true;
  cloudflare_optional = false;
  symmetric_proxy = false;
}
get_tier_info self_hosted = record {
  tier = self_hosted;
  name = "Per-Site FIPS Gateway";
  description =
      "FIPS-validated per-site gateway replaces hardware appliances. Client-facing TLS termination with BoringCrypto. Symmetric architecture: site proxy (client edge) mirrors controller (origin edge). Optional Cloudflare tunnel for remote access and WAF/CDN. Zero trust — all hops use FIPS TLS, including localhost.";
  edge_verification = "direct";
  key_management = "Customer-managed (local cert + key, or HSM)";
  client_inspection = "Full (TLS ClientHello analysis, JA4, cipher logging)";
  fedramp_dependency = false;
  cloudflare_optional = true;
  symmetric_proxy = true;
}
get_tier_info (other text) = record {
  tier = other text;
  name = "Unknown";
  description = "Unknown deployment tier";
  edge_verification = "";
  key_management = "";
  client_inspection = "";
  fedramp_dependency = false;
  cloudflare_optional = false;
  symmetric_proxy = false;
}

abbrev tier_or_standard : Result Tier → Tier
tier_or_standard (ok tier) = tier
tier_or_standard (err _) = standard

pub get_tier : (String → String) → String → TierInfo
get_tier quote s = get_tier_info (tier_or_standard (parse_tier quote s))

pub record Config : Type 0 where
  pub tier : Tier
  pub regional_services_enabled : Bool
  pub keyless_ssl_host : String
  pub keyless_ssl_port : ℕ
  pub proxy_listen_addr : String
  pub proxy_cert_file : String
  pub proxy_key_file : String
  pub proxy_upstream : String

abbrev default_config : Config
default_config = record {
  tier = standard;
  regional_services_enabled = false;
  keyless_ssl_host = "";
  keyless_ssl_port = 0;
  proxy_listen_addr = "";
  proxy_cert_file = "";
  proxy_key_file = "";
  proxy_upstream = "";
}
