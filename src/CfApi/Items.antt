-- ===== src/CfApi/Items.antt =====
-- The literals of the items in pkg/cfapi/checker.go.
use cloudflared_fips.Compliance.{ChecklistItem}
use cloudflared_fips.Compliance.Items.{unset}

abbrev pub access_policy_item : ChecklistItem
access_policy_item =
    unset "ce-1" "Cloudflare Access Policy" "critical" "api"
      "Queries Cloudflare Access API to verify at least one Access application is configured"
      "Access policies enforce authentication before requests reach the tunnel. Without Access, anyone can reach the origin."
      "Configure a Cloudflare Access application at dash.cloudflare.com > Zero Trust > Access > Applications."
      "AC-3, AC-17"

abbrev pub identity_provider_item : ChecklistItem
identity_provider_item =
    unset "ce-2" "Identity Provider Connected" "critical" "api"
      "Checks if an identity provider is connected to Cloudflare Access"
      "An IdP is required for user authentication. Without it, Access cannot verify identity."
      "Configure an IdP (Okta, Azure AD, etc.) in Zero Trust > Settings > Authentication."
      "IA-2, IA-8"

abbrev pub auth_method_item : ChecklistItem
auth_method_item =
    unset "ce-3" "Authentication Method" "high" "api"
      "Authentication method (SAML/OIDC) determined by IdP configuration"
      "The authentication protocol affects the strength of identity verification."
      "Configure SAML 2.0 or OIDC in the Access IdP settings." "IA-2, IA-8"

abbrev pub mfa_enforced_item : ChecklistItem
mfa_enforced_item =
    unset "ce-4" "MFA Enforced" "critical" "api"
      "MFA enforcement is configured at the IdP level, not directly queryable via Cloudflare API"
      "Multi-factor authentication is required by NIST SP 800-63B for government systems."
      "Enforce MFA in your IdP (Okta, Azure AD). Add an Access policy requiring MFA."
      "IA-2(1), IA-2(2)"

abbrev pub cipher_restriction_item : ChecklistItem
cipher_restriction_item =
    unset "ce-5" "Cipher Suite Restriction" "critical" "inherited"
      "Queries Cloudflare API for the zone's configured cipher suite restrictions"
      "Edge cipher suites must be restricted to FIPS-approved algorithms. Cloudflare's edge uses BoringSSL but the FIPS cert belongs to Google, not Cloudflare."
      "Set cipher suites via API: PATCH /zones/{id}/settings/ciphers with FIPS-approved list."
      "SC-13, SC-8"

abbrev pub min_tls_version_item : ChecklistItem
min_tls_version_item =
    unset "ce-6" "Minimum TLS Version Enforced" "critical" "api"
      "Queries Cloudflare API for the zone's minimum TLS version setting"
      "FIPS requires TLS 1.2 minimum (NIST SP 800-52 Rev 2). TLS 1.0/1.1 must be disabled."
      "Set minimum TLS version to 1.2 via API or dashboard: SSL/TLS > Edge Certificates > Minimum TLS Version."
      "SC-8, SC-13"

abbrev pub edge_certificate_item : ChecklistItem
edge_certificate_item =
    unset "ce-7" "Edge Certificate Valid" "high" "api"
      "Queries Cloudflare API for SSL certificate pack status and expiry"
      "An expired or missing edge certificate will cause TLS failures for all clients."
      "Check SSL/TLS > Edge Certificates in the Cloudflare dashboard. Renew or re-order if expired."
      "SC-12, IA-5"

abbrev pub hsts_item : ChecklistItem
hsts_item =
    unset "ce-8" "HSTS Enforced" "high" "api"
      "Queries Cloudflare API for HTTP Strict Transport Security settings"
      "HSTS prevents protocol downgrade attacks. Without it, clients may be tricked into using HTTP."
      "Enable HSTS in SSL/TLS > Edge Certificates > HTTP Strict Transport Security." "SC-8, SC-23"

abbrev pub tunnel_health_item : ChecklistItem
tunnel_health_item =
    unset "ce-9" "Tunnel Health" "high" "api"
      "Queries Cloudflare API for tunnel connection status and health"
      "An unhealthy tunnel means traffic cannot reach the origin, regardless of crypto compliance."
      "Check cloudflared logs. Restart the tunnel: cloudflared tunnel run. Verify network connectivity."
      "SC-8, CP-8"

abbrev pub keyless_ssl_item : ChecklistItem
keyless_ssl_item =
    unset "ce-10" "Keyless SSL (HSM Key Protection)" "high" "api"
      "Checks whether Keyless SSL is configured, keeping private keys in customer-controlled HSMs"
      "Keyless SSL is the core of Cloudflare's FIPS 140 Level 3 reference architecture. Private keys never leave the customer's FIPS 140-2 Level 3 HSM. Key operations flow through the cloudflared tunnel via PKCS#11. Without Keyless SSL, Cloudflare holds the private keys on their edge infrastructure."
      "Configure Keyless SSL: upload only the public certificate to Cloudflare, deploy the Keyless SSL module alongside cloudflared, connect to your HSM (AWS CloudHSM, Azure Dedicated HSM, Entrust nShield, Fortanix, Google Cloud HSM, IBM Cloud HSM) via PKCS#11."
      "SC-12, SC-13, SC-12(1)"

abbrev pub regional_services_item : ChecklistItem
regional_services_item =
    unset "ce-11" "Regional Services (Data Locality)" "medium" "api"
      "Checks whether Regional Services restricts TLS termination to specific geographic regions"
      "Regional Services ensures traffic is only processed in compliant data centers (e.g., US-only for FedRAMP). Combined with Keyless SSL, this provides Cloudflare's FIPS 140 Level 3 architecture."
      "Enable Regional Services (Data Localization Suite) in the Cloudflare dashboard to restrict processing to US FedRAMP-authorized data centers."
      "SC-8, PE-18"
