-- ===== src/CfApi/Edge/Closed.antt =====
-- The section of edge checks of pkg/cfapi/checker.go where the API does not answer.
use cloudflared_fips.Prelude.{
  ℕ, ◌≡◌, refl, inl, inr, String, ◌||◌, [], Option, All, Bool-cases, length, str_eq,
}
use cloudflared_fips.Prelude.Results.{err}
use cloudflared_fips.Compliance.{unknown}
use cloudflared_fips.CfApi.{Client, Wire, request}
use cloudflared_fips.CfApi.Zone.{
  Codec, get_min_tls_version, get_ciphers, get_security_header, get_certificate_packs,
  get_access_apps, get_tunnel, get_keyless_ssl_configs, get_regional_tiered_cache,
}
use cloudflared_fips.CfApi.Edge.{
  access_policy, identity_provider, cipher_restriction, min_tls_version, edge_certificate, hsts,
  tunnel_health, keyless_ssl, regional_services,
}
use cloudflared_fips.CfApi.Edge.Run.{
  ComplianceChecker, judging, check_tunnel_health, edge_checks, run_edge_checks,
}
use cloudflared_fips.CfApi.Edge.Failing.{
  Closed, run_checks-Closed, length-run_checks, judging-Closed, access_apps-Fails, ciphers-Fails,
  min_tls_version-Fails, security_header-Fails, certificate_packs-Fails, tunnel-Fails,
  keyless-Fails, regional-Fails,
}

module _ (j : Codec) (parse_time : String → Option ℕ) (wire : ℕ → Wire) (cc : ComplianceChecker)
    (c : Client) (empty : c.cache ≡ [])
    (down : (n : ℕ) (path : String)
      → (e : String) × (request (wire n) "GET" path "" c ≡ err e)) where
  tunnel_health-Closed : Closed c (check_tunnel_health j parse_time wire cc)
  unfolding tunnel_health
  tunnel_health-Closed = elim (Bool-cases (str_eq cc.account_id "" || str_eq cc.tunnel_id "")) [
    | inl e ↦ rw e (refl, refl)
    | inr e ↦ rw e (
        judging-Closed c (get_tunnel j (wire 6) cc.account_id cc.tunnel_id) tunnel_health
          (λ m. refl) (tunnel-Fails j c (wire 6) empty (down 6) cc.account_id cc.tunnel_id))
  ]

  access_policy-Closed : Closed c (judging (get_access_apps j (wire 0) cc.zone_id) access_policy)
  unfolding access_policy
  access_policy-Closed =
      judging-Closed c (get_access_apps j (wire 0) cc.zone_id) access_policy (λ m. refl)
        (access_apps-Fails j c (wire 0) empty (down 0) cc.zone_id)

  identity_provider-Closed :
      Closed c (judging (get_access_apps j (wire 1) cc.zone_id) identity_provider)
  unfolding identity_provider
  identity_provider-Closed =
      judging-Closed c (get_access_apps j (wire 1) cc.zone_id) identity_provider (λ m. refl)
        (access_apps-Fails j c (wire 1) empty (down 1) cc.zone_id)

  cipher_restriction-Closed :
      Closed c (judging (get_ciphers j (wire 2) cc.zone_id) cipher_restriction)
  unfolding cipher_restriction
  cipher_restriction-Closed =
      judging-Closed c (get_ciphers j (wire 2) cc.zone_id) cipher_restriction (λ m. refl)
        (ciphers-Fails j c (wire 2) empty (down 2) cc.zone_id)

  min_tls_version-Closed :
      Closed c (judging (get_min_tls_version j (wire 3) cc.zone_id) min_tls_version)
  unfolding min_tls_version
  min_tls_version-Closed =
      judging-Closed c (get_min_tls_version j (wire 3) cc.zone_id) min_tls_version (λ m. refl)
        (min_tls_version-Fails j c (wire 3) empty (down 3) cc.zone_id)

  edge_certificate-Closed : Closed c (
      judging
        (get_certificate_packs j (wire 4) cc.zone_id)
        (edge_certificate parse_time (wire 4).later))
  unfolding edge_certificate
  edge_certificate-Closed =
      judging-Closed c (get_certificate_packs j (wire 4) cc.zone_id)
        (edge_certificate parse_time (wire 4).later) (λ m. refl)
        (certificate_packs-Fails j c (wire 4) empty (down 4) cc.zone_id)

  hsts-Closed : Closed c (judging (get_security_header j (wire 5) cc.zone_id) hsts)
  unfolding hsts
  hsts-Closed =
      judging-Closed c (get_security_header j (wire 5) cc.zone_id) hsts (λ m. refl)
        (security_header-Fails j c (wire 5) empty (down 5) cc.zone_id)

  keyless_ssl-Closed :
      Closed c (judging (get_keyless_ssl_configs j (wire 7) cc.zone_id) keyless_ssl)
  unfolding keyless_ssl
  keyless_ssl-Closed =
      judging-Closed c (get_keyless_ssl_configs j (wire 7) cc.zone_id) keyless_ssl (λ m. refl)
        (keyless-Fails j c (wire 7) empty (down 7) cc.zone_id)

  regional_services-Closed :
      Closed c (judging (get_regional_tiered_cache j (wire 8) cc.zone_id) regional_services)
  unfolding regional_services
  regional_services-Closed =
      judging-Closed c (get_regional_tiered_cache j (wire 8) cc.zone_id) regional_services
        (λ m. refl) (regional-Fails j c (wire 8) empty (down 8) cc.zone_id)

  edge_checks-Closed : All (Closed c) (edge_checks j parse_time wire cc)
  edge_checks-Closed = (
    access_policy-Closed,
    (
      identity_provider-Closed,
      (
        (refl, refl),
        (
          (refl, refl),
          (
            cipher_restriction-Closed,
            (
              min_tls_version-Closed,
              (
                edge_certificate-Closed,
                (
                  hsts-Closed,
                  (tunnel_health-Closed, (keyless_ssl-Closed, (regional_services-Closed, tt))),
                ),
              ),
            ),
          ),
        ),
      ),
    ),
  )

-- Where the API answers no request with a success and nothing is cached, every one of the eleven
-- checks of the edge ends in "unknown", and the failures leave the client as it was.
pub run_edge_checks-Closed :
    (j : Codec) (parse_time : String → Option ℕ) (wire : ℕ → Wire) (cc : ComplianceChecker)
    (c : Client)
    → c.cache ≡ []
    → ((n : ℕ) (path : String) → (e : String) × (request (wire n) "GET" path "" c ≡ err e))
    → let (section, next) = run_edge_checks j parse_time wire cc c in
      (length section.items ≡ 11) × All (λ item. item.status ≡ unknown) section.items × (next ≡ c)
unfolding run_edge_checks
run_edge_checks-Closed j parse_time wire cc c empty down =
    let (all, same) =
      run_checks-Closed c (edge_checks j parse_time wire cc)
        (edge_checks-Closed j parse_time wire cc c empty down) in
    (length-run_checks (edge_checks j parse_time wire cc) c, all, same)
