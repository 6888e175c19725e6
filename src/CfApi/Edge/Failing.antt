-- ===== src/CfApi/Edge/Failing.antt =====
-- The calls and the checks of pkg/cfapi/checker.go where the API does not answer.
use cloudflared_fips.Prelude.{◌≡◌, refl, ap, ◌∙◌, String, List, [], ◌∷◌, All, length, suc}
use cloudflared_fips.Prelude.Text.{concat}
use cloudflared_fips.Prelude.Assoc.{lookup, lookup-empty}
use cloudflared_fips.Prelude.Results.{Result, err}
use cloudflared_fips.Compliance.{unknown, ChecklistItem}
use cloudflared_fips.CfApi.{Client, Call, Wire, request, get}
use cloudflared_fips.CfApi.Zone.{
  Codec, of_zone, reading, reading_setting, get_min_tls_version, get_ciphers, get_security_header,
  get_certificate_packs, get_access_apps, get_tunnel, get_keyless_ssl_configs,
  get_regional_tiered_cache,
}
use cloudflared_fips.CfApi.Edge.Run.{Check, judging, run_checks}

-- the check changes nothing and ends in "unknown"
abbrev pub Closed : Client → Check → Type 0
Closed c check = ((check c).0.status ≡ unknown) × ((check c).1 ≡ c)

-- the call fails and changes nothing
abbrev pub Fails {ℓ} : {A : Type ℓ} → Client → Call A → Type ℓ
Fails c call = (e : String) × (call c ≡ (err e, c))

pub run_checks-Closed :
    (c : Client) (checks : List Check)
    → All (Closed c) checks
    → All (λ item. item.status ≡ unknown) (run_checks checks c).0 × ((run_checks checks c).1 ≡ c)
unfolding run_checks
run_checks-Closed c [] closed = (tt, refl)
run_checks-Closed c (check ∷ checks) ((open_status, same), closed) =
    rw (run_checks, same)
      (let (all, end) = run_checks-Closed c checks closed in ((open_status, all), end))

pub length-run_checks :
    (checks : List Check) (c : Client) → length (run_checks checks c).0 ≡ length checks
unfolding run_checks
length-run_checks [] c = refl
length-run_checks (check ∷ checks) c = ap suc (length-run_checks checks (check c).1)

module _ (c : Client) (w : Wire) (path : String) (empty : c.cache ≡ [])
    (down : (e : String) × (request w "GET" path "" c ≡ err e)) where
  get-Fails : Fails c (get w path)
  unfolding get
  get-Fails =
      let missing = ap (λ m. lookup path m) empty ∙ lookup-empty path in
      (down.0, rw (get, missing, down.1) refl)

pub judging-Closed :
    {A : Type 0} (c : Client) (call : Call A) (judge : Result A → ChecklistItem)
    → ((e : String) → (judge (err e)).status ≡ unknown)
    → Fails c call
    → Closed c (judging call judge)
judging-Closed c call judge closed (e, f) = rw f (closed e, refl)

module _ (j : Codec) (c : Client) (w : Wire) (empty : c.cache ≡ [])
    (down : (path : String) → (e : String) × (request w "GET" path "" c ≡ err e)) where
  reading-Fails :
      {A : Type 0} (path label : String) (parse : String → Result A)
      → Fails c (reading w path label parse)
  reading-Fails path label parse =
      let (e, f) = get-Fails c w path empty (down path) in (e, rw f refl)

  reading_setting-Fails :
      {A : Type 0} (path label : String) (parse : String → Result A)
      → Fails c (reading_setting j w path label parse)
  reading_setting-Fails path label parse =
      let (e, f) = get-Fails c w path empty (down path) in (e, rw f refl)

  pub access_apps-Fails : (zone_id : String) → Fails c (get_access_apps j w zone_id)
  unfolding get_access_apps
  access_apps-Fails zone_id =
      reading-Fails (of_zone zone_id "/access/apps") "parse access apps" j.apps

  pub ciphers-Fails : (zone_id : String) → Fails c (get_ciphers j w zone_id)
  unfolding get_ciphers
  ciphers-Fails zone_id =
      reading_setting-Fails (of_zone zone_id "/settings/ciphers") "parse ciphers" j.texts

  pub min_tls_version-Fails : (zone_id : String) → Fails c (get_min_tls_version j w zone_id)
  unfolding get_min_tls_version
  min_tls_version-Fails zone_id =
      reading_setting-Fails (of_zone zone_id "/settings/min_tls_version") "parse min_tls_version"
        j.text

  pub security_header-Fails : (zone_id : String) → Fails c (get_security_header j w zone_id)
  unfolding get_security_header
  security_header-Fails zone_id =
      reading_setting-Fails (of_zone zone_id "/settings/security_header") "parse security_header"
        j.header

  pub certificate_packs-Fails : (zone_id : String) → Fails c (get_certificate_packs j w zone_id)
  unfolding get_certificate_packs
  certificate_packs-Fails zone_id =
      reading-Fails (of_zone zone_id "/ssl/certificate_packs") "parse certificate_packs" j.packs

  pub tunnel-Fails : (account_id tunnel_id : String) → Fails c (get_tunnel j w account_id tunnel_id)
  unfolding get_tunnel
  tunnel-Fails account_id tunnel_id =
      reading-Fails (concat "/accounts/" (concat account_id (concat "/cfd_tunnel/" tunnel_id)))
        "parse tunnel" j.tunnel

  pub keyless-Fails : (zone_id : String) → Fails c (get_keyless_ssl_configs j w zone_id)
  unfolding get_keyless_ssl_configs
  keyless-Fails zone_id =
      reading-Fails (of_zone zone_id "/keyless_certificates") "parse keyless_certificates" j.keyless

  pub regional-Fails : (zone_id : String) → Fails c (get_regional_tiered_cache j w zone_id)
  unfolding get_regional_tiered_cache
  regional-Fails zone_id =
      let (e, f) =
        get-Fails c w (of_zone zone_id "/cache/regional_tiered_cache") empty
          (down (of_zone zone_id "/cache/regional_tiered_cache")) in
      (e, rw f refl)
