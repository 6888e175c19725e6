-- ===== src/CfApi/Zone.antt =====
-- pkg/cfapi/zone.go and zone_settings.go: what the client reads of a zone, and the settings it writes.
use cloudflared_fips.Prelude.{ℕ, String, Bool, true, List, [], ◌∷◌, Option, none, some, str_eq}
use cloudflared_fips.Prelude.Results.{Result, ok, err}
use cloudflared_fips.Prelude.Text.{concat}
use cloudflared_fips.CfApi.{Client, Call, Wire, get, patch}

pub record StrictTransportSecurity : Type 0 where
  pub enabled : Bool
  pub max_age : ℕ
  pub include_subdomains : Bool
  pub preload : Bool
  pub nosniff : Bool

pub record CertificatePack : Type 0 where
  pub id : String
  pub kind : String
  pub status : String
  pub hosts : List String
  pub certificate_expiry : String

pub record AccessApp : Type 0 where
  pub id : String
  pub name : String
  pub domain : String

pub record TunnelConnection : Type 0 where
  pub colo_name : String
  pub is_active : Bool
  pub client_version : String
  pub origin_ip : String

pub record TunnelInfo : Type 0 where
  pub id : String
  pub name : String
  pub status : String
  pub created_at : String
  pub connected_at : String
  pub connections : List TunnelConnection

pub record KeylessSslConfig : Type 0 where
  pub id : String
  pub name : String
  pub host : String
  pub port : ℕ
  pub status : String
  pub enabled : Bool
  pub created_on : String

pub record RegionalTieredCache : Type 0 where
  pub id : String
  pub value : String

pub record Account : Type 0 where
  pub id : String
  pub name : String

pub record Zone : Type 0 where
  pub id : String
  pub name : String
  pub status : String
  pub account : Account

-- `json.Unmarshal` into each type; of a setting, the raw JSON of its value
pub record Codec : Type 0 where
  pub setting : String → Result String
  pub text : String → Result String
  pub texts : String → Result (List String)
  pub header : String → Result StrictTransportSecurity
  pub packs : String → Result (List CertificatePack)
  pub apps : String → Result (List AccessApp)
  pub tunnel : String → Result TunnelInfo
  pub tunnels : String → Result (List TunnelInfo)
  pub keyless : String → Result (List KeylessSslConfig)
  pub regional : String → Result RegionalTieredCache
  pub accounts : String → Result (List Account)
  pub zones : String → Result (List Zone)

module _ {ℓ} {A : Type ℓ} where
  -- an error of decoding, wrapped with what was parsed
  abbrev pub wrapped : String → Result A → Result A
  wrapped label (ok a) = ok a
  wrapped label (err e) = err (concat label (concat ": " e))

  abbrev pub decoded : String → (String → Result A) → Result String → Result A
  decoded label parse (err e) = err e
  decoded label parse (ok data_json) = wrapped label (parse data_json)

  abbrev pub reading : Wire → String → String → (String → Result A) → Call A
  reading w path label parse c = let (got, next) = get w path c in (decoded label parse got, next)

  abbrev pub decoded_value : (String → Result A) → Result String → Result A
  decoded_value parse (err e) = err e
  decoded_value parse (ok value) = wrapped "parse value" (parse value)

-- a zone setting, whose value is decoded on its own
abbrev pub reading_setting {ℓ} :
    {A : Type ℓ} → Codec → Wire → String → String → (String → Result A) → Call A
reading_setting j w path label parse c =
    let (got, next) = reading w path label j.setting c in (decoded_value parse got, next)

abbrev pub of_zone : String → String → String
of_zone zone_id rest = concat "/zones/" (concat zone_id rest)

unfoldable pub get_min_tls_version : Codec → Wire → String → Call String
get_min_tls_version j w zone_id =
    reading_setting j w (of_zone zone_id "/settings/min_tls_version") "parse min_tls_version" j.text

unfoldable pub get_ciphers : Codec → Wire → String → Call (List String)
get_ciphers j w zone_id =
    reading_setting j w (of_zone zone_id "/settings/ciphers") "parse ciphers" j.texts

unfoldable pub get_security_header : Codec → Wire → String → Call StrictTransportSecurity
get_security_header j w zone_id =
    reading_setting j w (of_zone zone_id "/settings/security_header") "parse security_header"
      j.header

unfoldable pub get_certificate_packs : Codec → Wire → String → Call (List CertificatePack)
get_certificate_packs j w zone_id =
    reading w (of_zone zone_id "/ssl/certificate_packs") "parse certificate_packs" j.packs

unfoldable pub get_access_apps : Codec → Wire → String → Call (List AccessApp)
get_access_apps j w zone_id = reading w (of_zone zone_id "/access/apps") "parse access apps" j.apps

unfoldable pub get_tunnel : Codec → Wire → String → String → Call TunnelInfo
get_tunnel j w account_id tunnel_id =
    reading w (concat "/accounts/" (concat account_id (concat "/cfd_tunnel/" tunnel_id)))
      "parse tunnel" j.tunnel

unfoldable pub get_keyless_ssl_configs : Codec → Wire → String → Call (List KeylessSslConfig)
get_keyless_ssl_configs j w zone_id =
    reading w (of_zone zone_id "/keyless_certificates") "parse keyless_certificates" j.keyless

abbrev is_on : Result RegionalTieredCache → Result Bool
is_on (err e) = err e
is_on (ok setting) = ok (str_eq setting.value "on")

unfoldable pub get_regional_tiered_cache : Codec → Wire → String → Call Bool
get_regional_tiered_cache j w zone_id c =
    let (got, next) =
      reading w (of_zone zone_id "/cache/regional_tiered_cache") "parse regional_tiered_cache"
        j.regional c in
    (is_on got, next)

-- The error alone is returned: none where the token is valid.
abbrev pub error_of {ℓ} : {A : Type ℓ} → Result A → Option String
error_of (ok _) = none
error_of (err e) = some e

verify_token : Wire → Client → Option String × Client
verify_token w c = let (got, next) = get w "/user/tokens/verify" c in (error_of got, next)

list_accounts : Codec → Wire → Call (List Account)
list_accounts j w = reading w "/accounts?per_page=50" "parse accounts" j.accounts

list_zones : Codec → Wire → String → Call (List Zone)
list_zones j w account_id =
    reading w (concat "/zones?account.id=" (concat account_id "&per_page=50")) "parse zones" j.zones

list_all_zones : Codec → Wire → Call (List Zone)
list_all_zones j w = reading w "/zones?per_page=50" "parse zones" j.zones

list_tunnels : Codec → Wire → String → Call (List TunnelInfo)
list_tunnels j w account_id =
    reading w (concat "/accounts/" (concat account_id "/cfd_tunnel?is_deleted=false&per_page=50"))
      "parse tunnels" j.tunnels

-- the JSON of a value that is written to a setting
pub record SettingCodec : Type 0 where
  pub write_texts : List String → Result String
  pub write_text : String → Result String
  pub write_header : StrictTransportSecurity → Result String

abbrev writing : Wire → String → Result String → Client → Option String × Client
writing w path body c = let (got, next) = patch w path body c in (error_of got, next)

set_ciphers : SettingCodec → Wire → String → List String → Client → Option String × Client
set_ciphers j w zone_id ciphers =
    writing w (of_zone zone_id "/settings/ciphers") (j.write_texts ciphers)

set_min_tls_version : SettingCodec → Wire → String → String → Client → Option String × Client
set_min_tls_version j w zone_id version =
    writing w (of_zone zone_id "/settings/min_tls_version") (j.write_text version)

set_hsts : SettingCodec → Wire → String → Bool → ℕ → Bool → Bool → Client → Option String × Client
set_hsts j w zone_id enabled max_age include_subdomains preload =
    writing w (of_zone zone_id "/settings/security_header") (
      j.write_header (record {
        enabled = enabled;
        max_age = max_age;
        include_subdomains = include_subdomains;
        preload = preload;
        nosniff = true;
      }))

abbrev fips_approved_cipher_list : List String
fips_approved_cipher_list =
    "ECDHE-ECDSA-AES128-GCM-SHA256" ∷ "ECDHE-ECDSA-AES256-GCM-SHA384"
    ∷ "ECDHE-RSA-AES128-GCM-SHA256" ∷ "ECDHE-RSA-AES256-GCM-SHA384" ∷ "AES128-GCM-SHA256"
    ∷ "AES256-GCM-SHA384" ∷ []
