-- ===== src/SelfTest.antt =====
-- internal/selftest: the approved cipher suites, and the self-test whose critical failures are errors.
pub mod Checks
pub mod Reports
pub mod Failures
mod Tests
use cloudflared_fips.Prelude.{
  ℕ, ◌≡◌, refl, ◌+◌, ◌-◌, String, Bool, true, false, not, ◌&&◌, ◌||◌, List, [], ◌∷◌, ◌++◌, map,
  Option, none, some, length, ltb, ◌==◌, if◌then◌else◌,
}

-- the suites by number, with Go's names for them
abbrev fips_approved_cipher_suites : List (ℕ × String)
fips_approved_cipher_suites =
    (0xc02f, "TLS_ECDHE_RSA_WITH_AES_128_GCM_SHA256")
    ∷ (0xc030, "TLS_ECDHE_RSA_WITH_AES_256_GCM_SHA384")
    ∷ (0xc02b, "TLS_ECDHE_ECDSA_WITH_AES_128_GCM_SHA256")
    ∷ (0xc02c, "TLS_ECDHE_ECDSA_WITH_AES_256_GCM_SHA384")
    ∷ (0xc027, "TLS_ECDHE_RSA_WITH_AES_128_CBC_SHA256")
    ∷ (0xc023, "TLS_ECDHE_ECDSA_WITH_AES_128_CBC_SHA256")
    ∷ (0x009c, "TLS_RSA_WITH_AES_128_GCM_SHA256")
    ∷ (0x009d, "TLS_RSA_WITH_AES_256_GCM_SHA384")
    ∷ []

abbrev fips_approved_tls13_suites : List (ℕ × String)
fips_approved_tls13_suites =
    (0x1301, "TLS_AES_128_GCM_SHA256") ∷ (0x1302, "TLS_AES_256_GCM_SHA384") ∷ []

has_suite : ℕ → List (ℕ × String) → Bool
has_suite id [] = false
has_suite id ((known, _) ∷ suites) = known == id || has_suite id suites

pub is_fips_approved : ℕ → Bool
unfolding has_suite
is_fips_approved id =
    has_suite id fips_approved_cipher_suites || has_suite id fips_approved_tls13_suites

pub record TlsConfig : Type 0 where
  pub min_version : ℕ
  pub max_version : ℕ
  pub cipher_suites : List ℕ
  pub curve_preferences : List ℕ

-- The source ranges over a map, so the order of the suites is any; curves 23 and 24 are P-256 and
-- P-384.
abbrev pub get_fips_tls_config : TlsConfig
get_fips_tls_config = record {
  min_version = 0x0303;
  max_version = 0x0304;
  cipher_suites = map (λ s. s.0) fips_approved_cipher_suites;
  curve_preferences = 23 ∷ 24 ∷ [];
}

pub data Severity : Type 0 where
  critical warning info : Severity

pub data Status : Type 0 where
  pass fail warn skip : Status

-- The time stamps of the results are left out: nothing reads them.
pub record CheckResult : Type 0 where
  pub name : String
  pub status : Status
  pub severity : Severity
  pub message : String
  pub details : String
  pub remediation : String

approved_tls13 : is_fips_approved 0x1302 ≡ true
unfolding is_fips_approved has_suite
approved_tls13 = refl

chacha_refused : is_fips_approved 0x1303 ≡ false
unfolding is_fips_approved has_suite
chacha_refused = refl
