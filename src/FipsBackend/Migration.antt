-- ===== src/FipsBackend/Migration.antt =====
-- pkg/fipsbackend/migration.go: how far the active module is from FIPS 140-3.
use cloudflared_fips.Prelude.{
  ℕ, zero, suc, ◌-◌, ◌/◌, String, Bool, true, false, List, [], ◌∷◌, Option, none, some, str_eq, leb,
  ltb, if◌then◌else◌,
}
use cloudflared_fips.Prelude.Int.{ℤ, pos, negsuc}
use cloudflared_fips.Prelude.Text.{concat, decimal}
use cloudflared_fips.FipsBackend.{
  Build, Backend, fips_standard, detect, go_native_cmvp_validated, go_native_cmvp_cert,
}

-- 2026-09-21 in seconds since 1970, as the clock counts here
abbrev pub sunset : ℕ
sunset = 1789948800

pub record MigrationStatus : Type 0 where
  pub current_standard : String
  pub sunset_date : String
  pub days_until_sunset : ℤ
  pub migration_required : Bool
  pub migration_urgency : String
  pub recommended_action : String
  pub alternative_backend : String

-- minus a number
abbrev pub negated : ℕ → ℤ
negated zero = pos 0
negated (suc n) = negsuc n

-- `int(time.Until(sunset).Hours() / 24)`, which cuts towards zero
unfoldable pub days_until : ℕ → ℤ
days_until now =
    if leb now sunset then pos ((sunset - now) / 86400) else negated ((now - sunset) / 86400)

-- `d <= n` of the days and a bound that is not negative
unfoldable pub at_most : ℤ → ℕ → Bool
at_most (negsuc _) n = true
at_most (pos d) n = leb d n

-- `%d`
abbrev pub signed : ℤ → String
signed (pos n) = decimal n
signed (negsuc n) = concat "-" (decimal (suc n))

abbrev urge : MigrationStatus → Bool → String → String → MigrationStatus
urge s required urgency action = record s {
  migration_required = required;
  migration_urgency = urgency;
  recommended_action = action;
}

abbrev in_days : String → MigrationStatus → String
in_days rest s = concat "FIPS 140-2 sunset in " (concat (signed s.days_until_sunset) rest)

abbrev pub for_140_2 : MigrationStatus → MigrationStatus
for_140_2 s =
    if at_most s.days_until_sunset 0
    then urge s true "critical"
        "FIPS 140-2 sunset has passed (Sep 21, 2026). Migrate to FIPS 140-3 immediately. Use BoringCrypto 140-3 (#4735) or Go native FIPS."
    else if at_most s.days_until_sunset 30
    then urge s true "critical" (in_days " days. Begin migration to FIPS 140-3 immediately." s)
    else if at_most s.days_until_sunset 90
    then urge s true "high" (in_days " days. Plan migration to FIPS 140-3." s)
    else if at_most s.days_until_sunset 180
    then urge s true "medium" (in_days " days. Test FIPS 140-3 modules in staging." s)
    else urge s true "low" (in_days " days. No immediate action required." s)

abbrev pub pending_140_3 : ℕ → MigrationStatus → MigrationStatus
pending_140_3 now s =
    if ltb sunset now
    then urge s false "medium"
        "FIPS 140-2 sunset passed. Go native FIPS is CAVP-validated but CMVP pending. Consider BoringCrypto 140-3 (#4735) for full validation."
    else urge s false "low"
        "Using Go native FIPS 140-3 (CAVP validated, CMVP pending). Monitor CMVP validation status."

abbrev pub alternative : String
alternative =
    if go_native_cmvp_validated
    then "go-native (FIPS 140-3, CMVP validated, cross-platform)"
    else "boringcrypto with Go 1.24+ (FIPS 140-3 #4735) or go-native (once CMVP validated)"

-- the `switch` over the standard
unfoldable pub by_standard : ℕ → String → MigrationStatus → MigrationStatus
by_standard now standard s =
    if str_eq standard "140-2"
    then for_140_2 (record s { alternative_backend = alternative })
    else if str_eq standard "140-3"
    then urge s false "none" "Already using FIPS 140-3. No migration needed."
    else if str_eq standard "140-3 (pending)"
    then pending_140_3 now s
    else urge s true "high" "Unknown FIPS standard. Verify the active cryptographic module."

abbrev pub begun : ℕ → String → MigrationStatus
begun now standard = record {
  current_standard = standard;
  sunset_date = "2026-09-21";
  days_until_sunset = days_until now;
  migration_required = false;
  migration_urgency = "";
  recommended_action = "";
  alternative_backend = "";
}

abbrev no_module : ℕ → MigrationStatus
no_module now =
    record (urge (begun now "none") true "critical"
      "Install a FIPS cryptographic module. Use GOEXPERIMENT=boringcrypto (Linux) or GODEBUG=fips140=on (cross-platform).") {
        alternative_backend = "go-native";
      }

-- what `AllBackendMigrationInfo` says of each backend
pub record BackendMigrationInfo : Type 0 where
  pub name : String
  pub display_name : String
  pub fips_140_2_cert : String
  pub fips_140_3_cert : String
  pub platform : String
  pub status_140_2 : String
  pub status_140_3 : String
  pub migration_notes : String

abbrev go_native_cmvp_status : String
go_native_cmvp_status =
    if go_native_cmvp_validated then "CMVP validated" else "CAVP validated, CMVP in process"

abbrev go_native_migration_notes : String
go_native_migration_notes =
    if go_native_cmvp_validated
    then "Recommended: Pure Go, no CGO, cross-platform. Use GODEBUG=fips140=on. CMVP validated — primary choice for new deployments."
    else "Pure Go, no CGO. Cross-platform. Use GODEBUG=fips140=on. CMVP pending — monitor https://csrc.nist.gov/projects/cryptographic-module-validation-program/modules-in-process/modules-in-process-list"

abbrev all_backend_migration_info : List BackendMigrationInfo
all_backend_migration_info =
    record {
      name = "boringcrypto";
      display_name = "BoringCrypto (BoringSSL)";
      fips_140_2_cert = "#3678 / #4407";
      fips_140_3_cert = "#4735";
      platform = "Linux amd64/arm64";
      status_140_2 = "active (until 2026-09-21)";
      status_140_3 = "validated";
      migration_notes =
          "Update to BoringSSL tag certified for 140-3. Same GOEXPERIMENT=boringcrypto build flag.";
    }
    ∷ record {
      name = "go-native";
      display_name = "Go Cryptographic Module";
      fips_140_2_cert = "n/a";
      fips_140_3_cert = go_native_cmvp_cert;
      platform = "All (Linux, macOS, Windows)";
      status_140_2 = "n/a";
      status_140_3 = go_native_cmvp_status;
      migration_notes = go_native_migration_notes;
    }
    ∷ record {
      name = "systemcrypto";
      display_name = "Platform System Crypto (Microsoft Go)";
      fips_140_2_cert = "#4515 (CNG), #3856 (corecrypto)";
      fips_140_3_cert = "varies by platform";
      platform = "Windows (CNG), macOS (corecrypto), Linux (OpenSSL)";
      status_140_2 = "active (platform-dependent)";
      status_140_3 = "varies (Windows CNG has 140-3 path)";
      migration_notes =
          "Requires Microsoft Build of Go. Uses dlopen to platform crypto. Validation depends on OS vendor.";
    }
    ∷ []

abbrev pub status_of : Build → ℕ → Option Backend → MigrationStatus
status_of b now none = no_module now
status_of b now (some backend) =
    by_standard now (fips_standard b backend) (begun now (fips_standard b backend))

unfoldable pub get_migration_status : Build → ℕ → MigrationStatus
get_migration_status b now = status_of b now (detect b)
