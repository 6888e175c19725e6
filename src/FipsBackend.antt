-- ===== src/FipsBackend.antt =====
-- pkg/fipsbackend: which FIPS module is active in this build and on this host, and how urgent the
-- move from FIPS 140-2 to 140-3 is.
pub mod Migration
pub mod Urgency
mod Tests
use cloudflared_fips.Prelude.{
  ℕ, zero, suc, ◌+◌, ◌*◌, ◌-◌, String, Bool, true, false, not, ◌&&◌, ◌||◌, List, [], ◌∷◌, Option,
  none, some, str_eq, leb, ltb, ◌==◌, if◌then◌else◌,
}
use cloudflared_fips.Prelude.Text.{concat, contains, trim_prefix, split_cuts}
use Prim.Native.Char.{code}

-- What the packages ask Go's runtime: `runtime.GOOS`, `runtime.Version`, the settings of
-- `debug.ReadBuildInfo`, and the variable GODEBUG.
pub record Build : Type 0 where
  pub goos : String
  pub version : String
  pub settings : Option (List (String × String))
  pub godebug : String

-- one of the three implementations of the interface
pub data Backend : Type 0 where
  boring_crypto go_native system_crypto : Backend

abbrev pub name : Backend → String
name boring_crypto = "boringcrypto"
name go_native = "go-native"
name system_crypto = "systemcrypto"

abbrev pub display_name : Backend → String
display_name boring_crypto = "BoringCrypto (BoringSSL)"
display_name go_native = "Go Cryptographic Module (native)"
display_name system_crypto = "Platform System Crypto"

abbrev pub go_native_cmvp_validated : Bool
go_native_cmvp_validated = false

abbrev pub go_native_cmvp_cert : String
go_native_cmvp_cert = "CAVP A6650 (CMVP pending)"

pub cmvp_certificate : Build → Backend → String
cmvp_certificate b boring_crypto = "#4407 (140-2), #4735 (140-3)"
cmvp_certificate b go_native = go_native_cmvp_cert
cmvp_certificate b system_crypto =
    if str_eq b.goos "windows"
    then "#4515 (Windows CNG)"
    else if str_eq b.goos "darwin"
    then "#3856 (Apple corecrypto)"
    else if str_eq b.goos "linux"
    then "Varies by distro OpenSSL"
    else "n/a"

-- `strconv.Atoi` of a text of digits, and none of any other: the parts of a version
-- have no sign and are far below the largest `int`.
abbrev digits_value : ℕ → String → Option ℕ
digits_value n String.[] = some n
digits_value n (String.◌∷◌ c s) =
    let rest = digits_value (n * 10 + (code c - 48)) s in
    if leb 48 (code c) && leb (code c) 57 then rest else none

abbrev pub atoi : String → Option ℕ
atoi String.[] = none
atoi (String.◌∷◌ c s) = digits_value 0 (String.◌∷◌ c s)

abbrev at_least : ℕ → ℕ → Option ℕ → Option ℕ → Bool
at_least major minor (some maj) (some min) = ltb major maj || (maj == major && leb minor min)
at_least major minor _ _ = false

abbrev parts_at_least : ℕ → ℕ → List String → Bool
parts_at_least major minor (maj ∷ min ∷ _) = at_least major minor (atoi maj) (atoi min)
parts_at_least major minor _ = false

pub go_version_at_least : Build → ℕ → ℕ → Bool
go_version_at_least b major minor =
    parts_at_least major minor (split_cuts b'.' 2 (trim_prefix b.version "go"))

pub fips_standard : Build → Backend → String
fips_standard b boring_crypto = if go_version_at_least b 1 24 then "140-3" else "140-2"
fips_standard b go_native = if go_native_cmvp_validated then "140-3" else "140-3 (pending)"
fips_standard b system_crypto =
    if str_eq b.goos "windows" || str_eq b.goos "darwin" then "140-2" else "varies"

pub validated : Build → Backend → Bool
validated b boring_crypto = true
validated b go_native = go_native_cmvp_validated
validated b system_crypto = str_eq b.goos "windows" || str_eq b.goos "darwin"

has_boring : List (String × String) → Bool
has_boring [] = false
has_boring ((key, value) ∷ settings) =
    (str_eq key "GOEXPERIMENT" && contains value "boringcrypto") || has_boring settings

abbrev boring_settings : Option (List (String × String)) → Bool
boring_settings none = false
boring_settings (some settings) = has_boring settings

pub is_boring_crypto_active : Build → Bool
is_boring_crypto_active b = contains b.version "X:boringcrypto" || boring_settings b.settings

-- the pieces between commas, without the empty ones
abbrev nonempty : String → List String → List String
nonempty piece pieces = if str_eq piece "" then pieces else piece ∷ pieces

pub split_comma_from : String → String → List String
split_comma_from piece String.[] = nonempty piece []
split_comma_from piece (String.◌∷◌ c s) = elim (code c == 44) [
  | true ↦ nonempty piece (split_comma_from "" s)
  | false ↦ split_comma_from (concat piece (String.◌∷◌ c String.[])) s
]

abbrev split_comma : String → List String
split_comma s = split_comma_from "" s

turns_on : List String → Bool
turns_on [] = false
turns_on (entry ∷ entries) =
    str_eq entry "fips140=on" || str_eq entry "fips140=only" || turns_on entries

pub is_active : Build → Backend → Bool
is_active b boring_crypto = is_boring_crypto_active b
is_active b go_native = not (str_eq b.godebug "") && turns_on (split_comma b.godebug)
is_active b system_crypto = false

-- `SelfTest`, which never returns an error
abbrev pub backend_self_test : Build → Backend → Bool
backend_self_test b backend = is_active b backend

abbrev all_backends : List Backend
all_backends = boring_crypto ∷ go_native ∷ system_crypto ∷ []

pub first_active : Build → List Backend → Option Backend
first_active b [] = none
first_active b (backend ∷ backends) =
    let rest = first_active b backends in if is_active b backend then some backend else rest

pub detect : Build → Option Backend
detect b = first_active b all_backends

pub record Info : Type 0 where
  pub name : String
  pub display_name : String
  pub cmvp_certificate : String
  pub fips_standard : String
  pub validated : Bool
  pub active : Bool

abbrev pub to_info : Build → Backend → Info
to_info b backend = record {
  name = name backend;
  display_name = display_name backend;
  cmvp_certificate = cmvp_certificate b backend;
  fips_standard = fips_standard b backend;
  validated = validated b backend;
  active = is_active b backend;
}

abbrev info_or_none : Build → Option Backend → Info
info_or_none b (some backend) = to_info b backend
info_or_none b none = record {
  name = "none";
  display_name = "No FIPS Module";
  cmvp_certificate = "n/a";
  fips_standard = "n/a";
  validated = false;
  active = false;
}

pub detect_info : Build → Info
detect_info b = info_or_none b (detect b)
