-- ===== src/Live.antt =====
-- internal/compliance/live.go: the checker of the running system, and what it asks of that system.
pub mod TunnelItems
pub mod ServiceItems
pub mod OperationsItems
pub mod Tunnel
pub mod Service
pub mod Operations
pub mod Credentials
pub mod Run
pub mod Integrity
pub mod Permissions
pub mod Expiry
pub mod Secrets
pub mod Scans
mod Tests
use cloudflared_fips.Prelude.{
  ℕ, ◌/◌, ◌%◌, String, Bool, true, false, ◌&&◌, ◌||◌, List, [], ◌∷◌, Option, none, some, str_eq,
  leb, if◌then◌else◌,
}
use cloudflared_fips.Prelude.Results.{Result, ok, err}
use cloudflared_fips.Prelude.Text.{concat, contains}
use cloudflared_fips.FipsBackend.{Build}
use cloudflared_fips.SelfTest.Checks as SelfTest
use Prim.Native.Char.{code}

-- `perm` is the number of the permission bits; times are in seconds.
pub record FileInfo : Type 0 where
  pub perm : ℕ
  pub mod_time : ℕ

-- an entry of /proc with the command line, if it can be read
pub record ProcEntry : Type 0 where
  pub name : String
  pub is_dir : Bool
  pub cmdline : Option String

-- a file that a walk of a directory reaches, by its path and its name
pub record WalkEntry : Type 0 where
  pub path : String
  pub name : String

-- what a TLS connection has negotiated: the suite, and the expiry of the first peer certificate
pub record Negotiated : Type 0 where
  pub cipher_suite : ℕ
  pub peer_not_after : Option ℕ

-- a PEM file: no block, a block that is no certificate, or the expiry of the certificate
pub data Pem : Type 0 where
  no_block unparsed : Pem
  not_after : ℕ → Pem

pub record Manifest : Type 0 where
  pub upstream_version : String
  pub certificates : ℕ
  pub binary_sha256 : String

-- The answers of the operating system and of Go's library, at one time of the clock. A hash is the
-- hexadecimal text of SHA-256.
pub record System : Type 0 where
  pub self_test : SelfTest.Host
  pub suite_name : ℕ → String
  pub now : ℕ
  pub home : String
  pub proc_entries : Option (List ProcEntry)
  pub metrics_answer : String → Bool
  pub stat : String → Result FileInfo
  pub read_hash : String → Result String
  pub read_manifest : String → Result Manifest
  pub is_loopback_ip : String → Bool
  pub split_host_port : String → Option String
  pub dial : String → Bool
  pub dial_tls : String → Option Negotiated
  pub read_pem : String → Result Pem
  pub walk_dir : String → List WalkEntry
  pub format_time : ℕ → String
  pub format_date : ℕ → String

abbrev pub build_of : System → Build
build_of s = s.self_test.build

-- What the checks ask of the audit logger and of the alerts: whether there is one, and its answers.
pub record LoggerView : Type 0 where
  pub has_events : Bool
  pub file_path : String
  pub syslog_active : Bool

pub record LiveChecker : Type 0 where
  pub manifest_path : String
  pub binary_path : String
  pub config_path : String
  pub metrics_addr : String
  pub ingress_targets : List String
  pub audit_logger : Option LoggerView
  pub webhooks : Option ℕ
  pub auth_enabled : Bool
  pub token_path : String
  pub cert_paths : List String
  pub secrets_paths : List String
  pub upstream_checksum : String
  pub enforcement_mode : String
  pub last_scan_time : Option ℕ

abbrev pub defaults : LiveChecker
defaults = record {
  manifest_path = "configs/build-manifest.json";
  binary_path = "";
  config_path = "";
  metrics_addr = "localhost:2000";
  ingress_targets = [];
  audit_logger = none;
  webhooks = none;
  auth_enabled = false;
  token_path = "";
  cert_paths = [];
  secrets_paths = [];
  upstream_checksum = "";
  enforcement_mode = "";
  last_scan_time = none;
}

abbrev pub apply_all : List (LiveChecker → LiveChecker) → LiveChecker → LiveChecker
apply_all [] lc = lc
apply_all (opt ∷ opts) lc = apply_all opts (opt lc)

abbrev self_path : Result String → String
self_path (ok path) = path
self_path (err _) = ""

-- The options are the functions `WithManifestPath` and its kin, each of which sets one field.
new_live_checker : System → List (LiveChecker → LiveChecker) → LiveChecker
new_live_checker s opts =
    let lc = apply_all opts defaults in
    if str_eq lc.binary_path "" && str_eq (build_of s).goos "linux"
    then record lc { binary_path = self_path s.self_test.self_exe }
    else lc

abbrev host_of : Option String → String → String
host_of none target = target
host_of (some host) target = host

pub is_loopback : System → String → Bool
is_loopback s target =
    let host = host_of (s.split_host_port target) target in
    str_eq host "localhost"
    || str_eq host "127.0.0.1"
    || str_eq host "::1"
    || str_eq host ""
    || s.is_loopback_ip host

abbrev starts_with_digit : String → Bool
starts_with_digit String.[] = false
starts_with_digit (String.◌∷◌ c _) = leb 48 (code c) && leb (code c) 57

abbrev has_token : String → Bool
has_token cmd = contains cmd "--token" || contains cmd "tunnel\0run"

abbrev found_in : ProcEntry → Option Bool
found_in e =
    if e.is_dir && starts_with_digit e.name
    then elim e.cmdline [
      | none ↦ none
      | some cmd ↦ if contains cmd "cloudflared" then some (has_token cmd) else none
    ]
    else none

-- the loop, which the first process with the name ends
scan_entries : List ProcEntry → Bool × Bool
scan_entries [] = (false, false)
scan_entries (e ∷ entries) = elim (found_in e) [
  | none ↦ scan_entries entries
  | some token_based ↦ (true, token_based)
]

abbrev scan_proc : Option (List ProcEntry) → Bool × Bool
scan_proc none = (false, false)
scan_proc (some entries) = scan_entries entries

pub detect_cloudflared_process : System → Bool × Bool
detect_cloudflared_process s =
    if str_eq (build_of s).goos "linux" then scan_proc s.proc_entries else (false, false)

-- `err == nil` of `os.Stat`
abbrev pub exists {ℓ} : {A : Type ℓ} → Result A → Bool
exists (ok _) = true
exists (err _) = false

-- the first of the paths at which there is a file
pub first_found : System → List String → Option String
first_found s [] = none
first_found s (p ∷ paths) =
    let rest = first_found s paths in if exists (s.stat p) then some p else rest
