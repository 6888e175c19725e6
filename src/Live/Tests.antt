-- ===== src/Live/Tests.antt =====
-- The theorems on internal/compliance/live.go at a host with three certificates, two secret files and
-- an upstream binary, for which a checksum of four characters is configured.
use cloudflared_fips.Prelude.{
  ◌≤◌, ◌≡◌, ◌≢◌, ◌↔◌, refl, none, some, ℕ, ◌+◌, ◌*◌, List, [], ◌∷◌, All, false, str_eq,
  if◌then◌else◌, String, arith,
}
use cloudflared_fips.Prelude.Results.{Result, ok, err}
use cloudflared_fips.Compliance.{pass, fail, unknown}
use cloudflared_fips.FipsBackend.{Build}
use cloudflared_fips.SelfTest.Checks as SelfTest
use cloudflared_fips.Live.{
  FileInfo, LiveChecker, Pem, System, defaults, first_found, not_after, unparsed,
}
use cloudflared_fips.Live.Tunnel.{text_length}
use cloudflared_fips.Live.Operations.{check_upstream_integrity, judge_log_perm}
use cloudflared_fips.Live.Credentials.{
  day, check_secrets_at_rest, check_tls_cert_expiry, collect_secret_files,
}
use cloudflared_fips.Live.Expiry.{expiries, check_tls_cert_expiry-expiries}
use cloudflared_fips.Live.Secrets.{Narrow, Private, permissions, check_secrets_at_rest-permissions}
use cloudflared_fips.Live.Integrity.{Judged, check_upstream_integrity-panics}

abbrev hash : String
hash = "0011223344556677"

-- the group may write a log that its owner may only read
group_writable : (judge_log_perm 0o460).status ≡ pass
unfolding judge_log_perm
group_writable = refl

abbrev build : Build
build = record { goos = "linux"; version = "go1.24.0"; settings = none; godebug = "" }

abbrev host : SelfTest.Host
host = record {
  build = build;
  cipher_suites = [];
  fips_enabled = ok "1";
  known_answer_tests = [];
  goarch = "amd64";
  executable = err "no path";
  self_exe = err "no link";
  exists = λ path. false;
  gpg_verify = λ key path. err "no gpg";
}

abbrev files : String → Result FileInfo
files path =
    if str_eq path "/etc/cloudflared-fips/token"
    then ok (record { perm = 0o600; mod_time = 5 })
    else if str_eq path "/etc/cloudflared/cert.pem"
    then ok (record { perm = 0o620; mod_time = 5 })
    else if str_eq path "/usr/local/bin/cloudflared"
    then ok (record { perm = 0o755; mod_time = 5 })
    else err "no such file"

abbrev certificates : String → Result Pem
certificates path =
    if str_eq path "a.pem"
    then ok (not_after 9000000)
    else if str_eq path "b.pem"
    then ok (not_after 4000000)
    else ok unparsed

abbrev system : System
system = record {
  self_test = host;
  suite_name = λ id. "";
  now = 1000;
  home = "/root";
  proc_entries = none;
  metrics_answer = λ address. false;
  stat = files;
  read_hash = λ path. ok hash;
  read_manifest = λ path. err "no such file";
  is_loopback_ip = λ text. false;
  split_host_port = λ text. none;
  dial = λ address. false;
  dial_tls = λ address. none;
  read_pem = certificates;
  walk_dir = λ path. [];
  format_time = λ t. "";
  format_date = λ t. "";
}

abbrev checker : LiveChecker
checker = record defaults { cert_paths = "a.pem" ∷ "b.pem" ∷ "c.pem" ∷ [] }

check_tls_cert_expiry-expiries_example :
    let status = (check_tls_cert_expiry system checker).status in
    let times : List ℕ = 9000000 ∷ 4000000 ∷ [] in
    ((status ≡ fail) ↔ ¬ All (λ t. 1000 ≤ t) times)
    × ((status ≡ pass) ↔ (times ≢ []) × All (λ t. 1000 + 30 * day ≤ t) times)
    × ((status ≡ unknown) ↔ (times ≡ []))
unfolding expiries
check_tls_cert_expiry-expiries_example = check_tls_cert_expiry-expiries system checker

check_secrets_at_rest-permissions_example :
    let status = (check_secrets_at_rest system checker).status in
    let perms = permissions system (collect_secret_files system checker) in
    ((status ≡ fail) ↔ ¬ All Private perms)
    × ((status ≡ pass) ↔ All (λ p. Private p × Narrow p) perms)
check_secrets_at_rest-permissions_example = check_secrets_at_rest-permissions system checker

hash-long : (path h : String) → system.read_hash path ≡ ok h → 8 ≤ text_length h
hash-long path h e = let same : hash ≡ h = ground (arith, e) in rw (← same) (omega arith)

check_upstream_integrity-panics_example :
    Judged
      (some (ok hash))
      "abcd"
      (check_upstream_integrity system (record checker { upstream_checksum = "abcd" }))
unfolding first_found
check_upstream_integrity-panics_example =
    check_upstream_integrity-panics system (record checker { upstream_checksum = "abcd" }) hash-long
