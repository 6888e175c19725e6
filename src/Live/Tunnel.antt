-- ===== src/Live/Tunnel.antt =====
-- The tunnel checks of internal/compliance/live.go.
use cloudflared_fips.Prelude.{
  ℕ, suc, ◌-◌, String, Bool, true, false, ◌||◌, List, [], ◌∷◌, Option, none, some, length, str_eq,
  leb, ltb, ◌==◌, if◌then◌else◌,
}
use cloudflared_fips.Prelude.Results.{Result, ok, err}
use cloudflared_fips.Prelude.Text.{concat, decimal, trim_space}
use cloudflared_fips.Compliance.{pass, fail, warning, unknown, ChecklistItem}
use cloudflared_fips.Compliance.Items.{mark, mark_status}
use cloudflared_fips.FipsBackend.{
  Backend, detect, detect_info, display_name, cmvp_certificate, fips_standard, is_active,
}
use cloudflared_fips.SelfTest.{CheckResult, is_fips_approved, get_fips_tls_config}
use cloudflared_fips.SelfTest as SelfTest
use cloudflared_fips.SelfTest.Checks.{banned_of}
use cloudflared_fips.SelfTest.Reports.{run_all_checks}
use cloudflared_fips.Live.{
  System, LiveChecker, Manifest, build_of, detect_cloudflared_process, exists, first_found,
}
use cloudflared_fips.Live.TunnelItems.{
  boring_crypto_active_item, os_fips_mode_item, fips_self_test_item, tunnel_protocol_item,
  tls_version_item, cipher_suites_item, key_exchange_item, certificate_validity_item,
  tunnel_redundancy_item, binary_integrity_item, config_drift_item, fips_backend_item,
}
use Prim.Native.String.{slice}

abbrev active_backend : System → Option Backend → ChecklistItem
active_backend s none = mark_status fail boring_crypto_active_item
active_backend s (some b) =
    if is_active (build_of s) b
    then mark pass
        (concat "Active FIPS backend: " (
          concat (display_name b) (
            concat " (CMVP: " (
              concat (cmvp_certificate (build_of s) b)
                (concat ", Standard: " (concat (fips_standard (build_of s) b) ")"))))))
        boring_crypto_active_item
    else mark_status fail boring_crypto_active_item

pub check_boring_crypto_active : System → ChecklistItem
check_boring_crypto_active s = active_backend s (detect (build_of s))

abbrev os_flag : Result String → ChecklistItem
os_flag (err _) = mark_status warning os_fips_mode_item
os_flag (ok text) =
    mark_status (if str_eq (trim_space text) "1" then pass else warning) os_fips_mode_item

pub check_os_fips_mode : System → ChecklistItem
check_os_fips_mode s =
    if str_eq (build_of s).goos "linux"
    then os_flag s.self_test.fips_enabled
    else mark warning (concat "OS FIPS mode check not applicable on " (build_of s).goos)
        os_fips_mode_item

abbrev pub is_failed : CheckResult → Bool
is_failed r = elim r.status [ SelfTest.fail ↦ true | _ ↦ false ]

-- the loop that ends at the first failed result
any_failed : List CheckResult → Bool
any_failed [] = false
any_failed (r ∷ results) = let rest = any_failed results in if is_failed r then true else rest

abbrev self_tested : List CheckResult × Option String → ChecklistItem
self_tested (results, some _) = mark_status fail fips_self_test_item
self_tested (results, none) =
    mark_status (if any_failed results then fail else pass) fips_self_test_item

pub check_fips_self_test : System → ChecklistItem
check_fips_self_test s = self_tested (run_all_checks s.suite_name s.self_test)

pub check_tunnel_protocol : System → LiveChecker → ChecklistItem
check_tunnel_protocol s lc =
    if s.metrics_answer lc.metrics_addr
    then mark pass "Tunnel active (metrics endpoint reachable); protocol detected via metrics"
        tunnel_protocol_item
    else if (detect_cloudflared_process s).0
    then mark pass "cloudflared process running (enable --metrics for protocol details)"
        tunnel_protocol_item
    else mark unknown "cloudflared not detected; start tunnel or enable --metrics endpoint"
        tunnel_protocol_item

pub check_tls_version : ChecklistItem
check_tls_version =
    mark_status (if leb 0x0303 get_fips_tls_config.min_version then pass else fail) tls_version_item

abbrev blocked : System → ℕ → Option Backend → ChecklistItem
blocked s banned none =
    mark fail (concat (decimal banned) " non-FIPS cipher suites detected (no FIPS backend active)")
      cipher_suites_item
blocked s banned (some b) =
    mark pass
      (concat (decimal (length s.self_test.cipher_suites - banned)) (
        concat " FIPS-approved suites active; " (
          concat (decimal banned)
            (concat " non-approved blocked by " (concat (display_name b) " FIPS module")))))
      cipher_suites_item

pub check_cipher_suites : System → ChecklistItem
check_cipher_suites s =
    let banned = length (banned_of s.self_test.cipher_suites) in
    if banned == 0
    then mark pass
        (concat "All "
          (concat (decimal (length s.self_test.cipher_suites)) " cipher suites are FIPS-approved"))
        cipher_suites_item
    else blocked s banned (detect (build_of s))

pub check_key_exchange : ChecklistItem
check_key_exchange =
    mark_status (if ltb 0 (length get_fips_tls_config.curve_preferences) then pass else warning)
      key_exchange_item

abbrev home_cert : System → String
home_cert s = concat s.home "/.cloudflared/cert.pem"

abbrev by_process : Bool × Bool → ChecklistItem
by_process (true, true) =
    mark pass "Token-based tunnel authentication (JWT); cert.pem not required"
      certificate_validity_item
by_process (true, false) =
    mark pass "cloudflared running; tunnel authenticated" certificate_validity_item
by_process (false, _) =
    mark unknown "No tunnel certificate found and no cloudflared process detected"
      certificate_validity_item

pub check_certificate_validity : System → ChecklistItem
check_certificate_validity s =
    elim (first_found s (home_cert s ∷ "/etc/cloudflared/cert.pem" ∷ [])) [
      | some p ↦ mark pass (concat "Certificate found: " p) certificate_validity_item
      | none ↦ by_process (detect_cloudflared_process s)
    ]

pub check_tunnel_redundancy : System → LiveChecker → ChecklistItem
check_tunnel_redundancy s lc =
    if s.metrics_answer lc.metrics_addr
    then mark pass "Tunnel connections active (metrics endpoint reachable)" tunnel_redundancy_item
    else if (detect_cloudflared_process s).0
    then mark pass
        "cloudflared running (default: 4 redundant connections; enable --metrics for details)"
        tunnel_redundancy_item
    else mark unknown "cloudflared not detected; start tunnel or enable --metrics endpoint"
        tunnel_redundancy_item

abbrev pub text_length : String → ℕ
text_length String.[] = 0
text_length (String.◌∷◌ c s) = suc (text_length s)

-- `h[:8]` and `h[len(h)-8:]` with dots between; the slices panic on a text of fewer than eight
-- bytes, which is none here. A hash is of single-byte characters.
unfoldable pub short_hash : String → Option String
short_hash h =
    let n = text_length h in
    if ltb n 8 then none else some (concat (slice h 0 8) (concat "..." (slice h (n - 8) n)))

-- what is made of a short hash, where taking it does not panic
abbrev pub with_short : Option String → (String → ChecklistItem) → Option ChecklistItem
with_short none make = none
with_short (some h) make = some (make h)

abbrev zero_hash : String
zero_hash = "e3b0c44298fc1c149afbf4c8996fb92427ae41e4649b934ca495991b7852b855"

abbrev no_hash : String → ChecklistItem
no_hash h =
    record (mark warning (concat "Manifest has no binary hash to compare; current binary: " h)
      binary_integrity_item) {
        remediation = "Regenerate the build manifest: make manifest (ensures binary_sha256 is set)";
      }

abbrev pub mismatch : String → Option String → Option String → ChecklistItem → Option ChecklistItem
mismatch what none _ item = none
mismatch what (some got) none item = none
mismatch what (some got) (some expected) item =
    some (mark fail (concat what (concat got (concat ", expected " expected))) item)

compare_hash : String → Manifest → Option ChecklistItem
compare_hash binary_hash m =
    if str_eq m.binary_sha256 "" || str_eq m.binary_sha256 zero_hash
    then with_short (short_hash binary_hash) no_hash
    else if str_eq binary_hash m.binary_sha256
    then with_short (short_hash binary_hash)
        (λ h. mark pass (concat "Binary hash verified: " h) binary_integrity_item)
    else mismatch "Binary hash mismatch: got " (short_hash binary_hash) (short_hash m.binary_sha256)
        binary_integrity_item

abbrev against_manifest : Result Manifest → String → Option ChecklistItem
against_manifest (err _) binary_hash =
    some (
      mark unknown "Build manifest not found; cannot verify binary integrity" binary_integrity_item)
against_manifest (ok m) binary_hash = compare_hash binary_hash m

abbrev hashed : System → LiveChecker → Result String → Option ChecklistItem
hashed s lc (err _) = some (mark_status unknown binary_integrity_item)
hashed s lc (ok binary_hash) = against_manifest (s.read_manifest lc.manifest_path) binary_hash

-- None is a panic.
pub check_binary_integrity : System → LiveChecker → Option ChecklistItem
check_binary_integrity s lc =
    if str_eq lc.binary_path ""
    then some (
        mark unknown "Binary path not available (non-Linux or not self-detected)"
          binary_integrity_item)
    else hashed s lc (s.read_hash lc.binary_path)

pub check_config_drift : System → LiveChecker → ChecklistItem
check_config_drift s lc =
    if str_eq lc.config_path ""
    then mark unknown "No config path specified" config_drift_item
    else if exists (s.stat lc.config_path)
    then mark pass "Config file present (baseline comparison requires external CM integration)"
        config_drift_item
    else mark unknown "Config file not found" config_drift_item

pub check_fips_backend : System → ChecklistItem
check_fips_backend s =
    let i = detect_info (build_of s) in
    if i.active
    then mark (if i.validated then pass else warning)
        (concat "Active: " (
          concat i.display_name (
            concat " | CMVP: "
              (concat i.cmvp_certificate (concat " | Standard: " i.fips_standard)))))
        fips_backend_item
    else mark fail "No FIPS cryptographic module detected" fips_backend_item
