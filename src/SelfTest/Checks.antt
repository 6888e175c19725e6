-- ===== src/SelfTest/Checks.antt =====
-- The checks of internal/selftest/selftest.go, but for the known-answer tests.
use cloudflared_fips.Prelude.{
  ℕ, ◌-◌, String, Bool, false, ◌&&◌, List, [], ◌∷◌, map, Option, none, some, length, str_eq, leb,
  ◌==◌, if◌then◌else◌,
}
use cloudflared_fips.Prelude.Results.{Result, ok, err}
use cloudflared_fips.Prelude.Text.{
  concat, contains, decimal, has_prefix, trim_prefix, trim_space, split_cuts,
}
use cloudflared_fips.FipsBackend.{
  Build, Backend, boring_crypto, go_native, system_crypto, atoi, detect, to_info, backend_self_test,
  is_boring_crypto_active,
}
use cloudflared_fips.FipsBackend as FipsBackend
use cloudflared_fips.SelfTest.{
  Severity, critical, warning, info, Status, pass, fail, warn, skip, CheckResult, is_fips_approved,
  get_fips_tls_config,
}

-- What the checks read of the host: Go's build, `tls.CipherSuites` with their names, the kernel's
-- FIPS flag, the known-answer tests, which call the cryptographic library, and for the signature the
-- two ways to the binary's path, the files that exist and what gpg says: the binary's hash.
pub record Host : Type 0 where
  pub build : Build
  pub cipher_suites : List (ℕ × String)
  pub fips_enabled : Result String
  pub known_answer_tests : List CheckResult
  pub goarch : String
  pub executable : Result String
  pub self_exe : Result String
  pub exists : String → Bool
  pub gpg_verify : String → String → Result String

abbrev pub begin : String → Severity → CheckResult
begin name severity = record {
  name = name;
  status = skip;
  severity = severity;
  message = "";
  details = "";
  remediation = "";
}

abbrev ends : Status → String → String → String → CheckResult → CheckResult
ends status message details remediation r = record r {
  status = status;
  message = message;
  details = details;
  remediation = remediation;
}

pub check_boring_crypto_linked : Host → CheckResult
check_boring_crypto_linked h =
    if is_boring_crypto_active h.build
    then ends pass "BoringCrypto module is linked"
        "Binary built with GOEXPERIMENT=boringcrypto; FIPS 140-2 cert #4407" ""
        (begin "boring_crypto_linked" critical)
    else ends fail "BoringCrypto module is NOT linked" ""
        "Rebuild with GOEXPERIMENT=boringcrypto CGO_ENABLED=1"
        (begin "boring_crypto_linked" critical)

abbrev minor_24 : Option ℕ → Bool
minor_24 none = false
minor_24 (some m) = leb 24 m

-- The parts after the second are not looked at, as two cuts leave them together.
abbrev is_1_24 : List String → Bool
is_1_24 (major ∷ minor ∷ _) = str_eq major "1" && minor_24 (atoi minor)
is_1_24 _ = false

is_140_3 : String → Bool
is_140_3 version = has_prefix version "go" && is_1_24 (split_cuts b'.' 2 (trim_prefix version "go"))

pub check_boring_crypto_version : Host → CheckResult
check_boring_crypto_version h =
    let version = h.build.version in
    if is_140_3 version
    then ends pass "BoringCrypto FIPS 140-3 module detected"
        (concat "Go " (
          concat version
            " ships BoringCrypto based on BoringSSL fips-20230428+ (CMVP #4735, FIPS 140-3). Run scripts/verify-boring-version.sh for detailed .syso hash verification."))
        "" (begin "boring_crypto_version" info)
    else ends warn "BoringCrypto FIPS 140-2 module detected (sunset Sept 21, 2026)"
        (concat "Go " (
          concat version
            " ships BoringCrypto based on older BoringSSL (CMVP #4407, FIPS 140-2). Upgrade to Go 1.24+ for FIPS 140-3. Run scripts/verify-boring-version.sh for detailed verification."))
        "Upgrade to Go 1.24+ which ships the FIPS 140-3 certified BoringCrypto module (#4735)"
        (begin "boring_crypto_version" info)

abbrev os_flag : Result String → CheckResult
os_flag (err e) =
    ends warn "Cannot read /proc/sys/crypto/fips_enabled" e
      "Ensure the host OS has FIPS mode enabled: fips-mode-setup --enable"
      (begin "os_fips_mode" warning)
os_flag (ok text) =
    if str_eq (trim_space text) "1"
    then ends pass "OS FIPS mode is enabled" "" "" (begin "os_fips_mode" warning)
    else ends warn "OS FIPS mode is not enabled"
        (concat "/proc/sys/crypto/fips_enabled = " (trim_space text))
        "Enable FIPS mode: fips-mode-setup --enable && reboot" (begin "os_fips_mode" warning)

pub check_os_fips_mode : Host → CheckResult
check_os_fips_mode h =
    if str_eq h.build.goos "linux"
    then os_flag h.fips_enabled
    else ends skip (concat "OS FIPS mode check not applicable on " h.build.goos) "" ""
        (begin "os_fips_mode" warning)

-- the names of the suites that are not approved
pub banned_of : List (ℕ × String) → List String
banned_of [] = []
banned_of ((id, name) ∷ suites) =
    let rest = banned_of suites in if is_fips_approved id then rest else name ∷ rest

abbrev join_from : String → List String → String
join_from text [] = text
join_from text (name ∷ names) = join_from (concat text (concat ", " name)) names

-- `strings.Join(names, ", ")`
abbrev pub join_names : List String → String
join_names [] = ""
join_names (name ∷ names) = join_from name names

abbrev banned_suites : List (ℕ × String) → List String → Option Backend → CheckResult
banned_suites suites banned (some go_native) =
    ends pass
      (concat (decimal (length suites - length banned)) (
        concat " FIPS-approved cipher suites available; " (
          concat (decimal (length banned))
            " non-approved listed but blocked at runtime by Go FIPS module")))
      "Go native FIPS restricts cipher negotiation at runtime. tls.CipherSuites() returns the static list, not the effective set."
      "" (begin "cipher_suites" critical)
banned_suites suites banned (some boring_crypto) =
    ends pass
      (concat "All " (
        concat (decimal (length suites))
          " cipher suites routed through BoringCrypto validated module (CMVP #4735)"))
      (concat (decimal (length banned))
        " suites with non-AES-GCM names (e.g. ChaCha20, CBC) are still handled by the validated BoringSSL module.")
      "" (begin "cipher_suites" critical)
banned_suites suites banned _ =
    ends fail (concat (decimal (length banned)) " non-FIPS cipher suites detected")
      (join_names banned) "Rebuild with GOEXPERIMENT=boringcrypto to restrict cipher suites"
      (begin "cipher_suites" critical)

pub check_cipher_suites : Host → CheckResult
check_cipher_suites h =
    let banned = banned_of h.cipher_suites in
    if length banned == 0
    then ends pass
        (concat "All "
          (concat (decimal (length h.cipher_suites)) " available cipher suites are FIPS-approved"))
        "" "" (begin "cipher_suites" critical)
    else banned_suites h.cipher_suites banned (detect h.build)

abbrev bool_text : Bool → String
bool_text b = if b then "true" else "false"

abbrev backend_active : Build → Option Backend → CheckResult
backend_active b none =
    ends fail "No FIPS cryptographic backend detected" ""
      "Build with GOEXPERIMENT=boringcrypto (Linux) or set GODEBUG=fips140=on (cross-platform)"
      (begin "fips_backend_active" critical)
backend_active b (some backend) =
    let i = to_info b backend in
    ends pass (concat "FIPS backend active: " i.display_name)
      (concat "Standard: " (
        concat i.fips_standard (
          concat ", CMVP: "
            (concat i.cmvp_certificate (concat ", Validated: " (bool_text i.validated))))))
      "" (begin "fips_backend_active" critical)

pub check_fips_backend_active : Host → CheckResult
check_fips_backend_active h = backend_active h.build (detect h.build)

abbrev named : (ℕ → String) → List ℕ → List (ℕ × String)
named name_of = map (λ id. (id, name_of id))

-- The names of the offending suites are in the details, as Go names them.
pub check_quic_cipher_safety : (ℕ → String) → CheckResult
check_quic_cipher_safety name_of =
    let suites = get_fips_tls_config.cipher_suites in
    let non_fips = banned_of (named name_of suites) in
    if length non_fips == 0
    then ends pass "QUIC cipher configuration is FIPS-safe"
        (concat "TLS 1.2: " (
          concat (decimal (length suites))
            " FIPS-approved suites configured. TLS 1.3: AES-GCM preferred; ChaCha20-Poly1305 only used if client forces it (FIPS clients always offer AES-GCM). See docs/quic-go-crypto-audit.md."))
        "" (begin "quic_cipher_safety" critical)
    else ends fail "FIPS TLS config includes non-approved TLS 1.2 cipher suites"
        (join_names non_fips) "Update GetFIPSTLSConfig to exclude non-FIPS suites"
        (begin "quic_cipher_safety" critical)

pub check_go_native_fips : Host → CheckResult
check_go_native_fips h =
    let godebug = h.build.godebug in
    if contains godebug "fips140=on"
    then ends pass "Go native FIPS 140-3 module is active (GODEBUG=fips140=on)"
        "CAVP A6650; CMVP validation pending. Power-up self-test passed at init." ""
        (begin "go_native_fips" info)
    else if contains godebug "fips140=only"
    then ends pass "Go native FIPS 140-3 module is active in strict mode (GODEBUG=fips140=only)"
        "Warning: fips140=only mode is incompatible with QUIC retry (RFC 9001 fixed nonce)" ""
        (begin "go_native_fips" info)
    else ends warn "GODEBUG=fips140 not detected in environment" (concat "GODEBUG=" godebug)
        "Set GODEBUG=fips140=on in the process environment" (begin "go_native_fips" info)

-- No backend returns an error.
pub run_backend_self_test : Host → Backend → CheckResult
run_backend_self_test h backend =
    let r = begin (concat "backend_selftest_" (FipsBackend.name backend)) critical in
    if backend_self_test h.build backend
    then ends pass (concat "Backend self-test passed for " (FipsBackend.display_name backend)) "" ""
        r
    else ends fail (concat "Backend self-test did not pass for " (FipsBackend.display_name backend))
        "" "Verify build flags and FIPS module configuration" r

-- A second call of `os.Executable` answers as the first.
abbrev either : Result String → Result String → Result String
either (ok p) _ = ok p
either (err _) other = other

abbrev or_path : Result String → String → String
or_path (ok p) _ = p
or_path (err _) path = path

abbrev resolve_executable : Host → String → String
resolve_executable h path =
    or_path (if str_eq h.build.goos "linux" then either h.self_exe h.executable else h.executable)
      path

abbrev verified : Result String → String → CheckResult
verified (err e) path =
    ends fail "Binary signature verification failed" e
      "Re-sign the binary with a trusted GPG key, or import the signing key"
      (begin "binary_signature" warning)
verified (ok sha256) path =
    ends pass "Binary signature verified"
      (concat "Binary: " (concat path (concat ", SHA-256: " sha256))) ""
      (begin "binary_signature" warning)

abbrev signed_at : Host → String → CheckResult
signed_at h path =
    if h.exists (concat path ".sig")
    then verified (h.gpg_verify path (concat path ".sig")) path
    else ends warn "No signature file found for binary" (concat "Expected: " (concat path ".sig"))
        "Sign the binary with: gpg --detach-sign --armor --output binary.sig binary"
        (begin "binary_signature" warning)

pub check_binary_signature : Host → CheckResult
check_binary_signature h = elim h.executable [
  | err e ↦
      ends warn "Cannot determine binary path for signature verification" e ""
        (begin "binary_signature" warning)
  | ok path ↦ signed_at h (resolve_executable h path)
]
