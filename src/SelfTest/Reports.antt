-- ===== src/SelfTest/Reports.antt =====
-- `RunAllChecks` and the reports of internal/selftest/selftest.go.
use cloudflared_fips.Prelude.{
  ℕ, ◌+◌, String, Bool, true, false, List, [], ◌∷◌, ◌++◌, Option, none, some, if◌then◌else◌,
}
use cloudflared_fips.Prelude.Text.{concat}
use cloudflared_fips.FipsBackend.{Backend, boring_crypto, go_native, system_crypto, detect}
use cloudflared_fips.SelfTest.{critical, Status, pass, fail, warn, skip, CheckResult}
use cloudflared_fips.SelfTest.Checks.{
  Host, check_boring_crypto_linked, check_boring_crypto_version, check_os_fips_mode,
  check_cipher_suites, check_fips_backend_active, check_quic_cipher_safety, check_go_native_fips,
  run_backend_self_test, check_binary_signature, join_names,
}

pub record Options : Type 0 where
  pub verify_signature : Bool
  pub signature_key_path : String

abbrev pub is_critical_failure : CheckResult → Bool
is_critical_failure r = elim r.status [
  | fail ↦ elim r.severity [ critical ↦ true | _ ↦ false ]
  | _ ↦ false
]

unfoldable pub critical_failures : List CheckResult → List String
critical_failures [] = []
critical_failures (r ∷ results) =
    let rest = critical_failures results in if is_critical_failure r then r.name ∷ rest else rest

abbrev pub failing : List String → Option String → Option String
failing [] otherwise = otherwise
failing (name ∷ names) _ = some (concat "critical self-test failures: " (join_names (name ∷ names)))

abbrev backend_checks : Host → Option Backend → List CheckResult
backend_checks h none = []
backend_checks h (some boring_crypto) =
    check_boring_crypto_linked h ∷ check_boring_crypto_version h ∷ []
backend_checks h (some go_native) = check_go_native_fips h ∷ []
backend_checks h (some system_crypto) = []

abbrev own_test : Host → Option Backend → List CheckResult
own_test h none = []
own_test h (some backend) = run_backend_self_test h backend ∷ []

-- the results without the error
pub all_results : (ℕ → String) → Host → List CheckResult
all_results name_of h =
    (check_fips_backend_active h
      ∷ check_os_fips_mode h
      ∷ check_cipher_suites h
      ∷ check_quic_cipher_safety name_of
      ∷ backend_checks h (detect h.build))
    ++ (h.known_answer_tests ++ own_test h (detect h.build))

unfoldable pub run_all_checks : (ℕ → String) → Host → List CheckResult × Option String
run_all_checks name_of h =
    let results = all_results name_of h in (results, failing (critical_failures results) none)

-- The path of the key is not used: the signature is verified against the default keyring.
unfoldable pub run_all_checks_with_options :
    (ℕ → String) → Options → Host → List CheckResult × Option String
run_all_checks_with_options name_of opts h =
    let (first, e) = run_all_checks name_of h in
    let results = if opts.verify_signature then first ++ check_binary_signature h ∷ [] else first in
    (results, failing (critical_failures results) e)

pub record Summary : Type 0 where
  pub total : ℕ
  pub passed : ℕ
  pub failed : ℕ
  pub warnings : ℕ
  pub skipped : ℕ

pub record SelfTestReport : Type 0 where
  pub version : String
  pub platform : String
  pub timestamp : String
  pub results : List CheckResult
  pub summary : Summary

unfoldable pub count_result : Summary → Status → Summary
count_result s pass = record s { total = s.total + 1; passed = s.passed + 1 }
count_result s fail = record s { total = s.total + 1; failed = s.failed + 1 }
count_result s warn = record s { total = s.total + 1; warnings = s.warnings + 1 }
count_result s skip = record s { total = s.total + 1; skipped = s.skipped + 1 }

unfoldable pub count_results : Summary → List CheckResult → Summary
count_results s [] = s
count_results s (r ∷ results) = count_results (count_result s r.status) results

abbrev pub no_results : Summary
no_results = record { total = 0; passed = 0; failed = 0; warnings = 0; skipped = 0 }

unfoldable pub generate_report_with_options :
    (ℕ → String) → String → String → Options → Host → SelfTestReport × Option String
generate_report_with_options name_of now version opts h =
    let (results, e) =
      if opts.verify_signature
      then run_all_checks_with_options name_of opts h
      else run_all_checks name_of h in
    (
      record {
        version = version;
        platform = concat h.build.goos (concat "/" h.goarch);
        timestamp = now;
        results = results;
        summary = count_results no_results results;
      },
      e,
    )

abbrev pub generate_report : (ℕ → String) → String → String → Host → SelfTestReport × Option String
generate_report name_of now version h =
    generate_report_with_options name_of now version
      (record { verify_signature = false; signature_key_path = "" }) h
