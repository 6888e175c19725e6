-- ===== src/SelfTest/Failures.antt =====
-- When the self-test of internal/selftest/selftest.go fails.
use cloudflared_fips.Prelude.{
  ℕ, suc, ◌+◌, ◌≡◌, ◌≢◌, ◌⊎◌, String, Bool, true, false, List, [], ◌∷◌, ◌++◌, length, All,
  if◌then◌else◌,
}
use cloudflared_fips.SelfTest.{CheckResult, Status, pass, fail, warn, skip, critical}
use cloudflared_fips.SelfTest.Checks.{Host, check_binary_signature}
use cloudflared_fips.SelfTest.Reports.{is_critical_failure, all_results, Summary}

abbrev pub NoCriticalFailure : List CheckResult → Type 0
NoCriticalFailure = All (λ r. is_critical_failure r ≡ false)

pub is_status : Status → Status → Bool
is_status pass pass = true
is_status fail fail = true
is_status warn warn = true
is_status skip skip = true
is_status _ _ = false

-- how many of the results have the status
pub with_status : Status → List CheckResult → ℕ
with_status status [] = 0
with_status status (r ∷ results) =
    let rest = with_status status results in if is_status status r.status then suc rest else rest

-- The summary has grown by the results, each under its own status.
abbrev Counts : Summary → List CheckResult → Summary → Type 0
Counts s results t =
    (t.total ≡ s.total + length results)
    × (t.passed ≡ s.passed + with_status pass results)
    × (t.failed ≡ s.failed + with_status fail results)
    × (t.warnings ≡ s.warnings + with_status warn results)
    × (t.skipped ≡ s.skipped + with_status skip results)

-- a result that is no failure, or none of a critical check
abbrev pub Tolerable : CheckResult → Type 0
Tolerable r = (r.status ≢ fail) ⊎ (r.severity ≢ critical)

-- the results of a report: those of all checks, and the signature's where it is asked for
abbrev pub demanded : (ℕ → String) → Bool → Host → List CheckResult
demanded name_of true h = all_results name_of h ++ check_binary_signature h ∷ []
demanded name_of false h = all_results name_of h
