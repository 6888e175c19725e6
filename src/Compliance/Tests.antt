-- ===== src/Compliance/Tests.antt =====
-- The theorems on internal/compliance/checker.go at a small report.
use cloudflared_fips.Prelude.{◌≡◌, List, [], ◌∷◌}
use cloudflared_fips.Compliance.{
  Status, pass, fail, warning, unknown, other, ChecklistItem, Section, Checker, generate_report,
  overall_status,
}
use cloudflared_fips.Compliance.Counts.{generate_report-counts}
use cloudflared_fips.Compliance.Overall.{overall_status-worst}

abbrev item : Status → ChecklistItem
item status = record {
  id = "ag-fips";
  name = "OS FIPS Mode";
  status = status;
  severity = "critical";
  verification_method = "direct";
  what = "";
  why = "";
  remediation = "";
  nist_ref = "SC-13";
}

abbrev section : List ChecklistItem → Section
section items = record { id = "agent"; name = "Endpoint"; description = ""; items = items }

abbrev checker : Checker
checker = record {
  sections =
      section (item pass ∷ item warning ∷ [])
      ∷ section (item (other "n/a") ∷ item fail ∷ item unknown ∷ [])
      ∷ [];
}

generate_report-counts_example :
    ((generate_report "now" checker).summary.total ≡ 5)
    × ((generate_report "now" checker).summary.passed ≡ 1)
    × ((generate_report "now" checker).summary.failed ≡ 1)
    × ((generate_report "now" checker).summary.warnings ≡ 1)
    × ((generate_report "now" checker).summary.unknowns ≡ 1)
    × ((generate_report "now" checker).summary.total ≡ 5)
unfolding generate_report
generate_report-counts_example = generate_report-counts "now" checker

overall_status-worst_example : overall_status checker ≡ fail
overall_status-worst_example = overall_status-worst checker
