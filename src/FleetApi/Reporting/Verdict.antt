-- ===== src/FleetApi/Reporting/Verdict.antt =====
-- What the policy of internal/dashboard/fleet_handler.go (`evaluateNodeCompliance`) makes of a report.
use cloudflared_fips.Prelude.{
  ◌≡◌, ◌≢◌, refl, Bool, true, false, ◌&&◌, ◌||◌, not, List, [], ◌∷◌, ◌++◌, arith, str_eq-ne, All,
  if◌then◌else◌,
}
use cloudflared_fips.Compliance.{ChecklistItem, Section, ComplianceReport, all_items}
use cloudflared_fips.Fleet.Types.{CompliancePolicy, compliant, non_compliant}
use cloudflared_fips.FleetApi.Reporting.{violates, items_comply, sections_comply, compliance_of}

abbrev pub any_violates : CompliancePolicy → List ChecklistItem → Bool
any_violates p [] = false
any_violates p (item ∷ items) = violates p item || any_violates p items

any_violates-append :
    (p : CompliancePolicy) (xs ys : List ChecklistItem)
    → any_violates p (xs ++ ys) ≡ any_violates p xs || any_violates p ys
any_violates-append p [] ys = refl
any_violates-append p (x ∷ xs) ys = ground (arith, any_violates-append p xs ys)

items_comply-any :
    (p : CompliancePolicy) (items : List ChecklistItem) (fine : Bool)
    → items_comply p items fine ≡ fine && not (any_violates p items)
unfolding items_comply
items_comply-any p [] fine = ground arith
items_comply-any p (item ∷ items) fine =
    ground (arith, items_comply-any p items (if violates p item then false else fine))

sections_comply-any :
    (p : CompliancePolicy) (sections : List Section) (fine : Bool)
    → sections_comply p sections fine ≡ fine && not (any_violates p (all_items sections))
unfolding sections_comply
sections_comply-any p [] fine = ground arith
sections_comply-any p (s ∷ sections) fine = ground (
  arith,
  sections_comply-any p sections (items_comply p s.items fine),
  items_comply-any p s.items fine,
  any_violates-append p s.items (all_items sections),
)

-- The item has none of the names that the policy looks at.
abbrev Unnamed : ChecklistItem → Type 0
Unnamed item =
    (item.name ≢ "OS FIPS mode")
    × (item.name ≢ "Disk encryption")
    × (item.name ≢ "FIPS backend active")

none_violates :
    (p : CompliancePolicy) (items : List ChecklistItem)
    → All Unnamed items
    → any_violates p items ≡ false
unfolding violates
none_violates p [] h = refl
none_violates p (item ∷ items) h = ground (
  arith,
  str_eq-ne item.name "OS FIPS mode" h.0.0,
  str_eq-ne item.name "Disk encryption" h.0.1,
  str_eq-ne item.name "FIPS backend active" h.0.2,
  none_violates p items h.1,
)

-- The verdict is `compliant` exactly if no item of any section is held against the node: neither the
-- order of items nor their sections matter, and one violation decides.
pub compliance_of-any :
    (p : CompliancePolicy) (report : ComplianceReport)
    → compliance_of p report
      ≡ (if any_violates p (all_items report.sections) then non_compliant else compliant)
compliance_of-any p report = ground (arith, sections_comply-any p report.sections true)

-- A report in which no item is called `OS FIPS mode`, `Disk encryption` or `FIPS backend active`, in
-- these very letters, is compliant under every policy, whatever its statuses are.
pub compliance_of-Unnamed :
    (p : CompliancePolicy) (report : ComplianceReport)
    → All Unnamed (all_items report.sections)
    → compliance_of p report ≡ compliant
compliance_of-Unnamed p report h =
    ground (arith, compliance_of-any p report, none_violates p (all_items report.sections) h)
