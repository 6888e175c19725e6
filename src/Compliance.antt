-- ===== src/Compliance.antt =====
-- internal/compliance/types.go and internal/compliance/checker.go: checklist items, their sections,
-- and the checker that counts them and finds the worst status. The proofs are in the children.
pub mod Counts
pub mod Overall
pub mod Items
mod Tests
use cloudflared_fips.Prelude.{
  ℕ, ◌+◌, String, Bool, true, false, not, ◌&&◌, List, [], ◌∷◌, ◌++◌, Option, none, some,
  if◌then◌else◌,
}

-- A Go string type: `other` is any text that is none of the four constants.
pub data Status : Type 0 where
  pass fail warning unknown : Status
  other : String → Status

pub record ChecklistItem : Type 0 where
  pub id : String
  pub name : String
  pub status : Status
  pub severity : String
  pub verification_method : String
  pub what : String
  pub why : String
  pub remediation : String
  pub nist_ref : String

pub record Section : Type 0 where
  pub id : String
  pub name : String
  pub description : String
  pub items : List ChecklistItem

pub record Summary : Type 0 where
  pub total : ℕ
  pub passed : ℕ
  pub failed : ℕ
  pub warnings : ℕ
  pub unknowns : ℕ

pub record ComplianceReport : Type 0 where
  pub timestamp : String
  pub sections : List Section
  pub summary : Summary

pub record Checker : Type 0 where
  pub sections : List Section

abbrev new_checker : Checker
new_checker = record { sections = [] }

add_section : Checker → Section → Checker
add_section c section = record { sections = c.sections ++ section ∷ [] }

abbrev pub no_counts : Summary
no_counts = record { total = 0; passed = 0; failed = 0; warnings = 0; unknowns = 0 }

-- the body of the inner loop of `GenerateReport`: `Total++`, then the `switch`
pub count_status : Summary → Status → Summary
count_status s pass = record s { total = s.total + 1; passed = s.passed + 1 }
count_status s fail = record s { total = s.total + 1; failed = s.failed + 1 }
count_status s warning = record s { total = s.total + 1; warnings = s.warnings + 1 }
count_status s unknown = record s { total = s.total + 1; unknowns = s.unknowns + 1 }
count_status s (other _) = record s { total = s.total + 1 }

pub count_items : Summary → List ChecklistItem → Summary
count_items s [] = s
count_items s (item ∷ items) = count_items (count_status s item.status) items

pub count_sections : Summary → List Section → Summary
count_sections s [] = s
count_sections s (section ∷ rest) = count_sections (count_items s section.items) rest

-- The time of the report is an argument.
pub generate_report : String → Checker → ComplianceReport
unfolding count_status count_items count_sections
generate_report now c = record {
  timestamp = now;
  sections = c.sections;
  summary = count_sections no_counts c.sections;
}

abbrev is_fail : Status → Bool
is_fail fail = true
is_fail _ = false

abbrev is_warning : Status → Bool
is_warning warning = true
is_warning _ = false

abbrev is_unknown : Status → Bool
is_unknown unknown = true
is_unknown _ = false

abbrev pub is_pass : Status → Bool
is_pass pass = true
is_pass _ = false

-- the two assignments to `worst` in the loop of `OverallStatus`
worsen : Status → Status → Status
worsen worst status =
    let first = if is_warning status && not (is_fail worst) then warning else worst in
    if is_unknown status && is_pass first then unknown else first

-- `none` is the early `return StatusFail`.
worst_items : Status → List ChecklistItem → Option Status
unfolding worsen
worst_items worst [] = some worst
worst_items worst (item ∷ items) =
    let rest = worst_items (worsen worst item.status) items in
    if is_fail item.status then none else rest

worst_sections : Status → List Section → Status
unfolding worst_items
worst_sections worst [] = worst
worst_sections worst (section ∷ rest) = elim (worst_items worst section.items) [
  | none ↦ fail
  | some w ↦ worst_sections w rest
]

pub overall_status : Checker → Status
unfolding worst_sections
overall_status c = worst_sections pass c.sections

-- every item of the sections, in order
abbrev pub all_items : List Section → List ChecklistItem
all_items [] = []
all_items (section ∷ rest) = section.items ++ all_items rest
