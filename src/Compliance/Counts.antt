-- ===== src/Compliance/Counts.antt =====
-- The counts of `GenerateReport` (internal/compliance/checker.go) against the list of all items.
use cloudflared_fips.Prelude.{
  ℕ, suc, ◌+◌, ◌≡◌, ◌∙◌, Bool, true, false, List, [], ◌∷◌, ◌++◌, String, arith, length,
  length-append, if◌then◌else◌,
}
use cloudflared_fips.Compliance.{
  Status, other, ChecklistItem, Section, Summary, Checker, no_counts, count_status, count_items,
  count_sections, generate_report, is_pass, is_fail, is_warning, is_unknown, all_items,
}

-- how many items have a status that passes the test
abbrev pub count_if : (Status → Bool) → List ChecklistItem → ℕ
count_if p [] = 0
count_if p (item ∷ items) = let n = count_if p items in if p item.status then suc n else n

count_if-append :
    (p : Status → Bool) (xs ys : List ChecklistItem)
    → count_if p (xs ++ ys) ≡ count_if p xs + count_if p ys
count_if-append p [] ys = omega arith
count_if-append p (x ∷ xs) ys = ground (arith, count_if-append p xs ys)

abbrev is_other : Status → Bool
is_other (other _) = true
is_other _ = false

-- the summary with the statuses of the items added
abbrev plus : Summary → List ChecklistItem → Summary
plus s items = record {
  total = s.total + length items;
  passed = s.passed + count_if is_pass items;
  failed = s.failed + count_if is_fail items;
  warnings = s.warnings + count_if is_warning items;
  unknowns = s.unknowns + count_if is_unknown items;
}

plus-cons :
    (s : Summary) (item : ChecklistItem) (items : List ChecklistItem)
    → plus (count_status s item.status) items ≡ plus s (item ∷ items)
unfolding count_status
plus-cons s item items = ground arith

count_items-plus : (s : Summary) (items : List ChecklistItem) → count_items s items ≡ plus s items
unfolding count_items
count_items-plus s [] = ground arith
count_items-plus s (item ∷ items) =
    count_items-plus (count_status s item.status) items ∙ plus-cons s item items

plus-append : (s : Summary) (xs ys : List ChecklistItem) → plus (plus s xs) ys ≡ plus s (xs ++ ys)
plus-append s xs ys = ground (
  arith,
  length-append xs ys,
  count_if-append is_pass xs ys,
  count_if-append is_fail xs ys,
  count_if-append is_warning xs ys,
  count_if-append is_unknown xs ys,
)

count_sections-plus :
    (s : Summary) (sections : List Section)
    → count_sections s sections ≡ plus s (all_items sections)
unfolding count_sections
count_sections-plus s [] = ground arith
count_sections-plus s (section ∷ rest) =
    rw (count_items-plus s section.items) (
      count_sections-plus (plus s section.items) rest
      ∙ plus-append s section.items (all_items rest))

count_if-total :
    (items : List ChecklistItem)
    → length items
      ≡ count_if is_pass items
        + count_if is_fail items
        + count_if is_warning items
        + count_if is_unknown items
        + count_if is_other items
count_if-total [] = omega arith
count_if-total (item ∷ items) = ground (arith, count_if-total items)

-- The summary of a report counts the items of all its sections: the total is their number, each
-- counter is the number of the items with that status, and the four counters fall short of the
-- total by the items whose status is none of the four.
pub generate_report-counts :
    (now : String) (c : Checker)
    → let items = all_items c.sections in
      let s = (generate_report now c).summary in
      (s.total ≡ length items)
      × (s.passed ≡ count_if is_pass items)
      × (s.failed ≡ count_if is_fail items)
      × (s.warnings ≡ count_if is_warning items)
      × (s.unknowns ≡ count_if is_unknown items)
      × (s.total ≡ s.passed + s.failed + s.warnings + s.unknowns + count_if is_other items)
unfolding generate_report
generate_report-counts now c =
    rw (count_sections-plus no_counts c.sections)
      (ground (arith, count_if-total (all_items c.sections)))
