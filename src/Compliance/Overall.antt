-- ===== src/Compliance/Overall.antt =====
-- `OverallStatus` (internal/compliance/checker.go) against the order of the statuses.
use cloudflared_fips.Prelude.{
  ℕ, ◌≡◌, ◌<◌, ◌≤◌, ◌↔◌, zero, suc, ltb, Bool-cases, Option-cases, ◌∙◌, ap, sym, inl, inr, refl,
  true, false, List, [], ◌∷◌, ◌++◌, Option, none, some, String, arith, if◌then◌else◌,
}
use Prim.Native.Nat.{max}
use cloudflared_fips.Compliance.{
  Status, pass, fail, warning, unknown, other, ChecklistItem, Section, Checker, generate_report,
  overall_status, worst_items, worst_sections, worsen, is_fail, all_items,
}
use cloudflared_fips.Compliance.Counts.{count_if, generate_report-counts}

-- How bad a status is; a text that is no status counts as nothing.
abbrev rank : Status → ℕ
rank pass = 0
rank unknown = 1
rank warning = 2
rank fail = 3
rank (other _) = 0

-- the rank of the worst item
abbrev worst_rank : List ChecklistItem → ℕ
worst_rank [] = 0
worst_rank (item ∷ items) = max (rank item.status) (worst_rank items)

-- what the code's loop variable can hold
abbrev IsOpen : Status → Type 0
IsOpen pass = Unit
IsOpen unknown = Unit
IsOpen warning = Unit
IsOpen fail = ⊥
IsOpen (other _) = ⊥

abbrev of_rank : ℕ → Status
of_rank zero = pass
of_rank (suc zero) = unknown
of_rank (suc (suc zero)) = warning
of_rank (suc (suc (suc _))) = fail

worsen-IsOpen :
    (w s : Status)
    → IsOpen w
    → is_fail s ≡ false
    → IsOpen (worsen w s) × (rank (worsen w s) ≡ max (rank w) (rank s))
unfolding worsen
worsen-IsOpen pass s o h = ground arith
worsen-IsOpen unknown s o h = ground arith
worsen-IsOpen warning s o h = ground arith
worsen-IsOpen fail s o h = absurd o
worsen-IsOpen (other _) s o h = absurd o

-- the outcome of the inner loop, from the worst rank that it has seen
settle : ℕ → Option Status
settle n = if ltb n 3 then some (of_rank n) else none

settle_open : (w : Status) → IsOpen w → some w ≡ settle (rank w)
unfolding settle
settle_open pass o = refl
settle_open unknown o = refl
settle_open warning o = refl
settle_open fail o = absurd o
settle_open (other _) o = absurd o

rank-fail : (s : Status) → is_fail s ≡ true → rank s ≡ 3
rank-fail s h = ground arith

worst_rank-le : (items : List ChecklistItem) → worst_rank items ≤ 3
worst_rank-le [] = omega arith
worst_rank-le (item ∷ items) = ground (arith, worst_rank-le items)

rank-lt : (w : Status) → IsOpen w → rank w < 3
rank-lt w o = ground arith

settle_worst : (n : ℕ) → 3 ≤ n → settle n ≡ none
unfolding settle
settle_worst n h = ground arith

worst_items-settle :
    (w : Status) (items : List ChecklistItem)
    → IsOpen w
    → worst_items w items ≡ settle (max (rank w) (worst_rank items))
unfolding worst_items
worst_items-settle w [] o = settle_open w o ∙ ap settle (omega arith)
worst_items-settle w (item ∷ items) o = elim (Bool-cases (is_fail item.status)) [
  | inl f ↦ rw f (sym (settle_worst _ (omega (arith, rank-fail item.status f))))
  | inr n ↦
      let (still, worse) = worsen-IsOpen w item.status o n in
      rw n (worst_items-settle (worsen w item.status) items still ∙ ap settle (omega arith))
]

worst_rank-append :
    (xs ys : List ChecklistItem) → worst_rank (xs ++ ys) ≡ max (worst_rank xs) (worst_rank ys)
worst_rank-append [] ys = omega arith
worst_rank-append (x ∷ xs) ys = omega (arith, worst_rank-append xs ys)

-- A loop variable that is not `fail` has the status of its rank.
settle-some : (n : ℕ) (w : Status) → n ≤ 3 → settle n ≡ some w → IsOpen w × (rank w ≡ n)
unfolding settle
settle-some zero w h e = ground arith
settle-some (suc zero) w h e = ground arith
settle-some (suc (suc zero)) w h e = ground arith
settle-some (suc (suc (suc n))) w h e = ground arith

settle-none : (n : ℕ) → n ≤ 3 → settle n ≡ none → n ≡ 3
unfolding settle
settle-none n h e = ground arith

open-of_rank : (w : Status) → IsOpen w → w ≡ of_rank (rank w)
open-of_rank w o = ground arith

worst_sections-of_rank :
    (w : Status) (sections : List Section)
    → IsOpen w
    → worst_sections w sections ≡ of_rank (max (rank w) (worst_rank (all_items sections)))
unfolding worst_sections
worst_sections-of_rank w [] o = open-of_rank w o ∙ ap of_rank (omega arith)
worst_sections-of_rank w (section ∷ rest) o =
    let top = max (rank w) (worst_rank section.items) in
    let step = worst_items-settle w section.items o in
    let bound = rank-lt w o in
    let ranks = worst_rank-le section.items in
    let others = worst_rank-le (all_items rest) in
    let joined = worst_rank-append section.items (all_items rest) in
    elim (Option-cases (worst_items w section.items)) [
      | inl e ↦
          let worst = settle-none top (omega arith) (sym step ∙ e) in
          rw (e, worst_sections) (ap of_rank {x = 3} (omega arith))
      | inr (v, e) ↦
          let (still, same) = settle-some top v (omega arith) (sym step ∙ e) in
          rw (e, worst_sections) (worst_sections-of_rank v rest still ∙ ap of_rank (omega arith))
    ]

-- The overall status is the worst status of all the items, in the order pass, unknown, warning,
-- fail; a status that is none of the four counts for nothing, and with no item it is pass.
pub overall_status-worst :
    (c : Checker) → overall_status c ≡ of_rank (worst_rank (all_items c.sections))
unfolding overall_status
overall_status-worst c = worst_sections-of_rank pass c.sections tt ∙ ap of_rank (omega arith)

worst_rank-fail :
    (items : List ChecklistItem) → (worst_rank items ≡ 3) ↔ (0 < count_if is_fail items)
worst_rank-fail [] = (λ h. absurd (omega arith), λ h. absurd (omega arith))
worst_rank-fail (item ∷ items) =
    let (there, back) = worst_rank-fail items in
    let bound = worst_rank-le items in (λ h. ground arith, λ h. ground arith)

of_rank-fail : (n : ℕ) → n ≤ 3 → of_rank n ≡ fail → n ≡ 3
of_rank-fail n h e = ground arith

-- The overall status is fail exactly when the report counts a failed item.
pub overall_status-failed :
    (now : String) (c : Checker)
    → (overall_status c ≡ fail) ↔ (0 < (generate_report now c).summary.failed)
overall_status-failed now c =
    let items = all_items c.sections in
    let counts = generate_report-counts now c in
    let (there, back) = worst_rank-fail items in
    let worst = overall_status-worst c in
    (
      λ e.
          let three = of_rank-fail (worst_rank items) (worst_rank-le items) (sym worst ∙ e) in
          rw counts.2 (there three),
      λ h. worst ∙ ap of_rank {y = 3} (back (rw counts.2 at h)),
    )
