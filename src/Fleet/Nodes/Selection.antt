-- ===== src/Fleet/Nodes/Selection.antt =====
-- `ListNodes` of pkg/fleet/sqlite.go: the list holds the selected rows, each once.
use cloudflared_fips.Prelude.{
  ◌≡◌, refl, ◌∙◌, ap, String, true, false, List, [], ◌∷◌, Option, none, some, arith, str_eq, eq_iff,
  leb, if◌then◌else◌, Bool-cases, inl, inr,
}
use mathlib.Core.Path.{subst}
use cloudflared_fips.Fleet.Db.{NodeRow}
use cloudflared_fips.Fleet.Types.{NodeFilter}
use cloudflared_fips.Fleet.Nodes.{find_node, select_rows, insert_row, selects}
use cloudflared_fips.Fleet.Nodes.Laws.{UniqueIds}

find_node-insert_row :
    (j : String) (r : NodeRow) (rows : List NodeRow)
    → find_node r.id rows ≡ none
    → find_node j (insert_row r rows) ≡ (if str_eq r.id j then some r else find_node j rows)
unfolding find_node insert_row
find_node-insert_row j r [] fresh = refl
find_node-insert_row j r (s ∷ rows) fresh =
    ground (arith, eq_iff s.id r.id, eq_iff s.id j, eq_iff r.id j, find_node-insert_row j r rows)

insert_row-UniqueIds :
    (r : NodeRow) (rows : List NodeRow)
    → find_node r.id rows ≡ none
    → UniqueIds rows
    → UniqueIds (insert_row r rows)
unfolding find_node insert_row
insert_row-UniqueIds r [] fresh u = (refl, tt)
insert_row-UniqueIds r (s ∷ rows) fresh u =
    let apart : str_eq s.id r.id ≡ false = ground arith in
    let fresh' : find_node r.id rows ≡ none = ground arith in
    elim (Bool-cases (leb s.enrolled_at r.enrolled_at)) [
      | inl first ↦ rw (first, insert_row) (fresh, u)
      | inr later ↦
          rw (later, insert_row)
            (
              ground (
                arith,
                eq_iff s.id r.id,
                eq_iff r.id s.id,
                find_node-insert_row s.id r rows fresh',
              ),
              insert_row-UniqueIds r rows fresh' u.1,
            )
    ]

abbrev pub keep_selected : NodeFilter → Option NodeRow → Option NodeRow
keep_selected f none = none
keep_selected f (some r) = if selects f r then some r else none

select_rows-cons :
    (f : NodeFilter) (r : NodeRow) (rows : List NodeRow)
    → select_rows f (r ∷ rows)
      ≡ (if selects f r then insert_row r (select_rows f rows) else select_rows f rows)
unfolding select_rows
select_rows-cons f r rows = refl

-- one more row, with `found` for what the rest of the list has
find_node-step :
    (f : NodeFilter) (j : String) (r : NodeRow) (rows list : List NodeRow)
    → find_node r.id list ≡ none
    → find_node j list ≡ keep_selected f (find_node j rows)
    → (str_eq r.id j ≡ true → find_node j list ≡ none)
    → find_node j (if selects f r then insert_row r list else list)
      ≡ keep_selected f (find_node j (r ∷ rows))
unfolding find_node
find_node-step f j r rows list fresh ih same = elim (Bool-cases (selects f r)) [
  | inl taken ↦ rw (taken, find_node-insert_row j r list fresh) (ground (arith, taken, ih, same))
  | inr left ↦ rw left (ground (arith, left, ih, same))
]

-- The list has the row of an id exactly if the table has it and the filter selects it.
pub find_node-select_rows :
    (f : NodeFilter) (j : String) (rows : List NodeRow)
    → UniqueIds rows
    → find_node j (select_rows f rows) ≡ keep_selected f (find_node j rows)
unfolding select_rows find_node
find_node-select_rows f j [] u = refl
find_node-select_rows f j (r ∷ rows) u =
    let fresh = find_node-select_rows f r.id rows u.1 ∙ ap (keep_selected f) u.0 in
    find_node-step f j r rows (select_rows f rows) fresh (find_node-select_rows f j rows u.1)
      (λ h. subst (λ k. find_node k (select_rows f rows) ≡ none) ((eq_iff r.id j).0 h) fresh)

pub select_rows-UniqueIds :
    (f : NodeFilter) (rows : List NodeRow) → UniqueIds rows → UniqueIds (select_rows f rows)
select_rows-UniqueIds f [] u = unfold select_rows in tt
select_rows-UniqueIds f (r ∷ rows) u = elim (Bool-cases (selects f r)) [
  | inl taken ↦
      rw (select_rows-cons f r rows, taken)
        (insert_row-UniqueIds r (select_rows f rows)
          (find_node-select_rows f r.id rows u.1 ∙ ap (keep_selected f) u.0)
          (select_rows-UniqueIds f rows u.1))
  | inr left ↦ rw (select_rows-cons f r rows, left) (select_rows-UniqueIds f rows u.1)
]

-- With no condition the list has the row of every id.
pub find_node-select_all :
    (j : String) (rows : List NodeRow)
    → UniqueIds rows
    → find_node j (select_rows (record { role = ""; region = ""; status = "" }) rows)
      ≡ find_node j rows
unfolding selects
find_node-select_all j rows u =
    find_node-select_rows (record { role = ""; region = ""; status = "" }) j rows u
    ∙ keep_all (find_node j rows)
  where
    keep_all :
        (o : Option NodeRow) → keep_selected (record { role = ""; region = ""; status = "" }) o ≡ o
    keep_all none = refl
    keep_all (some r) = refl
