-- ===== src/Fleet/Summary/Totals.antt =====
-- The fleet summary of pkg/fleet/sqlite.go counts what it names.
use cloudflared_fips.Prelude.{
  ℕ, ◌+◌, ◌≡◌, refl, ◌∙◌, ap, String, true, ◌&&◌, List, [], ◌∷◌, arith, length, str_eq, eq_iff,
  if◌then◌else◌,
}
use cloudflared_fips.Prelude.Assoc.{Assoc}
use cloudflared_fips.Fleet.Types.{online, degraded, offline}
use cloudflared_fips.Fleet.Db.{Db, Driver, NodeRow}
use cloudflared_fips.Fleet.Summary.{
  FleetSummary, count_rows, group_by, tally, summarise, get_summary, add_status, uncounted, every,
  has_region,
}
use cloudflared_fips.Fleet.Summary.Groups.{
  number, total, Distinct, number-group_by, total-group_by, group_by-Distinct, or_number,
  or_number-zero, or_number-next,
}

add_status-fields :
    (j : String) (n : ℕ) (s : FleetSummary)
    → ((add_status j n s).total_nodes ≡ s.total_nodes + n)
      × ((add_status j n s).online ≡ (if str_eq j online then n else s.online))
      × ((add_status j n s).degraded ≡ (if str_eq j degraded then n else s.degraded))
      × ((add_status j n s).offline ≡ (if str_eq j offline then n else s.offline))
      × ((add_status j n s).by_role ≡ s.by_role)
      × ((add_status j n s).by_region ≡ s.by_region)
      × ((add_status j n s).fully_compliant ≡ s.fully_compliant)
      × ((add_status j n s).updated_at ≡ s.updated_at)
add_status-fields j n s =
    let a = eq_iff j online in
    let b = eq_iff j degraded in
    let c = eq_iff j offline in
    let x = eq_iff online degraded in
    let y = eq_iff online offline in
    let z = eq_iff degraded offline in
    (
      ground arith,
      ground arith,
      ground (arith, a, b, x),
      ground (arith, a, b, c, y, z),
      ground arith,
      ground arith,
      ground arith,
      ground arith,
    )

tally-fields :
    (g : Assoc ℕ) (s : FleetSummary)
    → Distinct g
    → ((tally g s).total_nodes ≡ s.total_nodes + total g)
      × ((tally g s).online ≡ or_number online g s.online)
      × ((tally g s).degraded ≡ or_number degraded g s.degraded)
      × ((tally g s).offline ≡ or_number offline g s.offline)
      × ((tally g s).by_role ≡ s.by_role)
      × ((tally g s).by_region ≡ s.by_region)
      × ((tally g s).fully_compliant ≡ s.fully_compliant)
      × ((tally g s).updated_at ≡ s.updated_at)
unfolding tally
tally-fields [] s u = (omega arith, refl, refl, refl, refl, refl, refl, refl)
tally-fields ((j, n) ∷ g) s u =
    let t = add_status j n s in
    let (a, b, c, e, f, h, i, k) = tally-fields g t u.1 in
    let (a', b', c', e', f', h', i', k') = add_status-fields j n s in
    (
      omega (arith, a, a'),
      b ∙ ap (or_number online g) b' ∙ or_number-next online j g n s.online u.0,
      c ∙ ap (or_number degraded g) c' ∙ or_number-next degraded j g n s.degraded u.0,
      e ∙ ap (or_number offline g) e' ∙ or_number-next offline j g n s.offline u.0,
      f ∙ f',
      h ∙ h',
      i ∙ i',
      k ∙ k',
    )

-- how many rows there are of a status, a role or a region
abbrev pub with_value : (NodeRow → String) → String → List NodeRow → ℕ
with_value key k rows = count_rows (λ r. str_eq (key r) k) rows

count_rows-every : (rows : List NodeRow) → count_rows (λ r. true) rows ≡ length rows
unfolding count_rows
count_rows-every [] = refl
count_rows-every (r ∷ rows) = omega (arith, count_rows-every rows)

regions :
    (region : String) (rows : List NodeRow)
    → count_rows (λ r. has_region r && str_eq r.region region) rows
      ≡ (if str_eq region "" then 0 else with_value (λ r. r.region) region rows)
unfolding count_rows
regions region [] = ground arith
regions region (r ∷ rows) =
    ground
      (arith, regions region rows, eq_iff r.region region, eq_iff r.region "", eq_iff region "")

-- The summary of any table: its total is the number of rows, the three status counts are the numbers
-- of rows of that status, and the entry of every role and of every region but the empty one is the
-- number of its rows (0 for no entry), while there is none for the empty region.
pub summarise-counts :
    (now : ℕ) (rows : List NodeRow)
    → ((summarise now rows).total_nodes ≡ length rows)
      × ((summarise now rows).online ≡ with_value (λ r. r.status) online rows)
      × ((summarise now rows).degraded ≡ with_value (λ r. r.status) degraded rows)
      × ((summarise now rows).offline ≡ with_value (λ r. r.status) offline rows)
      × ((role : String)
          → number role (summarise now rows).by_role ≡ with_value (λ r. r.role) role rows)
      × ((region : String)
          → number region (summarise now rows).by_region
            ≡ (if str_eq region "" then 0 else with_value (λ r. r.region) region rows))
unfolding summarise uncounted
summarise-counts now rows =
    let groups = group_by every (λ r. r.status) rows in
    let (a, b, c, e, f, h, _, _) =
      tally-fields groups (uncounted now rows) (group_by-Distinct every (λ r. r.status) rows) in
    let of : (k : String) → or_number k groups 0 ≡ with_value (λ r. r.status) k rows =
      λ k. or_number-zero k groups ∙ number-group_by every (λ r. r.status) k rows in
    (
      omega (arith, a, total-group_by every (λ r. r.status) rows, count_rows-every rows),
      b ∙ of online,
      c ∙ of degraded,
      e ∙ of offline,
      λ role. ap (number role) f ∙ number-group_by every (λ r. r.role) role rows,
      λ region.
          ap (number region) h
          ∙ number-group_by has_region (λ r. r.region) region rows
          ∙ regions region rows,
    )

-- The query changes nothing.
pub db-get_summary : (d : Driver) (now : ℕ) (db : Db) → (get_summary d now db).0 ≡ db
unfolding get_summary
db-get_summary d now db = ground arith
