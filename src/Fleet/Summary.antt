-- ===== src/Fleet/Summary.antt =====
-- The fleet summary of pkg/fleet/sqlite.go.
pub mod Groups
pub mod Totals
use cloudflared_fips.Prelude.{
  ℕ, ◌+◌, String, Bool, true, false, not, ◌&&◌, List, [], ◌∷◌, str_eq, ◌==◌, if◌then◌else◌,
}
use cloudflared_fips.Prelude.Assoc.{Assoc}
use cloudflared_fips.Fleet.Db.{Db, NodeRow, Driver, Action, ok, statement, select_summary}

pub record FleetSummary : Type 0 where
  pub total_nodes : ℕ
  pub online : ℕ
  pub degraded : ℕ
  pub offline : ℕ
  pub by_role : Assoc ℕ
  pub by_region : Assoc ℕ
  pub fully_compliant : ℕ
  pub updated_at : ℕ

-- `SELECT COUNT(*) ... WHERE`
pub count_rows : (NodeRow → Bool) → List NodeRow → ℕ
count_rows p [] = 0
count_rows p (r ∷ rows) = let n = count_rows p rows in if p r then n + 1 else n

-- `SELECT key, COUNT(*) ... WHERE ... GROUP BY key`, a row for each value of the key
count_key : String → Assoc ℕ → Assoc ℕ
count_key k [] = (k, 1) ∷ []
count_key k ((j, n) ∷ groups) =
    if str_eq j k then (j, n + 1) ∷ groups else (j, n) ∷ count_key k groups

pub group_by : (NodeRow → Bool) → (NodeRow → String) → List NodeRow → Assoc ℕ
unfolding count_key
group_by p key [] = []
group_by p key (r ∷ rows) =
    let groups = group_by p key rows in if p r then count_key (key r) groups else groups

-- a round of the loop over the status counts: `TotalNodes += count`, then the `switch`
abbrev pub add_status : String → ℕ → FleetSummary → FleetSummary
add_status status count s =
    let t = record s { total_nodes = s.total_nodes + count } in
    if str_eq status "online"
    then record t { online = count }
    else if str_eq status "degraded"
    then record t { degraded = count }
    else if str_eq status "offline"
    then record t { offline = count }
    else t

pub tally : Assoc ℕ → FleetSummary → FleetSummary
tally [] s = s
tally ((status, count) ∷ groups) s = tally groups (add_status status count s)

abbrev pub every : NodeRow → Bool
every r = true

abbrev pub has_region : NodeRow → Bool
has_region r = not (str_eq r.region "")

-- `compliance_fail = 0 AND status != 'offline'`
abbrev is_fully_compliant : NodeRow → Bool
is_fully_compliant r = r.compliance_fail == 0 && not (str_eq r.status "offline")

-- the summary before the status counts
pub uncounted : ℕ → List NodeRow → FleetSummary
uncounted now rows = record {
  total_nodes = 0;
  online = 0;
  degraded = 0;
  offline = 0;
  by_role = group_by every (λ r. r.role) rows;
  by_region = group_by has_region (λ r. r.region) rows;
  fully_compliant = count_rows is_fully_compliant rows;
  updated_at = now;
}

pub summarise : ℕ → List NodeRow → FleetSummary
summarise now rows = tally (group_by every (λ r. r.status) rows) (uncounted now rows)

-- The four queries of `GetSummary` are one statement here: it fails if one of them does.
pub get_summary : Driver → ℕ → Action FleetSummary
get_summary d now = statement d select_summary λ db. (db, ok (summarise now db.nodes))
