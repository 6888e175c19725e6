-- ===== src/Fleet/Reports.antt =====
-- Compliance reports of pkg/fleet/sqlite.go.
pub mod Laws
use cloudflared_fips.Prelude.{
  ℕ, ◌+◌, String, Bool, true, false, not, ◌&&◌, List, [], ◌∷◌, ◌++◌, Option, none, some, leb, ltb,
  str_eq, ◌==◌, if◌then◌else◌,
}
use cloudflared_fips.Compliance.{ComplianceReport}
use cloudflared_fips.Fleet.Db.{
  Db, ReportRow, Driver, Action, Result, ok, err, statement, insert_report, select_report,
  format_time,
}
use cloudflared_fips.Fleet.Nodes.{find_node}

abbrev pub known : {A : Type 0} → Option A → Bool
known none = false
known (some _) = true

-- The node must exist where the connection enforces foreign keys.
pub store_report : Driver → String → ℕ → ComplianceReport → Action (Unit {0})
store_report d node_id now report = statement d insert_report λ db.
    if d.foreign_keys && not (known (find_node node_id db.nodes))
    then (db, err "FOREIGN KEY constraint failed")
    else (
      record db {
        reports =
            db.reports
            ++ record { node_id = node_id; timestamp = format_time now; report = report } ∷ [];
      },
      ok tt,
    )

-- `ORDER BY timestamp DESC LIMIT 1`: the first row of the table with the last time.
latest : String → List ReportRow → Option ReportRow
latest node_id [] = none
latest node_id (r ∷ rows) =
    let rest = latest node_id rows in
    if str_eq r.node_id node_id
    then elim rest [
      | none ↦ some r
      | some s ↦ if leb s.timestamp r.timestamp then some r else some s
    ]
    else rest

abbrev answer : Db → Option ReportRow → Db × Result ComplianceReport
answer db none = (db, err "sql: no rows in result set")
answer db (some r) = (db, ok r.report)

pub get_latest_report : Driver → String → Action ComplianceReport
unfolding latest
get_latest_report d node_id = statement d select_report λ db. answer db (latest node_id db.reports)
