-- ===== src/Fleet/Reports/Laws.antt =====
-- What the statements on reports of pkg/fleet/sqlite.go leave alone.
use cloudflared_fips.Prelude.{◌≡◌, ℕ, String, arith}
use cloudflared_fips.Compliance.{ComplianceReport}
use cloudflared_fips.Fleet.Db.{Db, Driver}
use cloudflared_fips.Fleet.Reports.{store_report, get_latest_report}

pub nodes-store_report :
    (d : Driver) (id : String) (now : ℕ) (report : ComplianceReport) (db : Db)
    → (store_report d id now report db).0.nodes ≡ db.nodes
unfolding store_report
nodes-store_report d id now report db = ground arith

pub db-get_latest_report : (d : Driver) (id : String) (db : Db) → (get_latest_report d id db).0 ≡ db
unfolding get_latest_report
db-get_latest_report d id db = ground arith
