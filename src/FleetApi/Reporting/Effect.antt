-- ===== src/FleetApi/Reporting/Effect.antt =====
-- What an accepted report and a heartbeat leave in the row of their node
-- (internal/dashboard/fleet_handler.go).
use cloudflared_fips.Prelude.{
  ℕ, zero, suc, ltb, ◌≡◌, refl, ◌∙◌, ap, String, true, false, List, some, arith, str_eq, eq_iff,
  eq_refl, if◌then◌else◌, Bool-cases, inl, inr,
}
use cloudflared_fips.Prelude.Text.{trim_prefix}
use cloudflared_fips.Compliance.{ComplianceReport, all_items}
use cloudflared_fips.Fleet.Types.{
  Node, ComplianceReportPayload, CompliancePolicy, online, degraded, compliant, non_compliant,
}
use cloudflared_fips.Fleet.Db.{
  Db, NodeRow, Driver, Stmt, select_node_by_key, update_heartbeat, update_compliance, update_status,
  update_compliance_status, format_time,
}
use cloudflared_fips.Fleet.Nodes.{
  find_key, find_node, update_row, heartbeat, scan_node, get_node, update_node_compliance,
  update_node_heartbeat,
}
use cloudflared_fips.Fleet.Nodes.Laws.{
  find_node-update_row, db-get_node, get_node_by_api_key-done, update_node_compliance-done,
  update_node_compliance_status-done, update_node_heartbeat-done, update_node_status-done,
}
use cloudflared_fips.Fleet.Reports.{store_report}
use cloudflared_fips.Fleet.Reports.Laws.{nodes-store_report}
use cloudflared_fips.FleetApi.{FleetHandler, Handler, done, as_node}
use cloudflared_fips.FleetApi.Along.{db-emit_found}
use cloudflared_fips.FleetApi.Reporting.Verdict.{any_violates, compliance_of-any}
use cloudflared_fips.FleetApi.Reporting.{
  ReportTimes, compliance_of, reported_status, record_report, evaluate_node_compliance,
  accept_report, on_report, on_heartbeat, handle_report, handle_heartbeat,
}

-- the status that a count of failed checks calls for
pub status_after : ℕ → String
status_after zero = online
status_after (suc _) = degraded

-- the row after the writes of `record_report`
abbrev pub recorded : ReportTimes → ComplianceReport → NodeRow → NodeRow
recorded t report r = record r {
  compliance_pass = report.summary.passed;
  compliance_fail = report.summary.failed;
  compliance_warn = report.summary.warnings;
  last_heartbeat = format_time t.heartbeat;
  status = status_after report.summary.failed;
}

-- and after the policy is applied
abbrev pub judged : CompliancePolicy → ComplianceReport → NodeRow → NodeRow
judged p report r = if str_eq p.enforcement_mode "disabled" then r else record r {
  compliance_status =
      if any_violates p (all_items report.sections) then non_compliant else compliant;
}

status_after-failed : (n : ℕ) → (if ltb 0 n then degraded else online) ≡ status_after n
unfolding status_after
status_after-failed zero = refl
status_after-failed (suc n) = ground arith

find_node-written :
    (id : String) (f : NodeRow → NodeRow) (rows : List NodeRow) (row : NodeRow)
    → ((r : NodeRow) → (f r).id ≡ r.id)
    → find_node id rows ≡ some row
    → find_node id (update_row id f rows) ≡ some (f row)
find_node-written id f rows row keeps known =
    ground (arith, find_node-update_row id id f rows keeps, known, eq_refl id)

find_node-record_report :
    (d : Driver) (t : ReportTimes) (report : ComplianceReport) (db : Db) (row : NodeRow)
    → ((s : Stmt) → d.fails s ≡ false)
    → find_node row.id db.nodes ≡ some row
    → find_node row.id (record_report d t row.id report db).0.nodes ≡ some (recorded t report row)
unfolding record_report
find_node-record_report d t report db row works known =
    let s = report.summary in
    let id = row.id in
    let db1 = (store_report d id t.stored report db).0 in
    let db2 = (update_node_compliance d id s.passed s.failed s.warnings db1).0 in
    let db3 = (update_node_heartbeat d id t.heartbeat db2).0 in
    let r1 = record row {
      compliance_pass = s.passed;
      compliance_fail = s.failed;
      compliance_warn = s.warnings;
    } in
    let r2 = heartbeat t.heartbeat r1 in
    let k1 : find_node id db1.nodes ≡ some row =
      ap (find_node id) (nodes-store_report d id t.stored report db) ∙ known in
    let k2 : find_node id db2.nodes ≡ some r1 =
      rw
        (update_node_compliance-done d id s.passed s.failed s.warnings db1
          (works update_compliance))
        (find_node-written id _ db1.nodes row (λ r. refl) k1) in
    let k3 : find_node id db3.nodes ≡ some r2 =
      rw (update_node_heartbeat-done d id t.heartbeat db2 (works update_heartbeat))
        (find_node-written id (heartbeat t.heartbeat) db2.nodes r1 (λ r. refl) k2) in
    rw
      (
        update_node_status-done d id (reported_status report) db3 (works (update_status id)),
        status_after-failed report.summary.failed,
      )
      (find_node-written id _ db3.nodes r2 (λ r. refl) k3)

find_node-evaluate :
    (d : Driver) (p : CompliancePolicy) (payload : ComplianceReportPayload) (db : Db) (r : NodeRow)
    → ((s : Stmt) → d.fails s ≡ false)
    → find_node r.id db.nodes ≡ some r
    → find_node r.id (evaluate_node_compliance d p r.id payload db).0.nodes
      ≡ some (judged p payload.report r)
unfolding evaluate_node_compliance
find_node-evaluate d p payload db r works known =
    elim (Bool-cases (str_eq p.enforcement_mode "disabled")) [
      | inl off ↦ rw (off, evaluate_node_compliance) known
      | inr on ↦
          rw
            (
              on,
              evaluate_node_compliance,
              update_node_compliance_status-done d r.id (compliance_of p payload.report) db
                  (works update_compliance_status),
              compliance_of-any p payload.report,
            )
            (find_node-written r.id _ db.nodes r (λ s. refl) known)
    ]

find_node-accept_report :
    (d : Driver) (t : ReportTimes) (payload : ComplianceReportPayload) (fh : FleetHandler)
    (row : NodeRow)
    → ((s : Stmt) → d.fails s ≡ false)
    → find_node row.id fh.db.nodes ≡ some row
    → find_node row.id (accept_report d t payload row.id fh).0.db.nodes
      ≡ some (judged fh.policy payload.report (recorded t payload.report row))
unfolding accept_report
find_node-accept_report d t payload fh row works known =
    let report = payload.report in
    let db' = (record_report d t row.id report fh.db).0 in
    let next =
      find_node-evaluate d fh.policy payload db' (recorded t report row) works
        (find_node-record_report d t report fh.db row works known) in
    let sent =
      db-emit_found "node_updated" (get_node d row.id db').1 t.event
        (record fh { db = (get_node d row.id db').0 }) in
    ground (arith, next, sent, db-get_node d row.id db')

-- A node's request, where the driver does not fail the lookup of its key.
as_node-known :
    (hash : String → String) (d : Driver) (auth : String) (next : Node → Handler)
    (fh : FleetHandler) (row : NodeRow)
    → ((s : Stmt) → d.fails s ≡ false)
    → str_eq auth "" ≡ false
    → find_key (hash (trim_prefix auth "Bearer ")) fh.db.nodes ≡ some row
    → as_node hash d auth next fh ≡ next (scan_node row) fh
as_node-known hash d auth next fh row works given known =
    rw
      (
        given,
        get_node_by_api_key-done d (hash (trim_prefix auth "Bearer ")) fh.db row
            (works select_node_by_key) known,
      )
      refl

-- A report that names its own node is accepted with 200 where the driver fails nothing, the key's row
-- is found by its id too and the header is not empty. It leaves in that row the report's counts, the
-- time of the heartbeat in whole seconds, the status `degraded` if a check failed and `online` if none
-- did, and, unless the policy is disabled, `non_compliant` if some item of the report violates the
-- policy and `compliant` if none does.
pub handle_report-row :
    (hash : String → String) (d : Driver) (t : ReportTimes) (auth : String)
    (payload : ComplianceReportPayload) (fh : FleetHandler) (row : NodeRow)
    → ((s : Stmt) → d.fails s ≡ false)
    → str_eq auth "" ≡ false
    → find_key (hash (trim_prefix auth "Bearer ")) fh.db.nodes ≡ some row
    → find_node row.id fh.db.nodes ≡ some row
    → payload.node_id ≡ row.id
    → ((handle_report hash d t auth (some payload) fh).1
        ≡ record { code = 200; body = done "accepted" })
      × (find_node row.id (handle_report hash d t auth (some payload) fh).0.db.nodes
          ≡ some (judged fh.policy payload.report (recorded t payload.report row)))
unfolding handle_report scan_node accept_report
handle_report-row hash d t auth payload fh row works given key known own =
    let passed = as_node-known hash d auth (on_report d t (some payload)) fh row works given key in
    let eq : str_eq payload.node_id row.id ≡ true = (eq_iff payload.node_id row.id).1 own in
    (
      ground (arith, passed, eq),
      ground (arith, passed, eq, find_node-accept_report d t payload fh row works known),
    )

-- A heartbeat is answered with 200 where the driver fails nothing, the key's row is found by its id
-- too and the header is not empty. It makes its node online, whatever a report has made of it, and
-- leaves the time of the heartbeat in whole seconds. The counts and the verdict stay.
pub handle_heartbeat-online :
    (hash : String → String) (d : Driver) (now : ℕ) (auth : String) (fh : FleetHandler)
    (row : NodeRow)
    → ((s : Stmt) → d.fails s ≡ false)
    → str_eq auth "" ≡ false
    → find_key (hash (trim_prefix auth "Bearer ")) fh.db.nodes ≡ some row
    → find_node row.id fh.db.nodes ≡ some row
    → ((handle_heartbeat hash d now auth fh).1 ≡ record { code = 200; body = done "ok" })
      × (find_node row.id (handle_heartbeat hash d now auth fh).0.db.nodes
          ≡ some (record row { last_heartbeat = format_time now; status = online }))
unfolding handle_heartbeat scan_node
handle_heartbeat-online hash d now auth fh row works given key known =
    let passed = as_node-known hash d auth (on_heartbeat d now) fh row works given key in
    let wrote = update_node_heartbeat-done d row.id now fh.db (works update_heartbeat) in
    let stored = find_node-written row.id (heartbeat now) fh.db.nodes row (λ r. refl) known in
    (ground (arith, passed, wrote), ground (arith, passed, wrote, stored))
