-- ===== src/FleetApi/Serve/KeepsIds.antt =====
-- The handlers of internal/dashboard/fleet_handler.go that write the table of nodes, and that of
-- remediation results, keep its ids unique.
use cloudflared_fips.Prelude.{ℕ, String, Option, none, some, arith, inl, inr}
use cloudflared_fips.Compliance.{ComplianceReport}
use cloudflared_fips.Fleet.Types.{Node, ComplianceReportPayload, EnrollmentRequest}
use cloudflared_fips.Fleet.Db.{Driver}
use cloudflared_fips.Fleet.Along.{Along}
use cloudflared_fips.Fleet.Nodes.{
  scan_node, new_row, get_node, update_node_compliance, update_node_heartbeat,
}
use cloudflared_fips.Fleet.Nodes.Laws.{UniqueIds, db-get_node}
use cloudflared_fips.Fleet.Nodes.Updates.{
  KeepsIds, append-UniqueIds, update_node_heartbeat-KeepsIds, update_node_status-KeepsIds,
  update_node_compliance-KeepsIds, update_node_compliance_status-KeepsIds, delete_node-KeepsIds,
}
use cloudflared_fips.Fleet.Reports.{store_report}
use cloudflared_fips.Fleet.Reports.Laws.{nodes-store_report}
use cloudflared_fips.Fleet.Remediations.Laws.{
  db-get_remediation_request, nodes-complete_remediation_request,
}
use cloudflared_fips.FleetApi.Remediation.{ResultBody, on_result, handle_post_remediation_result}
use cloudflared_fips.Fleet.Enrollment.{EnrollInput, enroll, new_node}
use cloudflared_fips.Fleet.Enrollment.Steps.{nodes-admitted}
use cloudflared_fips.Fleet.Tokens.{scan_token}
use cloudflared_fips.Fleet.Enrollment.Limit.{enroll-cases}
use cloudflared_fips.FleetApi.Along.{Handles, db-emit_found, as_node-cases}
use cloudflared_fips.FleetApi.Reporting.{
  ReportTimes, compliance_of, reported_status, record_report, evaluate_node_compliance,
  accept_report, on_report, on_heartbeat, handle_report, handle_heartbeat,
}
use cloudflared_fips.FleetApi.Admin.{handle_enroll, handle_delete_node}

enroll-KeepsIds :
    (hash : String → String) (d : Driver) (input : EnrollInput) (req : EnrollmentRequest)
    → Along KeepsIds (enroll hash d input req)
unfolding new_row
enroll-KeepsIds hash d input req db u = elim (enroll-cases hash d input req db) [
  | inr (e, failed) ↦ rw failed u
  | inl (resp, row, done, g) ↦
      let node =
        new_row (new_node req (scan_token row) resp.node_id input.now) (hash resp.api_key) in
      rw (g.result, nodes-admitted hash d input req (scan_token row) resp db)
        (append-UniqueIds db.nodes node u g.new_id)
]

pub handle_enroll-KeepsIds :
    (hash : String → String) (d : Driver) (input : EnrollInput) (now : ℕ)
    (body : Option EnrollmentRequest)
    → Handles KeepsIds (handle_enroll hash d input now body)
unfolding handle_enroll
handle_enroll-KeepsIds hash d input now none fh u = u
handle_enroll-KeepsIds hash d input now (some req) fh u =
    let kept = enroll-KeepsIds hash d input req fh.db u in
    elim (enroll-cases hash d input req fh.db) [
      | inr (e, failed) ↦ rw (failed, handle_enroll) u
      | inl (resp, row, done, g) ↦
          let db' = (enroll hash d input req fh.db).0 in
          let sent =
            db-emit_found "node_joined" (get_node d resp.node_id db').1 now
              (record fh { db = (get_node d resp.node_id db').0 }) in
          ground (arith, done, kept, sent, db-get_node d resp.node_id db')
    ]

module _ (d : Driver) (id : String) where
  record_report-KeepsIds :
      (t : ReportTimes) (report : ComplianceReport) → Along KeepsIds (record_report d t id report)
  unfolding record_report
  record_report-KeepsIds t report db u =
      let s = report.summary in
      let db1 = (store_report d id t.stored report db).0 in
      let db2 = (update_node_compliance d id s.passed s.failed s.warnings db1).0 in
      let db3 = (update_node_heartbeat d id t.heartbeat db2).0 in
      let u1 : UniqueIds db1.nodes = rw (nodes-store_report d id t.stored report db) u in
      let u2 = update_node_compliance-KeepsIds d id s.passed s.failed s.warnings db1 u1 in
      let u3 = update_node_heartbeat-KeepsIds d id t.heartbeat db2 u2 in
      update_node_status-KeepsIds d id (reported_status report) db3 u3

  accept_report-KeepsIds :
      (t : ReportTimes) (payload : ComplianceReportPayload)
      → Handles KeepsIds (accept_report d t payload id)
  unfolding accept_report evaluate_node_compliance
  accept_report-KeepsIds t payload fh u =
      let db' = (record_report d t id payload.report fh.db).0 in
      let u' = record_report-KeepsIds t payload.report fh.db u in
      let sent =
        db-emit_found "node_updated" (get_node d id db').1 t.event
          (record fh { db = (get_node d id db').0 }) in
      let next =
        update_node_compliance_status-KeepsIds d id (compliance_of fh.policy payload.report) db'
          u' in
      ground (arith, u', next, sent, db-get_node d id db')

on_report-KeepsIds :
    (d : Driver) (t : ReportTimes) (body : Option ComplianceReportPayload) (node : Node)
    → Handles KeepsIds (on_report d t body node)
on_report-KeepsIds d t none node fh u = u
on_report-KeepsIds d t (some payload) node fh u =
    ground (arith, u, accept_report-KeepsIds d node.id t payload fh u)

pub report-KeepsIds :
    (hash : String → String) (d : Driver) (t : ReportTimes) (given : String)
    (body : Option ComplianceReportPayload)
    → Handles KeepsIds (handle_report hash d t given body)
unfolding handle_report
report-KeepsIds hash d t given body fh u =
    elim (as_node-cases hash d given (on_report d t body) fh) [
      | inl (r, refused) ↦ rw refused u
      | inr (row, known, passed) ↦ rw passed (on_report-KeepsIds d t body (scan_node row) fh u)
    ]

pub heartbeat-KeepsIds :
    (hash : String → String) (d : Driver) (now : ℕ) (given : String)
    → Handles KeepsIds (handle_heartbeat hash d now given)
unfolding handle_heartbeat
heartbeat-KeepsIds hash d now given fh u =
    elim (as_node-cases hash d given (on_heartbeat d now) fh) [
      | inl (r, refused) ↦ rw refused u
      | inr (row, known, passed) ↦
          let node = scan_node row in
          ground (arith, passed, u, update_node_heartbeat-KeepsIds d node.id now fh.db u)
    ]

pub delete-KeepsIds :
    (d : Driver) (now : ℕ) (auth id : String) → Handles KeepsIds (handle_delete_node d now auth id)
unfolding handle_delete_node
delete-KeepsIds d now auth id fh u =
    ground (arith, u, db-get_node d id fh.db, delete_node-KeepsIds d id fh.db u)

pub on_result-KeepsIds :
    (hash : String → String) (d : Driver) (completed event : ℕ) (auth id : String)
    (body : Option ResultBody)
    → Handles KeepsIds (handle_post_remediation_result hash d completed event auth id body)
unfolding handle_post_remediation_result
on_result-KeepsIds hash d completed event auth id none fh u =
    elim (as_node-cases hash d auth (on_result d completed event id none) fh) [
      | inl (r, refused) ↦ rw refused u
      | inr (row, known, passed) ↦ ground (arith, u, passed)
    ]
on_result-KeepsIds hash d completed event auth id (some sent) fh u =
    elim (as_node-cases hash d auth (on_result d completed event id (some sent)) fh) [
      | inl (r, refused) ↦ rw refused u
      | inr (row, known, passed) ↦ ground (
        arith,
        u,
        passed,
        db-get_remediation_request d sent.request_id fh.db,
        nodes-complete_remediation_request d sent.request_id completed sent.result fh.db,
      )
    ]
