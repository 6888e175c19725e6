-- ===== src/FleetApi/Serve/Isolation.antt =====
-- A node that calls internal/dashboard/fleet_handler.go with its API key writes no row of another node.
use cloudflared_fips.Prelude.{
  ℕ, ◌≡◌, ◌≢◌, refl, ap, ◌∙◌, String, false, Option, none, some, arith, str_eq, str_eq-ne,
  Bool-cases, Option-cases, inl, inr,
}
use cloudflared_fips.Prelude.Text.{trim_prefix}
use cloudflared_fips.Compliance.{ComplianceReport}
use cloudflared_fips.Fleet.Types.{ComplianceReportPayload, CompliancePolicy}
use cloudflared_fips.Fleet.Db.{Db, NodeRow, Driver}
use cloudflared_fips.Fleet.Along.{Along}
use cloudflared_fips.Fleet.Nodes.{
  find_key, find_node, scan_node, get_node, update_node_compliance, update_node_heartbeat,
}
use cloudflared_fips.Fleet.Nodes.Laws.{db-get_node}
use cloudflared_fips.Fleet.Nodes.Updates.{
  SameRow, update_node_heartbeat-SameRow, update_node_status-SameRow,
  update_node_compliance-SameRow, update_node_compliance_status-SameRow,
}
use cloudflared_fips.Fleet.Reports.{store_report}
use cloudflared_fips.Fleet.Reports.Laws.{nodes-store_report}
use cloudflared_fips.Fleet.Remediations.Laws.{
  db-get_pending_remediations, db-get_remediation_request, nodes-complete_remediation_request,
}
use cloudflared_fips.FleetApi.{FleetHandler, emit_found}
use cloudflared_fips.FleetApi.Along.{Handles, db-emit_found, as_node-cases}
use cloudflared_fips.FleetApi.Reporting.{
  ReportTimes, reported_status, record_report, evaluate_node_compliance, accept_report, on_report,
  on_heartbeat, handle_report, handle_heartbeat,
}
use cloudflared_fips.FleetApi.Remediation.{
  ResultBody, on_poll, on_result, handle_poll_remediations, handle_post_remediation_result,
}
use cloudflared_fips.FleetApi.Serve.{Request, serve}

-- the `Authorization` header of a request that a node makes with its API key
abbrev node_auth : Request → Option String
node_auth (Request.report _ auth _) = some auth
node_auth (Request.heartbeat _ auth) = some auth
node_auth (Request.poll_remediations auth _) = some auth
node_auth (Request.post_result _ _ auth _ _) = some auth
node_auth _ = none

-- A change of the other tables keeps the row.
nodes-SameRow : (j : String) (db db' : Db) → db'.nodes ≡ db.nodes → SameRow j db db'
nodes-SameRow j db db' same = ap (find_node j) same

module _ (j : String) where
  abbrev R : Db → Db → Type 0
  R = SameRow j

  module _ (d : Driver) (id : String) (other : str_eq id j ≡ false) where
    record_report-SameRow :
        (t : ReportTimes) (report : ComplianceReport) → Along R (record_report d t id report)
    unfolding record_report
    record_report-SameRow t report db =
        let s = report.summary in
        let db1 = (store_report d id t.stored report db).0 in
        let db2 = (update_node_compliance d id s.passed s.failed s.warnings db1).0 in
        let db3 = (update_node_heartbeat d id t.heartbeat db2).0 in
        update_node_status-SameRow j d id other (reported_status report) db3
        ∙ update_node_heartbeat-SameRow j d id other t.heartbeat db2
        ∙ update_node_compliance-SameRow j d id other s.passed s.failed s.warnings db1
        ∙ nodes-SameRow j db db1 (nodes-store_report d id t.stored report db)

    evaluate-SameRow :
        (p : CompliancePolicy) (payload : ComplianceReportPayload)
        → Along R (evaluate_node_compliance d p id payload)
    unfolding evaluate_node_compliance
    evaluate-SameRow p payload db = elim (Bool-cases (str_eq p.enforcement_mode "disabled")) [
      | inl e ↦ rw (e, evaluate_node_compliance) refl
      | inr e ↦
          rw (e, evaluate_node_compliance) (update_node_compliance_status-SameRow j d id other _ db)
    ]

    accept_report-SameRow :
        (t : ReportTimes) (payload : ComplianceReportPayload)
        → Handles R (accept_report d t payload id)
    unfolding accept_report
    accept_report-SameRow t payload fh =
        let db' = (record_report d t id payload.report fh.db).0 in
        let read = db-get_node d id db' in
        let a = record_report-SameRow t payload.report fh.db in
        let b = evaluate-SameRow fh.policy payload db' in
        let sent =
          emit_found "node_updated" (get_node d id db').1 t.event
            (record fh { db = (get_node d id db').0 }) in
        let kept : sent.db ≡ db' =
          db-emit_found "node_updated" (get_node d id db').1 t.event _ ∙ read in
        let b' : R db' (evaluate_node_compliance d fh.policy id payload sent.db).0 = rw kept b in
        b' ∙ a

  -- What a premise on the row of the key says.
  abbrev Others : (String → String) → String → FleetHandler → Type 0
  Others hash given fh =
      (row : NodeRow)
      → find_key (hash (trim_prefix given "Bearer ")) fh.db.nodes ≡ some row
      → str_eq row.id j ≡ false

  report-SameRow :
      (hash : String → String) (d : Driver) (t : ReportTimes) (given : String)
      (body : Option ComplianceReportPayload) (fh : FleetHandler)
      → Others hash given fh
      → R fh.db (handle_report hash d t given body fh).0.db
  unfolding handle_report scan_node
  report-SameRow hash d t given body fh others =
      elim (as_node-cases hash d given (on_report d t body) fh) [
        | inl (r, refused) ↦ rw refused refl
        | inr (row, known, passed) ↦ rw passed (elim (Option-cases body) [
          | inl none' ↦ rw none' refl
          | inr (payload, given') ↦ rw given' (elim (Bool-cases (str_eq payload.node_id row.id)) [
            | inl e ↦ rw e (accept_report-SameRow d row.id (others row known) t payload fh)
            | inr e ↦ rw e refl
          ])
        ])
      ]

  heartbeat-SameRow :
      (hash : String → String) (d : Driver) (now : ℕ) (given : String) (fh : FleetHandler)
      → Others hash given fh
      → R fh.db (handle_heartbeat hash d now given fh).0.db
  unfolding handle_heartbeat scan_node
  heartbeat-SameRow hash d now given fh others =
      elim (as_node-cases hash d given (on_heartbeat d now) fh) [
        | inl (r, refused) ↦ rw refused refl
        | inr (row, known, passed) ↦
            ground
              (arith, passed, update_node_heartbeat-SameRow j d row.id (others row known) now fh.db)
      ]

  poll-SameRow :
      (hash : String → String) (d : Driver) (given id : String) (fh : FleetHandler)
      → R fh.db (handle_poll_remediations hash d given id fh).0.db
  unfolding handle_poll_remediations
  poll-SameRow hash d given id fh = elim (as_node-cases hash d given (on_poll d id) fh) [
    | inl (r, refused) ↦ rw refused refl
    | inr (row, known, passed) ↦ ground (arith, passed, db-get_pending_remediations d id fh.db)
  ]

  post_result-SameRow :
      (hash : String → String) (d : Driver) (completed event : ℕ) (given id : String)
      (body : Option ResultBody) (fh : FleetHandler)
      → R fh.db (handle_post_remediation_result hash d completed event given id body fh).0.db
  unfolding handle_post_remediation_result
  post_result-SameRow hash d completed event given id none fh =
      elim (as_node-cases hash d given (on_result d completed event id none) fh) [
        | inl (r, refused) ↦ rw refused refl
        | inr (row, known, passed) ↦ ground (arith, passed)
      ]
  post_result-SameRow hash d completed event given id (some sent) fh =
      elim (as_node-cases hash d given (on_result d completed event id (some sent)) fh) [
        | inl (r, refused) ↦ rw refused refl
        | inr (row, known, passed) ↦ ground (
          arith,
          passed,
          db-get_remediation_request d sent.request_id fh.db,
          nodes-complete_remediation_request d sent.request_id completed sent.result fh.db,
        )
      ]

-- The row of the key, where the header is the given one.
of_key :
    (hash : String → String) (given auth j : String) (fh : FleetHandler)
    → some given ≡ some auth
    → ((row : NodeRow)
        → find_key (hash (trim_prefix auth "Bearer ")) fh.db.nodes ≡ some row
        → row.id ≢ j)
    → (row : NodeRow) → find_key (hash (trim_prefix given "Bearer ")) fh.db.nodes ≡ some row
    → str_eq row.id j ≡ false
of_key hash given auth j fh same others row known =
    str_eq-ne row.id j (others row (ground (arith, same, known)))

-- No request that is made with a node's API key writes the row of any other node: the row of an id that
-- is not the id of the row which holds the hash of that key is as before. With a key that no row holds
-- this is so for every id.
pub serve-isolated :
    (hash : String → String) (d : Driver) (r : Request) (fh : FleetHandler) (auth j : String)
    → node_auth r ≡ some auth
    → ((row : NodeRow)
        → find_key (hash (trim_prefix auth "Bearer ")) fh.db.nodes ≡ some row
        → row.id ≢ j)
    → find_node j (serve hash d r fh).0.db.nodes ≡ find_node j fh.db.nodes
unfolding serve handle_report handle_heartbeat handle_poll_remediations
    handle_post_remediation_result
serve-isolated hash d (Request.report t given body) fh auth j is_node others =
    report-SameRow j hash d t given body fh (of_key hash given auth j fh is_node others)
serve-isolated hash d (Request.heartbeat now given) fh auth j is_node others =
    heartbeat-SameRow j hash d now given fh (of_key hash given auth j fh is_node others)
serve-isolated hash d (Request.poll_remediations given id) fh auth j is_node others =
    poll-SameRow j hash d given id fh
serve-isolated hash d (Request.post_result done event given id body) fh auth j is_node others =
    post_result-SameRow j hash d done event given id body fh
serve-isolated hash d (Request.create_token _ _ _) fh auth j is_node others = absurd (ground arith)
serve-isolated hash d (Request.list_tokens _) fh auth j is_node others = absurd (ground arith)
serve-isolated hash d (Request.delete_token _ _) fh auth j is_node others = absurd (ground arith)
serve-isolated hash d (Request.enroll _ _ _) fh auth j is_node others = absurd (ground arith)
serve-isolated hash d (Request.list_nodes _) fh auth j is_node others = absurd (ground arith)
serve-isolated hash d (Request.get_node _) fh auth j is_node others = absurd (ground arith)
serve-isolated hash d (Request.delete_node _ _ _) fh auth j is_node others = absurd (ground arith)
serve-isolated hash d (Request.summary _) fh auth j is_node others = absurd (ground arith)
serve-isolated hash d (Request.get_node_report _) fh auth j is_node others = absurd (ground arith)
serve-isolated hash d Request.get_policy fh auth j is_node others = absurd (ground arith)
serve-isolated hash d (Request.update_policy _ _) fh auth j is_node others = absurd (ground arith)
serve-isolated hash d Request.get_routes fh auth j is_node others = absurd (ground arith)
serve-isolated hash d (Request.request_remediation _ _ _ _) fh auth j is_node others =
    absurd (ground arith)
serve-isolated hash d (Request.get_plan _ _) fh auth j is_node others = absurd (ground arith)
