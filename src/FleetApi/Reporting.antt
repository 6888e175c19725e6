-- ===== src/FleetApi/Reporting.antt =====
-- The handlers of internal/dashboard/fleet_handler.go that a node calls with its API key: compliance
-- reports and heartbeats. The counts of a report are taken as not negative.
pub mod Effect
pub mod Verdict
use cloudflared_fips.Prelude.{
  ℕ, String, Bool, true, false, not, ◌&&◌, ◌||◌, List, [], ◌∷◌, Option, none, some, ltb, str_eq,
  if◌then◌else◌,
}
use cloudflared_fips.Compliance.{Section, ChecklistItem, ComplianceReport, is_pass}
use cloudflared_fips.Fleet.Types.{
  Node, ComplianceReportPayload, CompliancePolicy, online, degraded, compliant, non_compliant,
}
use cloudflared_fips.Fleet.Db.{Driver, Action, pure, ◌>>◌, ignoring}
use cloudflared_fips.Fleet.Nodes.{
  get_node, update_node_heartbeat, update_node_status, update_node_compliance,
  update_node_compliance_status,
}
use cloudflared_fips.Fleet.Reports.{store_report}
use cloudflared_fips.FleetApi.{
  FleetHandler, Handler, Body, done, reply, refuse, calling, decoding, as_node, emit_found,
}

-- an item that the policy holds against the node
unfoldable pub violates : CompliancePolicy → ChecklistItem → Bool
violates p item =
    not (is_pass item.status)
    && ((p.require_os_fips && str_eq item.name "OS FIPS mode")
        || (p.require_disk_enc && str_eq item.name "Disk encryption")
        || str_eq item.name "FIPS backend active")

pub items_comply : CompliancePolicy → List ChecklistItem → Bool → Bool
unfolding violates
items_comply p [] fine = fine
items_comply p (item ∷ items) fine = items_comply p items (if violates p item then false else fine)

-- the two loops of `evaluateNodeCompliance`, with the variable `compliant`
pub sections_comply : CompliancePolicy → List Section → Bool → Bool
sections_comply p [] fine = fine
sections_comply p (s ∷ sections) fine = sections_comply p sections (items_comply p s.items fine)

abbrev pub compliance_of : CompliancePolicy → ComplianceReport → String
compliance_of p report = if sections_comply p report.sections true then compliant else non_compliant

unfoldable pub evaluate_node_compliance :
    Driver → CompliancePolicy → String → ComplianceReportPayload → Action (Unit {0})
evaluate_node_compliance d p node_id payload =
    if str_eq p.enforcement_mode "disabled"
    then pure tt
    else ignoring (update_node_compliance_status d node_id (compliance_of p payload.report))

-- readings of the clock: when the report is stored, for the heartbeat, and for the event
pub record ReportTimes : Type 0 where
  pub stored : ℕ
  pub heartbeat : ℕ
  pub event : ℕ

abbrev pub reported_status : ComplianceReport → String
reported_status report = if ltb 0 report.summary.failed then degraded else online

-- the writes of `HandleReport` before its event; every error is dropped
unfoldable pub record_report : Driver → ReportTimes → String → ComplianceReport → Action (Unit {0})
record_report d t id report = do
  ignoring (store_report d id t.stored report)
  ignoring (
      update_node_compliance d id report.summary.passed report.summary.failed
        report.summary.warnings)
  ignoring (update_node_heartbeat d id t.heartbeat)
  ignoring (update_node_status d id (reported_status report))

unfoldable pub accept_report : Driver → ReportTimes → ComplianceReportPayload → String → Handler
accept_report d t payload id fh =
    let (written, _) = record_report d t id payload.report fh.db in
    let (read, updated) = get_node d id written in
    let sent = emit_found "node_updated" updated t.event (record fh { db = read }) in
    let (evaluated, _) = evaluate_node_compliance d fh.policy id payload sent.db in
    reply 200 (done "accepted") (record sent { db = evaluated })

-- the handlers behind the check of the API key
abbrev pub on_report : Driver → ReportTimes → Option ComplianceReportPayload → Node → Handler
on_report d t body node = decoding body "invalid report" λ payload.
    if str_eq payload.node_id node.id
    then accept_report d t payload node.id
    else refuse 403 "node id mismatch"

abbrev pub on_heartbeat : Driver → ℕ → Node → Handler
on_heartbeat d now node =
    calling (update_node_heartbeat d node.id now) (λ e. refuse 500 "heartbeat update failed")
      (λ u. reply 200 (done "ok"))

module _ (hash : String → String) where
  unfoldable pub handle_report :
      Driver → ReportTimes → String → Option ComplianceReportPayload → Handler
  handle_report d t auth body = as_node hash d auth (on_report d t body)

  unfoldable pub handle_heartbeat : Driver → ℕ → String → Handler
  handle_heartbeat d now auth = as_node hash d auth (on_heartbeat d now)
