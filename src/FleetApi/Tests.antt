-- ===== src/FleetApi/Tests.antt =====
-- The theorems on internal/dashboard/fleet_handler.go at the sample fleet.
use cloudflared_fips.Prelude.{
  ◌*◌, ◌≡◌, ◌≢◌, refl, inl, inr, String, true, List, [], ◌∷◌, none, some, arith, eq_iff,
}
use cloudflared_fips.Prelude.Text.{trim_prefix}
use cloudflared_fips.Compliance.{fail, ChecklistItem, ComplianceReport, no_counts}
use cloudflared_fips.Fleet.Types.{
  ComplianceReportPayload, CompliancePolicy, online, compliant, non_compliant,
}
use cloudflared_fips.Fleet.Db.{RemediationRow, NodeRow, second}
use cloudflared_fips.Fleet.Nodes.{find_node, find_key}
use cloudflared_fips.Fleet.Nodes.Laws.{UniqueIds}
use cloudflared_fips.Fleet.Sample.{hash, driver, row, sample, asking, drawn}
use cloudflared_fips.FleetApi.{
  FleetHandler, Route, done, all_routes, audit_policy, new_fleet_handler,
}
use cloudflared_fips.FleetApi.Reporting.{
  ReportTimes, violates, compliance_of, handle_report, handle_heartbeat,
}
use cloudflared_fips.FleetApi.Reporting.Effect.{
  recorded, judged, handle_report-row, handle_heartbeat-online,
}
use cloudflared_fips.FleetApi.Reporting.Verdict.{compliance_of-any, compliance_of-Unnamed}
use cloudflared_fips.FleetApi.Remediation.{handle_post_remediation_result}
use cloudflared_fips.FleetApi.Remediation.Ownership.{handle_post_remediation_result-own}
use cloudflared_fips.Fleet.Remediations.{find_remediation}
use cloudflared_fips.FleetApi.Views.{handle_get_routes}
use cloudflared_fips.FleetApi.Views.Routing.{routes_to, serves, handle_get_routes-serves}
use cloudflared_fips.FleetApi.Serve.{Request, Call, serve, serve_all, admin_auth}
use cloudflared_fips.FleetApi.Serve.Guarded.{serve-refused}
use cloudflared_fips.FleetApi.Serve.Isolation.{serve-isolated}
use cloudflared_fips.FleetApi.Serve.Ids.{serve_all-UniqueIds}
use cloudflared_fips.FleetApi.Serve.Policy.{HasMode, serve_all-HasMode}

abbrev policy : CompliancePolicy
policy = record audit_policy { enforcement_mode = "enforce"; require_os_fips = true }

abbrev server : FleetHandler
server = record { db = sample; admin_key = "admin"; events = none; policy = policy }

abbrev item : String → ChecklistItem
item name = record {
  id = "ag-fips";
  name = name;
  status = fail;
  severity = "critical";
  verification_method = "direct";
  what = "";
  why = "";
  remediation = "";
  nist_ref = "SC-13";
}

abbrev report : String → ComplianceReport
report name = record {
  timestamp = "now";
  sections =
      record { id = "agent"; name = "Endpoint"; description = ""; items = item name ∷ [] } ∷ [];
  summary = record no_counts { total = 1; failed = 1 };
}

abbrev payload : ComplianceReportPayload
payload = record { node_id = "a"; report = report "OS FIPS Mode"; version = "1"; backend = "" }

abbrev times : ReportTimes
times = record { stored = 901 * second; heartbeat = 902 * second; event = 903 * second }

abbrev node_a : NodeRow
node_a = row "a" "online" 900

sample-UniqueIds : UniqueIds sample.nodes
unfolding find_node
sample-UniqueIds = (refl, (refl, tt))

guess-wrong : trim_prefix "Bearer guess" "Bearer " ≢ "admin"
unfolding trim_prefix
guess-wrong e = absurd (ground (arith, e, eq_iff "guess" "admin"))

serve-refused_example :
    ((serve hash driver (Request.delete_node 1 "Bearer guess" "a") server).0 ≡ server)
    × ((serve hash driver (Request.delete_node 1 "Bearer guess" "a") server).1.code ≡ 403)
unfolding admin_auth
serve-refused_example =
    serve-refused hash driver (Request.delete_node 1 "Bearer guess" "a") server "Bearer guess" refl
      (λ e. absurd (ground (arith, e, eq_iff "admin" ""))) guess-wrong

serve-isolated_example :
    find_node "b"
      (serve hash driver (Request.report times "Bearer key a" (some payload)) server).0.db.nodes
    ≡ find_node "b" sample.nodes
unfolding find_key trim_prefix
serve-isolated_example =
    serve-isolated hash driver (Request.report times "Bearer key a" (some payload)) server
      "Bearer key a" "b" refl (λ r. λ known. λ e. absurd (ground (arith, known, e, eq_iff "a" "b")))

handle_get_routes-serves_example :
    (routes : List Route) × (handle_get_routes driver server
      ≡ (server, record { code = 200; body = all_routes routes }))
    × ((id : String) → routes_to id routes ≡ serves policy (find_node id sample.nodes))
handle_get_routes-serves_example = handle_get_routes-serves driver server refl sample-UniqueIds

handle_report-row_example :
    ((handle_report hash driver times "Bearer key a" (some payload) server).1
      ≡ record { code = 200; body = done "accepted" })
    × (find_node "a"
          (handle_report hash driver times "Bearer key a" (some payload) server).0.db.nodes
        ≡ some (judged policy payload.report (recorded times payload.report node_a)))
unfolding find_key find_node trim_prefix
handle_report-row_example =
    handle_report-row hash driver times "Bearer key a" payload server node_a (λ s. refl) refl refl
      refl refl

handle_heartbeat-online_example :
    ((handle_heartbeat hash driver (600 * second) "Bearer key b" server).1
      ≡ record { code = 200; body = done "ok" })
    × (find_node "b" (handle_heartbeat hash driver (600 * second) "Bearer key b" server).0.db.nodes
        ≡ some (row "b" online 600))
unfolding find_key find_node trim_prefix
handle_heartbeat-online_example =
    handle_heartbeat-online hash driver (600 * second) "Bearer key b" server
      (row "b" "degraded" 500) (λ s. refl) refl refl refl

abbrev calls : List Call
calls =
    record { driver = driver; request = Request.enroll (drawn "c") 1 (some (asking "raw")) }
    ∷ record { driver = driver; request = Request.delete_node 1 "Bearer admin" "a" }
    ∷ record { driver = driver; request = Request.update_policy "Bearer admin" (some audit_policy) }
    ∷ []

serve_all-UniqueIds_example : UniqueIds (serve_all hash calls server).db.nodes
serve_all-UniqueIds_example = serve_all-UniqueIds hash calls server sample-UniqueIds

serve_all-HasMode_example :
    HasMode (serve_all hash calls (new_fleet_handler sample "admin" none none)).policy
serve_all-HasMode_example = serve_all-HasMode hash calls sample "admin" none none (inr (inl refl))

compliance_of-any_example : compliance_of policy (report "OS FIPS mode") ≡ non_compliant
unfolding violates
compliance_of-any_example = compliance_of-any policy (report "OS FIPS mode")

compliance_of-Unnamed_example : compliance_of policy (report "OS FIPS Mode") ≡ compliant
compliance_of-Unnamed_example = compliance_of-Unnamed policy (report "OS FIPS Mode") (
  (
    λ e. absurd (ground (arith, e, eq_iff "OS FIPS Mode" "OS FIPS mode")),
    λ e. absurd (ground (arith, e, eq_iff "OS FIPS Mode" "Disk encryption")),
    λ e. absurd (ground (arith, e, eq_iff "OS FIPS Mode" "FIPS backend active")),
  ),
  tt,
)

abbrev ordered : RemediationRow
ordered = record {
  id = "rem-1";
  node_id = "b";
  actions = "connect_warp" ∷ [];
  dry_run = 0;
  status = "pending";
  created_at = 900;
  completed_at = none;
  result = "";
}

abbrev busy : FleetHandler
busy = record server { db = record sample { remediations = ordered ∷ [] } }

handle_post_remediation_result-own_example :
    find_remediation "rem-1"
      (handle_post_remediation_result hash driver 1 2 "Bearer key a" "a"
        (some (record { request_id = "rem-1"; result = "forged" }))
        busy).0.db.remediations
    ≡ some ordered
unfolding find_remediation find_key trim_prefix
handle_post_remediation_result-own_example =
    handle_post_remediation_result-own hash driver 1 2 "Bearer key a" "a"
      (some (record { request_id = "rem-1"; result = "forged" })) busy "rem-1" ordered refl
      (λ r. λ known. λ e. absurd (ground (arith, known, e, eq_iff "a" "b")))
