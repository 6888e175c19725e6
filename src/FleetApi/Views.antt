-- ===== src/FleetApi/Views.antt =====
-- The handlers of internal/dashboard/fleet_handler.go that only read: nodes, reports, the summary, the
-- policy and the routing table.
pub mod Routing
use cloudflared_fips.Prelude.{
  ℕ, String, Bool, ◌&&◌, List, map, Option, none, some, str_eq, if◌then◌else◌,
}
use cloudflared_fips.Fleet.Types.{
  Node, NodeFilter, CompliancePolicy, online, compliant, role_server,
}
use cloudflared_fips.Fleet.Db.{Driver}
use cloudflared_fips.Fleet.Nodes.{get_node, list_nodes}
use cloudflared_fips.Fleet.Reports.{get_latest_report}
use cloudflared_fips.Fleet.Summary.{get_summary}
use cloudflared_fips.FleetApi.{
  Route, Handler, FleetHandler, Body, one_node, all_nodes, one_report, fleet_summary,
  current_policy, all_routes, reply, refuse, calling,
}

unfoldable pub handle_list_nodes : Driver → NodeFilter → Handler
handle_list_nodes d filter =
    calling (list_nodes d filter) (λ e. refuse 500 "failed to list nodes")
      (λ found. reply 200 (all_nodes found))

unfoldable pub handle_get_node : Driver → String → Handler
handle_get_node d id =
    if str_eq id ""
    then refuse 400 "node id required"
    else calling (get_node d id) (λ e. refuse 404 "node not found")
        (λ found. reply 200 (one_node found))

unfoldable pub handle_get_node_report : Driver → String → Handler
handle_get_node_report d id =
    if str_eq id ""
    then refuse 400 "node id required"
    else calling (get_latest_report d id) (λ e. refuse 404 "no report found for node")
        (λ found. reply 200 (one_report found))

unfoldable pub handle_summary : Driver → ℕ → Handler
handle_summary d now =
    calling (get_summary d now) (λ e. refuse 500 "failed to compute summary")
      (λ found. reply 200 (fleet_summary found))

unfoldable pub handle_get_policy : Handler
handle_get_policy fh = reply 200 (current_policy fh.policy) fh

pub is_routable : CompliancePolicy → Node → Bool
is_routable p n =
    let up = str_eq n.status online in
    if str_eq p.enforcement_mode "enforce" then up && str_eq n.compliance_status compliant else up

abbrev pub route_of : CompliancePolicy → Node → Route
route_of p n = record {
  node_id = n.id;
  node_name = n.name;
  service = n.service;
  status = n.status;
  compliance_status = n.compliance_status;
  routable = is_routable p n;
}

abbrev pub servers : NodeFilter
servers = record { role = role_server; region = ""; status = "" }

unfoldable pub handle_get_routes : Driver → Handler
handle_get_routes d =
    calling (list_nodes d servers) (λ e. refuse 500 "failed to list nodes")
      (λ found. λ fh. reply 200 (all_routes (map (route_of fh.policy) found)) fh)
