-- ===== src/FleetApi/Serve/Ids.antt =====
-- The ids of the nodes stay unique under the requests of internal/dashboard/fleet_handler.go.
use cloudflared_fips.Prelude.{String, List, [], ◌∷◌, none, some, arith, inl, inr}
use cloudflared_fips.Fleet.Db.{Driver}
use cloudflared_fips.Fleet.Nodes.Laws.{UniqueIds, db-get_node, db-list_nodes}
use cloudflared_fips.Fleet.Reports.Laws.{db-get_latest_report}
use cloudflared_fips.Fleet.Tokens.Laws.{nodes-list_tokens, nodes-delete_token}
use cloudflared_fips.Fleet.Summary.Totals.{db-get_summary}
use cloudflared_fips.Fleet.Enrollment.Create.{nodes-create_token}
use cloudflared_fips.Fleet.Remediations.{create_remediation_request}
use cloudflared_fips.Fleet.Remediations.Laws.{
  nodes-create_remediation_request, db-get_pending_remediations,
}
use cloudflared_fips.FleetApi.Views.{
  servers, handle_list_nodes, handle_get_node, handle_get_node_report, handle_summary,
  handle_get_policy, handle_get_routes,
}
use cloudflared_fips.FleetApi.Remediation.{
  new_request, on_poll, handle_request_remediation, handle_poll_remediations,
  handle_post_remediation_result, handle_get_remediation_plan,
}
use cloudflared_fips.FleetApi.{FleetHandler}
use cloudflared_fips.FleetApi.Along.{as_node-cases}
use cloudflared_fips.FleetApi.Admin.{
  handle_create_token, handle_list_tokens, handle_delete_token, handle_update_policy,
}
use cloudflared_fips.FleetApi.Serve.{Request, Call, serve, serve_all}
use cloudflared_fips.FleetApi.Serve.KeepsIds.{
  handle_enroll-KeepsIds, report-KeepsIds, heartbeat-KeepsIds, delete-KeepsIds, on_result-KeepsIds,
}

-- Every request keeps the ids of the nodes unique.
serve-UniqueIds :
    (hash : String → String) (d : Driver) (r : Request) (fh : FleetHandler)
    → UniqueIds fh.db.nodes
    → UniqueIds (serve hash d r fh).0.db.nodes
unfolding serve handle_create_token handle_list_tokens handle_delete_token handle_list_nodes
    handle_get_node handle_summary handle_get_node_report handle_get_policy handle_update_policy
    handle_get_routes handle_request_remediation handle_poll_remediations
    handle_post_remediation_result handle_get_remediation_plan
serve-UniqueIds hash d (Request.create_token input auth none) fh u = ground (arith, u)
serve-UniqueIds hash d (Request.create_token input auth (some req)) fh u =
    ground (arith, u, nodes-create_token hash d input req fh.db)
serve-UniqueIds hash d (Request.list_tokens auth) fh u =
    ground (arith, u, nodes-list_tokens d fh.db)
serve-UniqueIds hash d (Request.delete_token auth id) fh u =
    ground (arith, u, nodes-delete_token d id fh.db)
serve-UniqueIds hash d (Request.enroll input now body) fh u =
    handle_enroll-KeepsIds hash d input now body fh u
serve-UniqueIds hash d (Request.report t auth body) fh u = report-KeepsIds hash d t auth body fh u
serve-UniqueIds hash d (Request.heartbeat now auth) fh u = heartbeat-KeepsIds hash d now auth fh u
serve-UniqueIds hash d (Request.list_nodes filter) fh u =
    ground (arith, u, db-list_nodes d filter fh.db)
serve-UniqueIds hash d (Request.get_node id) fh u = ground (arith, u, db-get_node d id fh.db)
serve-UniqueIds hash d (Request.delete_node now auth id) fh u = delete-KeepsIds d now auth id fh u
serve-UniqueIds hash d (Request.summary now) fh u = ground (arith, u, db-get_summary d now fh.db)
serve-UniqueIds hash d (Request.get_node_report id) fh u =
    ground (arith, u, db-get_latest_report d id fh.db)
serve-UniqueIds hash d Request.get_policy fh u = u
serve-UniqueIds hash d (Request.update_policy auth body) fh u = ground (arith, u)
serve-UniqueIds hash d Request.get_routes fh u = ground (arith, u, db-list_nodes d servers fh.db)
serve-UniqueIds hash d (Request.request_remediation t auth id none) fh u =
    ground (arith, u, db-get_node d id fh.db)
serve-UniqueIds hash d (Request.request_remediation t auth id (some body)) fh u = ground (
  arith,
  u,
  db-get_node d id fh.db,
  nodes-create_remediation_request d (new_request t id body) fh.db,
  db-get_node d id (create_remediation_request d (new_request t id body) fh.db).0,
)
serve-UniqueIds hash d (Request.poll_remediations auth id) fh u =
    elim (as_node-cases hash d auth (on_poll d id) fh) [
      | inl (r, refused) ↦ rw refused u
      | inr (row, known, passed) ↦ ground (arith, u, passed, db-get_pending_remediations d id fh.db)
    ]
serve-UniqueIds hash d (Request.post_result completed event auth id body) fh u =
    on_result-KeepsIds hash d completed event auth id body fh u
serve-UniqueIds hash d (Request.get_plan auth id) fh u =
    ground (arith, u, db-get_latest_report d id fh.db)

-- From a table of nodes without a repeated id, such as an empty one, every sequence of requests leads to
-- such a table, whatever the requests hold and whatever the driver fails.
pub serve_all-UniqueIds :
    (hash : String → String) (calls : List Call) (fh : FleetHandler)
    → UniqueIds fh.db.nodes
    → UniqueIds (serve_all hash calls fh).db.nodes
unfolding serve_all
serve_all-UniqueIds hash [] fh u = u
serve_all-UniqueIds hash (c ∷ calls) fh u =
    serve_all-UniqueIds hash calls (serve hash c.driver c.request fh).0
      (serve-UniqueIds hash c.driver c.request fh u)
