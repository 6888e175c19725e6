-- ===== src/FleetApi/Serve.antt =====
-- `RegisterFleetRoutes` of internal/dashboard/fleet_handler.go: the requests that the server answers,
-- each with what its handler takes. The stream of events is not among them.
pub mod Policy
pub mod Guarded
pub mod Isolation
pub mod KeepsIds
pub mod Ids
use cloudflared_fips.Prelude.{ℕ, String, Bool, true, false, List, [], ◌∷◌, Option, none, some}
use cloudflared_fips.Fleet.Types.{
  NodeFilter, CreateTokenRequest, EnrollmentRequest, ComplianceReportPayload, CompliancePolicy,
}
use cloudflared_fips.Fleet.Db.{Driver}
use cloudflared_fips.Fleet.Enrollment.{TokenInput, EnrollInput}
use cloudflared_fips.FleetApi.{FleetHandler, Handler, Response}
use cloudflared_fips.FleetApi.Reporting.{ReportTimes, handle_report, handle_heartbeat}
use cloudflared_fips.FleetApi.Admin.{
  handle_create_token, handle_list_tokens, handle_delete_token, handle_enroll, handle_delete_node,
  handle_update_policy,
}
use cloudflared_fips.FleetApi.Views.{
  handle_list_nodes, handle_get_node, handle_get_node_report, handle_summary, handle_get_policy,
  handle_get_routes,
}
use cloudflared_fips.FleetApi.Remediation.{
  RemediationBody, ResultBody, RequestTimes, handle_request_remediation, handle_poll_remediations,
  handle_post_remediation_result, handle_get_remediation_plan,
}

pub data Request : Type 0 where
  create_token : TokenInput → String → Option CreateTokenRequest → Request
  list_tokens : String → Request
  delete_token : String → String → Request
  enroll : EnrollInput → ℕ → Option EnrollmentRequest → Request
  report : ReportTimes → String → Option ComplianceReportPayload → Request
  heartbeat : ℕ → String → Request
  list_nodes : NodeFilter → Request
  get_node : String → Request
  delete_node : ℕ → String → String → Request
  summary : ℕ → Request
  get_node_report : String → Request
  get_policy : Request
  update_policy : String → Option CompliancePolicy → Request
  get_routes : Request
  request_remediation : RequestTimes → String → String → Option RemediationBody → Request
  poll_remediations : String → String → Request
  post_result : ℕ → ℕ → String → String → Option ResultBody → Request
  get_plan : String → String → Request

module _ (hash : String → String) where
  pub serve : Driver → Request → Handler
  serve d (create_token input auth body) = handle_create_token hash d input auth body
  serve d (list_tokens auth) = handle_list_tokens d auth
  serve d (delete_token auth id) = handle_delete_token d auth id
  serve d (enroll input now body) = handle_enroll hash d input now body
  serve d (report t auth body) = handle_report hash d t auth body
  serve d (heartbeat now auth) = handle_heartbeat hash d now auth
  serve d (list_nodes filter) = handle_list_nodes d filter
  serve d (get_node id) = handle_get_node d id
  serve d (delete_node now auth id) = handle_delete_node d now auth id
  serve d (summary now) = handle_summary d now
  serve d (get_node_report id) = handle_get_node_report d id
  serve d get_policy = handle_get_policy
  serve d (update_policy auth body) = handle_update_policy auth body
  serve d get_routes = handle_get_routes d
  serve d (request_remediation t auth id body) = handle_request_remediation d t auth id body
  serve d (poll_remediations auth id) = handle_poll_remediations hash d auth id
  serve d (post_result completed event auth id body) =
      handle_post_remediation_result hash d completed event auth id body
  serve d (get_plan auth id) = handle_get_remediation_plan d auth id

-- A request, and what the driver does to its statements.
pub record Call : Type 0 where
  pub driver : Driver
  pub request : Request

module _ (hash : String → String) where
  -- the server after a sequence of requests
  unfoldable pub serve_all : List Call → FleetHandler → FleetHandler
  serve_all [] fh = fh
  serve_all (c ∷ calls) fh = serve_all calls (serve hash c.driver c.request fh).0

-- the `Authorization` header of a request that only an administrator may make
unfoldable pub admin_auth : Request → Option String
admin_auth (create_token _ auth _) = some auth
admin_auth (list_tokens auth) = some auth
admin_auth (delete_token auth _) = some auth
admin_auth (delete_node _ auth _) = some auth
admin_auth (update_policy auth _) = some auth
admin_auth (request_remediation _ auth _ _) = some auth
admin_auth (get_plan auth _) = some auth
admin_auth _ = none
