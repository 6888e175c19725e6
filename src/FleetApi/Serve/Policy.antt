-- ===== src/FleetApi/Serve/Policy.antt =====
-- The policy of internal/dashboard/fleet_handler.go: its mode stays one of the three, and what it makes
-- of a report.
use cloudflared_fips.Prelude.{◌≡◌, ◌⊎◌, String, List, [], ◌∷◌, Option, none, some, arith, eq_iff}
use cloudflared_fips.Fleet.Types.{CompliancePolicy}
use cloudflared_fips.Fleet.Db.{Db, Driver}
use cloudflared_fips.Fleet.Monitor.{Channel}
use cloudflared_fips.FleetApi.{FleetHandler, new_fleet_handler, policy_or_audit}
use cloudflared_fips.FleetApi.Reporting.{accept_report, handle_report, handle_heartbeat}
use cloudflared_fips.FleetApi.Admin.{
  handle_create_token, handle_list_tokens, handle_delete_token, handle_delete_node, handle_enroll,
  handle_update_policy,
}
use cloudflared_fips.FleetApi.Views.{
  handle_list_nodes, handle_get_node, handle_get_node_report, handle_summary, handle_get_policy,
  handle_get_routes,
}
use cloudflared_fips.FleetApi.Remediation.{
  handle_request_remediation, handle_poll_remediations, handle_post_remediation_result,
  handle_get_remediation_plan,
}
use cloudflared_fips.FleetApi.Serve.{Request, Call, serve, serve_all}

-- The mode is one of the three that the program knows.
abbrev pub HasMode : CompliancePolicy → Type 0
HasMode p =
    (p.enforcement_mode ≡ "enforce")
    ⊎ (p.enforcement_mode ≡ "audit")
    ⊎ (p.enforcement_mode ≡ "disabled")

serve-HasMode :
    (hash : String → String) (d : Driver) (r : Request) (fh : FleetHandler)
    → HasMode fh.policy
    → HasMode (serve hash d r fh).0.policy
unfolding serve accept_report handle_create_token handle_list_tokens handle_delete_token
    handle_enroll handle_report handle_heartbeat handle_list_nodes handle_get_node
    handle_delete_node handle_summary handle_get_node_report handle_get_policy handle_update_policy
    handle_get_routes handle_request_remediation handle_poll_remediations
    handle_post_remediation_result handle_get_remediation_plan
serve-HasMode hash d (Request.create_token a b c) fh h = ground (arith, h)
serve-HasMode hash d (Request.list_tokens a) fh h = ground (arith, h)
serve-HasMode hash d (Request.delete_token a b) fh h = ground (arith, h)
serve-HasMode hash d (Request.enroll a b c) fh h = ground (arith, h)
serve-HasMode hash d (Request.report a b c) fh h = ground (arith, h)
serve-HasMode hash d (Request.heartbeat a b) fh h = ground (arith, h)
serve-HasMode hash d (Request.list_nodes a) fh h = ground (arith, h)
serve-HasMode hash d (Request.get_node a) fh h = ground (arith, h)
serve-HasMode hash d (Request.delete_node a b c) fh h = ground (arith, h)
serve-HasMode hash d (Request.summary a) fh h = ground (arith, h)
serve-HasMode hash d (Request.get_node_report a) fh h = ground (arith, h)
serve-HasMode hash d Request.get_policy fh h = ground (arith, h)
serve-HasMode hash d (Request.update_policy a none) fh h = ground (arith, h)
serve-HasMode hash d (Request.update_policy a (some new)) fh h = ground (
  arith,
  h,
  eq_iff new.enforcement_mode "enforce",
  eq_iff new.enforcement_mode "audit",
  eq_iff new.enforcement_mode "disabled",
)
serve-HasMode hash d Request.get_routes fh h = ground (arith, h)
serve-HasMode hash d (Request.request_remediation a b c e) fh h = ground (arith, h)
serve-HasMode hash d (Request.poll_remediations a b) fh h = ground (arith, h)
serve-HasMode hash d (Request.post_result a b c e f) fh h = ground (arith, h)
serve-HasMode hash d (Request.get_plan a b) fh h = ground (arith, h)

all-HasMode :
    (hash : String → String) (calls : List Call) (fh : FleetHandler)
    → HasMode fh.policy
    → HasMode (serve_all hash calls fh).policy
unfolding serve_all
all-HasMode hash [] fh h = h
all-HasMode hash (c ∷ calls) fh h =
    all-HasMode hash calls (serve hash c.driver c.request fh).0
      (serve-HasMode hash c.driver c.request fh h)

-- The policy of a server that starts with one of the three modes, or with no policy, has one of them
-- after any sequence of requests, whatever they hold and whatever the driver fails.
pub serve_all-HasMode :
    (hash : String → String) (calls : List Call) (db : Db) (key : String) (events : Option Channel)
    (p : Option CompliancePolicy)
    → HasMode (policy_or_audit p)
    → HasMode (serve_all hash calls (new_fleet_handler db key events p)).policy
unfolding new_fleet_handler
serve_all-HasMode hash calls db key events p h = all-HasMode hash calls _ h
