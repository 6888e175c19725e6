-- ===== src/FleetApi/Admin.antt =====
-- The handlers of internal/dashboard/fleet_handler.go that change the fleet for an administrator, and
-- the enrolment of a node with a token.
use cloudflared_fips.Prelude.{ℕ, String, ◌||◌, Option, str_eq, if◌then◌else◌}
use cloudflared_fips.Fleet.Types.{CreateTokenRequest, EnrollmentRequest, CompliancePolicy}
use cloudflared_fips.Fleet.Db.{Driver}
use cloudflared_fips.Fleet.Nodes.{get_node, delete_node}
use cloudflared_fips.Fleet.Tokens.{list_tokens, delete_token}
use cloudflared_fips.Fleet.Enrollment.{TokenInput, EnrollInput, create_token, enroll}
use cloudflared_fips.FleetApi.{
  Handler, one_token, all_tokens, done, enrolled, current_policy, reply, refuse, calling, decoding,
  as_admin, emit, emit_found,
}

module _ (hash : String → String) where
  unfoldable pub handle_create_token :
      Driver → TokenInput → String → Option CreateTokenRequest → Handler
  handle_create_token d input auth body = as_admin auth (
      decoding body "invalid request body" λ req.
        calling (create_token hash d input req) (λ e. refuse 400 e)
          (λ token. reply 201 (one_token token)))

  -- The event shows the node as it is stored; none is sent if the lookup fails.
  unfoldable pub handle_enroll : Driver → EnrollInput → ℕ → Option EnrollmentRequest → Handler
  handle_enroll d input now body = decoding body "invalid request body" λ req.
      calling (enroll hash d input req) (λ e. refuse 403 e)
        (λ resp. λ fh.
          let (read, stored) = get_node d resp.node_id fh.db in
          reply 200 (enrolled resp) (emit_found "node_joined" stored now (record fh { db = read })))

unfoldable pub handle_list_tokens : Driver → String → Handler
handle_list_tokens d auth = as_admin auth (
    calling (list_tokens d) (λ e. refuse 500 "failed to list tokens")
      (λ all. reply 200 (all_tokens all)))

unfoldable pub handle_delete_token : Driver → String → String → Handler
handle_delete_token d auth id = as_admin auth (
    if str_eq id ""
    then refuse 400 "token id required"
    else calling (delete_token d id) (λ e. refuse 500 "failed to delete token")
        (λ u. reply 200 (done "deleted")))

unfoldable pub handle_delete_node : Driver → ℕ → String → String → Handler
handle_delete_node d now auth id = as_admin auth (
    if str_eq id ""
    then refuse 400 "node id required"
    else calling (get_node d id) (λ e. refuse 404 "node not found")
        (λ gone.
          calling (delete_node d id) (λ e. refuse 500 "failed to delete node")
            (λ u. λ fh. reply 200 (done "deleted") (emit "node_removed" gone now fh))))

unfoldable pub handle_update_policy : String → Option CompliancePolicy → Handler
handle_update_policy auth body = as_admin auth (
    decoding body "invalid request body" λ new.
      if str_eq new.enforcement_mode "enforce"
        || str_eq new.enforcement_mode "audit"
        || str_eq new.enforcement_mode "disabled"
      then (λ fh. reply 200 (current_policy new) (record fh { policy = new }))
      else refuse 400 "enforcement_mode must be enforce, audit, or disabled")
