-- ===== src/FleetApi/Serve/Guarded.antt =====
-- What internal/dashboard/fleet_handler.go demands of an administrator.
use cloudflared_fips.Prelude.{◌≡◌, ◌≢◌, String, some, arith, str_eq, str_eq-ne, if◌then◌else◌}
use cloudflared_fips.Prelude.Text.{trim_prefix}
use cloudflared_fips.Fleet.Db.{Driver}
use cloudflared_fips.FleetApi.{FleetHandler, Handler, require_admin, as_admin}
use cloudflared_fips.FleetApi.Admin.{
  handle_create_token, handle_list_tokens, handle_delete_token, handle_delete_node,
  handle_update_policy,
}
use cloudflared_fips.FleetApi.Remediation.{handle_request_remediation, handle_get_remediation_plan}
use cloudflared_fips.FleetApi.Serve.{Request, serve, admin_auth}

-- What an administrator's handler does without the key.
as_admin-refused :
    (auth given : String) (next : Handler) (fh : FleetHandler)
    → some given ≡ some auth
    → fh.admin_key ≢ ""
    → trim_prefix auth "Bearer " ≢ fh.admin_key
    → ((as_admin given next fh).0 ≡ fh)
      × ((as_admin given next fh).1.code ≡ (if str_eq auth "" then 401 else 403))
unfolding require_admin
as_admin-refused auth given next fh same key wrong =
    let a = str_eq-ne fh.admin_key "" key in
    let b = str_eq-ne (trim_prefix auth "Bearer ") fh.admin_key wrong in
    (ground (arith, same, a, b), ground (arith, same, a, b))

-- A request that only an administrator may make is refused and changes nothing, when the server has an
-- admin key and the header, less the prefix `Bearer `, is not that key: with 401 if there is no
-- header, and with 403 otherwise.
pub serve-refused :
    (hash : String → String) (d : Driver) (r : Request) (fh : FleetHandler) (auth : String)
    → admin_auth r ≡ some auth
    → fh.admin_key ≢ ""
    → trim_prefix auth "Bearer " ≢ fh.admin_key
    → ((serve hash d r fh).0 ≡ fh)
      × ((serve hash d r fh).1.code ≡ (if str_eq auth "" then 401 else 403))
unfolding serve admin_auth handle_create_token handle_list_tokens handle_delete_token
    handle_delete_node handle_update_policy handle_request_remediation handle_get_remediation_plan
serve-refused hash d (Request.create_token input given body) fh auth admin key wrong =
    as_admin-refused auth given _ fh admin key wrong
serve-refused hash d (Request.list_tokens given) fh auth admin key wrong =
    as_admin-refused auth given _ fh admin key wrong
serve-refused hash d (Request.delete_token given id) fh auth admin key wrong =
    as_admin-refused auth given _ fh admin key wrong
serve-refused hash d (Request.delete_node now given id) fh auth admin key wrong =
    as_admin-refused auth given _ fh admin key wrong
serve-refused hash d (Request.update_policy given body) fh auth admin key wrong =
    as_admin-refused auth given _ fh admin key wrong
serve-refused hash d (Request.request_remediation t given id body) fh auth admin key wrong =
    as_admin-refused auth given _ fh admin key wrong
serve-refused hash d (Request.get_plan given id) fh auth admin key wrong =
    as_admin-refused auth given _ fh admin key wrong
serve-refused hash d (Request.enroll _ _ _) fh auth admin key wrong = absurd (ground arith)
serve-refused hash d (Request.report _ _ _) fh auth admin key wrong = absurd (ground arith)
serve-refused hash d (Request.heartbeat _ _) fh auth admin key wrong = absurd (ground arith)
serve-refused hash d (Request.list_nodes _) fh auth admin key wrong = absurd (ground arith)
serve-refused hash d (Request.get_node _) fh auth admin key wrong = absurd (ground arith)
serve-refused hash d (Request.summary _) fh auth admin key wrong = absurd (ground arith)
serve-refused hash d (Request.get_node_report _) fh auth admin key wrong = absurd (ground arith)
serve-refused hash d Request.get_policy fh auth admin key wrong = absurd (ground arith)
serve-refused hash d Request.get_routes fh auth admin key wrong = absurd (ground arith)
serve-refused hash d (Request.poll_remediations _ _) fh auth admin key wrong = absurd (ground arith)
serve-refused hash d (Request.post_result _ _ _ _ _) fh auth admin key wrong = absurd (ground arith)
