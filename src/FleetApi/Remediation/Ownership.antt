-- ===== src/FleetApi/Remediation/Ownership.antt =====
-- A node answers only its own remediation requests (internal/dashboard/fleet_handler.go).
use cloudflared_fips.Prelude.{
  ℕ, ◌≡◌, ◌≢◌, String, false, Option, none, some, arith, str_eq, eq_iff, Bool-cases, inl, inr,
}
use cloudflared_fips.Prelude.Text.{trim_prefix}
use cloudflared_fips.Fleet.Db.{Db, Driver, NodeRow, RemediationRow, Result-cases}
use cloudflared_fips.Fleet.Nodes.{find_key, scan_node}
use cloudflared_fips.Fleet.Remediations.{
  find_remediation, get_remediation_request, complete_remediation_request,
}
use cloudflared_fips.Fleet.Remediations.Laws.{
  find_remediation-complete_rows, find_remediation-id, remediations-complete_remediation_request,
  db-get_remediation_request, get_remediation_request-inv,
}
use cloudflared_fips.FleetApi.{FleetHandler}
use cloudflared_fips.FleetApi.Along.{as_node-cases}
use cloudflared_fips.FleetApi.Remediation.{ResultBody, on_result, handle_post_remediation_result}

-- Another row than the one of the id stays when the id is completed.
complete-kept :
    (d : Driver) (id : String) (now : ℕ) (result : String) (db : Db) (j : String)
    (r : RemediationRow)
    → find_remediation j db.remediations ≡ some r
    → str_eq id j ≡ false
    → find_remediation j (complete_remediation_request d id now result db).0.remediations ≡ some r
complete-kept d id now result db j r known apart = ground (
  arith,
  known,
  remediations-complete_remediation_request d id now result db,
  find_remediation-complete_rows j id now result db.remediations,
  find_remediation-id j db.remediations r known,
  eq_iff r.id id,
  eq_iff id j,
)

-- The handler of results leaves every request that was made to another node than the one whose API key
-- the header carries as it was, whatever the body and the path name.
pub handle_post_remediation_result-own :
    (hash : String → String) (d : Driver) (done event : ℕ) (auth node_id : String)
    (body : Option ResultBody) (fh : FleetHandler) (j : String) (r : RemediationRow)
    → find_remediation j fh.db.remediations ≡ some r
    → ((row : NodeRow)
        → find_key (hash (trim_prefix auth "Bearer ")) fh.db.nodes ≡ some row
        → row.id ≢ r.node_id)
    → find_remediation j
        (handle_post_remediation_result hash d done event auth node_id body fh).0.db.remediations
      ≡ some r
unfolding handle_post_remediation_result scan_node
handle_post_remediation_result-own hash d done event auth node_id none fh j r known foreign =
    elim (as_node-cases hash d auth (on_result d done event node_id none) fh) [
      | inl (a, refused) ↦ rw refused known
      | inr (row, key, passed) ↦ ground (arith, passed, known)
    ]
handle_post_remediation_result-own hash d done event auth node_id (some sent) fh j r known foreign =
    let id = sent.request_id in
    let kept = db-get_remediation_request d id fh.db in
    elim (as_node-cases hash d auth (on_result d done event node_id (some sent)) fh) [
      | inl (a, refused) ↦ rw refused known
      | inr (row, key, passed) ↦ elim (Result-cases (get_remediation_request d id fh.db).1) [
        | inr (e, failed) ↦ ground (arith, passed, known, failed, kept)
        | inl (req, found) ↦
            let (s, stored, scanned) = get_remediation_request-inv d id fh.db req found in
            elim (Bool-cases (str_eq id j)) [
              | inl same ↦ ground (
                arith,
                passed,
                known,
                found,
                kept,
                stored,
                scanned,
                same,
                eq_iff id j,
                eq_iff node_id row.id,
                eq_iff req.node_id node_id,
                foreign row key,
              )
              | inr other ↦ ground (
                arith,
                passed,
                known,
                found,
                kept,
                complete-kept d id done sent.result fh.db j r known other,
              )
            ]
      ]
    ]
