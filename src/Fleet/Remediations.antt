-- ===== src/Fleet/Remediations.antt =====
-- Remediation requests of pkg/fleet/sqlite.go.
pub mod Laws
use cloudflared_fips.Prelude.{
  ℕ, ◌+◌, String, Bool, true, false, not, ◌&&◌, List, [], ◌∷◌, ◌++◌, map, Option, none, some, leb,
  str_eq, ◌==◌, if◌then◌else◌,
}
use cloudflared_fips.Fleet.Types.{RemediationRequest}
use cloudflared_fips.Fleet.Db.{
  Db, RemediationRow, Driver, Action, Result, ok, err, statement, insert_remediation,
  select_pending, complete_remediation, select_remediation, format_time, parse_time,
}
use cloudflared_fips.Fleet.Nodes.{find_node}
use cloudflared_fips.Fleet.Reports.{known}

unfoldable pub find_remediation : String → List RemediationRow → Option RemediationRow
find_remediation id [] = none
find_remediation id (r ∷ rows) = if str_eq r.id id then some r else find_remediation id rows

abbrev remediation_row : RemediationRequest → RemediationRow
remediation_row req = record {
  id = req.id;
  node_id = req.node_id;
  actions = req.actions;
  dry_run = if req.dry_run then 1 else 0;
  status = req.status;
  created_at = format_time req.created_at;
  completed_at = none;
  result = "";
}

-- `id` is the primary key, and the node must exist where foreign keys are enforced.
pub create_remediation_request : Driver → RemediationRequest → Action (Unit {0})
create_remediation_request d req = statement d insert_remediation λ db.
    if known (find_remediation req.id db.remediations)
    then (db, err "UNIQUE constraint failed")
    else if d.foreign_keys && not (known (find_node req.node_id db.nodes))
    then (db, err "FOREIGN KEY constraint failed")
    else (record db { remediations = db.remediations ++ remediation_row req ∷ [] }, ok tt)

abbrev parse_completed : Option ℕ → Option ℕ
parse_completed none = none
parse_completed (some s) = some (parse_time s)

abbrev pub scan_remediation : RemediationRow → RemediationRequest
scan_remediation r = record {
  id = r.id;
  node_id = r.node_id;
  actions = r.actions;
  dry_run = r.dry_run == 1;
  status = r.status;
  created_at = parse_time r.created_at;
  completed_at = parse_completed r.completed_at;
  result = r.result;
}

-- `GetPendingRemediations` leaves `Result` unset.
abbrev scan_pending : RemediationRow → RemediationRequest
scan_pending r = record (scan_remediation r) { result = "" }

-- `ORDER BY created_at ASC`
insert_by_time : RemediationRow → List RemediationRow → List RemediationRow
insert_by_time r [] = r ∷ []
insert_by_time r (s ∷ rows) =
    let rest = insert_by_time r rows in
    if leb r.created_at s.created_at then r ∷ s ∷ rows else s ∷ rest

pending_rows : String → List RemediationRow → List RemediationRow
unfolding insert_by_time
pending_rows node_id [] = []
pending_rows node_id (r ∷ rows) =
    let rest = pending_rows node_id rows in
    if str_eq r.node_id node_id && str_eq r.status "pending" then insert_by_time r rest else rest

pub get_pending_remediations : Driver → String → Action (List RemediationRequest)
get_pending_remediations d node_id =
    statement d select_pending
      λ db. (db, ok (map scan_pending (pending_rows node_id db.remediations)))

pub complete_rows : String → ℕ → String → List RemediationRow → List RemediationRow
complete_rows id now result [] = []
complete_rows id now result (r ∷ rows) =
    (if str_eq r.id id
      then record r { status = "completed"; completed_at = some (format_time now); result = result }
      else r)
    ∷ complete_rows id now result rows

pub complete_remediation_request : Driver → String → ℕ → String → Action (Unit {0})
complete_remediation_request d id now result =
    statement d complete_remediation
      λ db. (record db { remediations = complete_rows id now result db.remediations }, ok tt)

abbrev scanned : Db → Option RemediationRow → Db × Result RemediationRequest
scanned db none = (db, err "sql: no rows in result set")
scanned db (some r) = (db, ok (scan_remediation r))

pub get_remediation_request : Driver → String → Action RemediationRequest
get_remediation_request d id =
    statement d select_remediation λ db. scanned db (find_remediation id db.remediations)
