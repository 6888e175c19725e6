-- ===== src/Fleet/Nodes.antt =====
-- The table of nodes of pkg/fleet/sqlite.go and the statements on it.
pub mod Laws
pub mod Selection
pub mod Updates
use cloudflared_fips.Prelude.{
  ℕ, ◌+◌, String, Bool, true, false, ◌&&◌, ◌||◌, List, [], ◌∷◌, ◌++◌, map, Option, none, some, leb,
  ltb, str_eq, if◌then◌else◌,
}
use cloudflared_fips.Prelude.Assoc.{Assoc}
use cloudflared_fips.Fleet.Types.{
  Node, NodeFilter, ServiceRegistration, online, offline, compliance_unknown,
}
use cloudflared_fips.Fleet.Db.{
  Db, NodeRow, RemediationRow, ReportRow, Driver, Result, Action, ok, err, pure, raise, statement,
  insert_node, select_node, select_nodes, select_node_by_key, update_heartbeat, update_compliance,
  update_compliance_status, update_status, delete_from_nodes, format_time, parse_time,
}

-- `svc.Name != ""`
abbrev named_service : Option ServiceRegistration → Option ServiceRegistration
named_service none = none
named_service (some svc) = if str_eq svc.name "" then none else some svc

abbrev parse_end : Option ℕ → Option ℕ
parse_end none = none
parse_end (some s) = some (parse_time s)

-- `scanNode` and `scanNodeRows`, with `populateNodeExtras`
unfoldable pub scan_node : NodeRow → Node
scan_node r = record {
  id = r.id;
  name = r.name;
  role = r.role;
  region = r.region;
  labels = r.labels;
  enrolled_at = parse_time r.enrolled_at;
  last_heartbeat = parse_time r.last_heartbeat;
  status = r.status;
  version = r.version;
  fips_backend = r.fips_backend;
  compliance_pass = r.compliance_pass;
  compliance_fail = r.compliance_fail;
  compliance_warn = r.compliance_warn;
  compliance_status =
      if str_eq r.compliance_status "" then compliance_unknown else r.compliance_status;
  service = named_service r.service_json;
  grace_period_end = parse_end r.grace_period_end;
}

-- a new row, with the defaults of the columns that the statement does not name
unfoldable pub new_row : Node → String → NodeRow
new_row node api_key_hash = record {
  id = node.id;
  name = node.name;
  role = node.role;
  region = node.region;
  labels = node.labels;
  enrolled_at = format_time node.enrolled_at;
  last_heartbeat = format_time node.last_heartbeat;
  status = node.status;
  version = node.version;
  fips_backend = node.fips_backend;
  api_key_hash = api_key_hash;
  compliance_pass = 0;
  compliance_fail = 0;
  compliance_warn = 0;
  compliance_status = compliance_unknown;
  service_json = none;
  grace_period_end = none;
}

-- the row with the id, and that with the hash
unfoldable pub find_node : String → List NodeRow → Option NodeRow
find_node id [] = none
find_node id (r ∷ rows) = if str_eq r.id id then some r else find_node id rows

unfoldable pub find_key : String → List NodeRow → Option NodeRow
find_key hash [] = none
find_key hash (r ∷ rows) = if str_eq r.api_key_hash hash then some r else find_key hash rows

abbrev is_free : {A : Type 0} → Option A → Bool
is_free none = true
is_free (some _) = false

-- `id` is the primary key, and `api_key_hash` is unique.
unfoldable pub create_node : Driver → Node → String → Action (Unit {0})
unfolding new_row
create_node d node api_key_hash = statement d insert_node λ db.
    if is_free (find_node node.id db.nodes) && is_free (find_key api_key_hash db.nodes)
    then (record db { nodes = db.nodes ++ new_row node api_key_hash ∷ [] }, ok tt)
    else (db, err "UNIQUE constraint failed")

abbrev no_rows : String
no_rows = "sql: no rows in result set"

abbrev found : Db → Option NodeRow → Db × Result Node
found db none = (db, err no_rows)
found db (some r) = (db, ok (scan_node r))

pub get_node : Driver → String → Action Node
get_node d id = statement d select_node λ db. found db (find_node id db.nodes)

pub get_node_by_api_key : Driver → String → Action Node
get_node_by_api_key d hash = statement d select_node_by_key λ db. found db (find_key hash db.nodes)

-- a condition of `ListNodes`, which an empty text leaves out
abbrev matches : String → String → Bool
matches wanted value = str_eq wanted "" || str_eq value wanted

unfoldable pub selects : NodeFilter → NodeRow → Bool
selects f r = matches f.role r.role && matches f.region r.region && matches f.status r.status

-- `ORDER BY enrolled_at DESC`; rows of one second stay in the order of the table.
insert_row : NodeRow → List NodeRow → List NodeRow
insert_row r [] = r ∷ []
insert_row r (s ∷ rows) =
    let rest = insert_row r rows in
    if leb s.enrolled_at r.enrolled_at then r ∷ s ∷ rows else s ∷ rest

pub select_rows : NodeFilter → List NodeRow → List NodeRow
unfolding insert_row selects
select_rows f [] = []
select_rows f (r ∷ rows) =
    let rest = select_rows f rows in if selects f r then insert_row r rest else rest

pub list_nodes : Driver → NodeFilter → Action (List Node)
list_nodes d filter =
    statement d select_nodes λ db. (db, ok (map scan_node (select_rows filter db.nodes)))

-- `UPDATE nodes SET ... WHERE id = ?`
pub update_row : String → (NodeRow → NodeRow) → List NodeRow → List NodeRow
update_row id f [] = []
update_row id f (r ∷ rows) = (if str_eq r.id id then f r else r) ∷ update_row id f rows

abbrev pub update : String → (NodeRow → NodeRow) → Action (Unit {0})
update id f db = (record db { nodes = update_row id f db.nodes }, ok tt)

abbrev pub heartbeat : ℕ → NodeRow → NodeRow
heartbeat t r = record r { last_heartbeat = format_time t; status = online }

pub update_node_heartbeat : Driver → String → ℕ → Action (Unit {0})
update_node_heartbeat d id t = statement d update_heartbeat (update id (heartbeat t))

pub update_node_status : Driver → String → String → Action (Unit {0})
update_node_status d id status =
    statement d (update_status id) (update id (λ r. record r { status = status }))

pub update_node_compliance : Driver → String → ℕ → ℕ → ℕ → Action (Unit {0})
update_node_compliance d id pass fail warn = statement d update_compliance (
    update id
      (λ r. record r { compliance_pass = pass; compliance_fail = fail; compliance_warn = warn }))

pub update_node_compliance_status : Driver → String → String → Action (Unit {0})
update_node_compliance_status d id status =
    statement d update_compliance_status (update id (λ r. record r { compliance_status = status }))

pub without_node : String → List NodeRow → List NodeRow
without_node id [] = []
without_node id (r ∷ rows) =
    let rest = without_node id rows in if str_eq r.id id then rest else r ∷ rest

without_reports : String → List ReportRow → List ReportRow
without_reports id [] = []
without_reports id (r ∷ rows) =
    let rest = without_reports id rows in if str_eq r.node_id id then rest else r ∷ rest

without_remediations : String → List RemediationRow → List RemediationRow
without_remediations id [] = []
without_remediations id (r ∷ rows) =
    let rest = without_remediations id rows in if str_eq r.node_id id then rest else r ∷ rest

-- `ON DELETE CASCADE`, where the connection enforces foreign keys
pub delete_node : Driver → String → Action (Unit {0})
delete_node d id = statement d delete_from_nodes λ db. (
  if d.foreign_keys
      then record db {
        nodes = without_node id db.nodes;
        reports = without_reports id db.reports;
        remediations = without_remediations id db.remediations;
      }
      else record db { nodes = without_node id db.nodes },
  ok tt,
)
