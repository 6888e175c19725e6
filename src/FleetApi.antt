-- ===== src/FleetApi.antt =====
-- internal/dashboard/fleet_handler.go: the HTTP handlers of the fleet. A handler is a function of the
-- server's state; the `Authorization` header is a text, empty where it is absent, and the body what
-- `json.Decode` makes of it, `none` for an error. The store has one step for each call that the
-- handler makes. Log lines are not modelled.
mod Tests
pub mod Reporting
pub mod Admin
pub mod Views
pub mod Remediation
pub mod Along
pub mod Serve
use cloudflared_fips.Prelude.{
  ℕ, String, Bool, false, List, Option, none, some, str_eq, if◌then◌else◌,
}
use cloudflared_fips.Prelude.Int.{pos}
use cloudflared_fips.Prelude.Text.{trim_prefix}
use cloudflared_fips.Compliance.{ComplianceReport}
use cloudflared_fips.Fleet.Types.{
  Node, EnrollmentToken, EnrollmentResponse, RemediationRequest, CompliancePolicy,
  ServiceRegistration, FleetEvent,
}
use cloudflared_fips.Fleet.Db.{Db, Driver, Action, Result, ok, err}
use cloudflared_fips.Fleet.Nodes.{get_node_by_api_key}
use cloudflared_fips.Fleet.Summary.{FleetSummary}
use cloudflared_fips.Fleet.Monitor.{Channel, try_send}

-- The handler and its store. `policy` is never nil behind `NewFleetHandler`.
pub record FleetHandler : Type 0 where
  pub db : Db
  pub admin_key : String
  pub events : Option Channel
  pub policy : CompliancePolicy

pub record Route : Type 0 where
  pub node_id : String
  pub node_name : String
  pub service : Option ServiceRegistration
  pub status : String
  pub compliance_status : String
  pub routable : Bool

pub record PlanAction : Type 0 where
  pub id : String
  pub description : String
  pub auto_exec : Bool
  pub instructions : String
  pub failed_check : String

pub data Body : Type 0 where
  error : String → Body
  done : String → Body
  one_token : EnrollmentToken → Body
  all_tokens : List EnrollmentToken → Body
  enrolled : EnrollmentResponse → Body
  one_node : Node → Body
  all_nodes : List Node → Body
  one_report : ComplianceReport → Body
  fleet_summary : FleetSummary → Body
  current_policy : CompliancePolicy → Body
  all_routes : List Route → Body
  requested : RemediationRequest → Body
  pending : List RemediationRequest → Body
  planned : List PlanAction → Body

pub record Response : Type 0 where
  pub code : ℕ
  pub body : Body

abbrev pub Handler : Type 0
Handler = FleetHandler → FleetHandler × Response

abbrev pub audit_policy : CompliancePolicy
audit_policy = record {
  enforcement_mode = "audit";
  require_os_fips = false;
  require_disk_enc = false;
  require_mdm = false;
  grace_period_sec = pos 0;
}

abbrev pub policy_or_audit : Option CompliancePolicy → CompliancePolicy
policy_or_audit none = audit_policy
policy_or_audit (some p) = p

pub new_fleet_handler : Db → String → Option Channel → Option CompliancePolicy → FleetHandler
new_fleet_handler db admin_key events policy = record {
  db = db;
  admin_key = admin_key;
  events = events;
  policy = policy_or_audit policy;
}

-- `writeJSON`
abbrev pub reply : ℕ → Body → Handler
reply code body fh = (fh, record { code = code; body = body })

abbrev pub refuse : ℕ → String → Handler
refuse code e = reply code (error e)

module _ {A : Type 0} where
  abbrev pub settle : Result A → (String → Handler) → (A → Handler) → Handler
  settle (ok a) failed next = next a
  settle (err e) failed next = failed e

  -- a call of the store, with what follows its failure and its success
  abbrev pub calling : Action A → (String → Handler) → (A → Handler) → Handler
  calling m failed next fh = let (db', r) = m fh.db in settle r failed next (record fh { db = db' })

  -- a decoded body
  abbrev pub decoding : Option A → String → (A → Handler) → Handler
  decoding none e next = refuse 400 e
  decoding (some a) e next = next a

-- `requireAdmin`: the refusal, if there is one. Without an admin key everything is allowed.
pub require_admin : String → String → Option Response
require_admin admin_key auth =
    if str_eq admin_key ""
    then none
    else if str_eq auth ""
    then some (record { code = 401; body = error "admin authorization required" })
    else if str_eq (trim_prefix auth "Bearer ") admin_key
    then none
    else some (record { code = 403; body = error "invalid admin credentials" })

abbrev pub unless : Option Response → Handler → Handler
unless none next fh = next fh
unless (some r) next fh = (fh, r)

abbrev pub as_admin : String → Handler → Handler
as_admin auth next fh = unless (require_admin fh.admin_key auth) next fh

-- `authenticateNode`
abbrev pub as_node : (String → String) → Driver → String → (Node → Handler) → Handler
as_node hash d auth next =
    if str_eq auth ""
    then refuse 401 "authorization required"
    else calling (get_node_by_api_key d (hash (trim_prefix auth "Bearer ")))
        (λ e. refuse 403 "invalid credentials") next

-- a send on the event channel that never blocks
abbrev pub emit : String → Node → ℕ → FleetHandler → FleetHandler
emit kind node now fh = record fh {
  events = try_send (record { kind = kind; node = node; time = now }) fh.events;
}

-- the same, of a node that was looked up: nothing is sent if it is missing
abbrev pub emit_found : String → Result Node → ℕ → FleetHandler → FleetHandler
emit_found kind (ok node) now fh = emit kind node now fh
emit_found kind (err _) now fh = fh
