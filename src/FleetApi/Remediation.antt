-- ===== src/FleetApi/Remediation.antt =====
-- The remediation handlers of internal/dashboard/fleet_handler.go: an administrator asks a node to act,
-- the node polls and answers with its API key, and the plan lists what a report suggests.
pub mod Ownership
use cloudflared_fips.Prelude.{
  ℕ, String, Bool, true, false, ◌||◌, List, [], ◌∷◌, ◌++◌, Option, none, str_eq, if◌then◌else◌,
}
use cloudflared_fips.Prelude.Text.{concat, contains, decimal}
use cloudflared_fips.Compliance.{ChecklistItem, Section, is_pass}
use cloudflared_fips.Fleet.Types.{Node, RemediationRequest}
use cloudflared_fips.Fleet.Db.{Driver}
use cloudflared_fips.Fleet.Nodes.{get_node}
use cloudflared_fips.Fleet.Reports.{get_latest_report}
use cloudflared_fips.Fleet.Remediations.{
  create_remediation_request, get_pending_remediations, complete_remediation_request,
  get_remediation_request,
}
use cloudflared_fips.FleetApi.{
  Handler, PlanAction, done, requested, pending, planned, reply, refuse, calling, decoding,
  as_admin, as_node, emit, emit_found,
}

-- the body of a request for remediation
pub record RemediationBody : Type 0 where
  pub actions : List String
  pub dry_run : Bool

-- the body of a result, whose JSON is kept as a text
pub record ResultBody : Type 0 where
  pub request_id : String
  pub result : String

-- three readings of the clock: for the id, the request and the event
pub record RequestTimes : Type 0 where
  pub id : ℕ
  pub created : ℕ
  pub event : ℕ

abbrev pub new_request : RequestTimes → String → RemediationBody → RemediationRequest
new_request t node_id body = record {
  id = concat "rem-" (decimal t.id);
  node_id = node_id;
  actions = body.actions;
  dry_run = body.dry_run;
  status = "pending";
  created_at = t.created;
  completed_at = none;
  result = "";
}

abbrev is_empty : List String → Bool
is_empty [] = true
is_empty (_ ∷ _) = false

unfoldable pub handle_request_remediation :
    Driver → RequestTimes → String → String → Option RemediationBody → Handler
handle_request_remediation d t auth node_id body = as_admin auth (
    if str_eq node_id ""
    then refuse 400 "node id required"
    else calling (get_node d node_id) (λ e. refuse 404 "node not found")
        (λ known. decoding body "invalid request body" λ asked.
          if is_empty asked.actions
          then refuse 400 "actions list required"
          else let req = new_request t node_id asked in
            calling (create_remediation_request d req)
              (λ e. refuse 500 "failed to create remediation request")
              (λ u. λ fh.
                let (read, found) = get_node d node_id fh.db in
                reply 201 (requested req)
                  (emit_found "remediation_requested" found t.event (record fh { db = read })))))

-- the handlers behind the check of the API key
abbrev pub on_poll : Driver → String → Node → Handler
on_poll d node_id node =
    if str_eq node_id node.id
    then calling (get_pending_remediations d node_id)
        (λ e. refuse 500 "failed to get pending remediations") (λ reqs. reply 200 (pending reqs))
    else refuse 403 "node id mismatch"

abbrev complete_own : Driver → ℕ → ℕ → String → ResultBody → Node → RemediationRequest → Handler
complete_own d completed event node_id sent node req =
    if str_eq req.node_id node_id
    then calling (complete_remediation_request d sent.request_id completed sent.result)
        (λ e. refuse 500 "failed to complete remediation")
        (λ u. λ fh. reply 200 (done "completed") (emit "remediation_completed" node event fh))
    else refuse 403 "request does not belong to this node"

abbrev pub on_result : Driver → ℕ → ℕ → String → Option ResultBody → Node → Handler
on_result d completed event node_id body node =
    if str_eq node_id node.id
    then decoding body "invalid request body" (λ sent.
      calling (get_remediation_request d sent.request_id)
        (λ e. refuse 404 "remediation request not found")
        (complete_own d completed event node_id sent node))
    else refuse 403 "node id mismatch"

module _ (hash : String → String) where
  unfoldable pub handle_poll_remediations : Driver → String → String → Handler
  handle_poll_remediations d auth node_id = as_node hash d auth (on_poll d node_id)

  unfoldable pub handle_post_remediation_result :
      Driver → ℕ → ℕ → String → String → Option ResultBody → Handler
  handle_post_remediation_result d completed event auth node_id body =
      as_node hash d auth (on_result d completed event node_id body)

abbrev pub action : String → String → Bool → String → ChecklistItem → PlanAction
action id description auto_exec instructions item = record {
  id = id;
  description = description;
  auto_exec = auto_exec;
  instructions = instructions;
  failed_check = item.name;
}

-- the `switch` over the item's id
unfoldable pub plan_of : ChecklistItem → List PlanAction
plan_of item =
    if str_eq item.id "ag-fips"
    then action "enable_os_fips" "Enable OS FIPS mode" true item.remediation item ∷ []
    else if str_eq item.id "ag-warp"
    then (if contains item.remediation "not connected" || contains item.remediation "not running"
        then action "connect_warp" "Connect Cloudflare WARP" true "warp-cli connect" item ∷ []
        else action "install_warp" "Install Cloudflare WARP" true item.remediation item ∷ [])
    else if str_eq item.id "ag-disk"
    then action "enable_disk_encryption" "Enable full-disk encryption" false item.remediation item
      ∷ []
    else if str_eq item.id "ag-mdm"
    then action "enroll_mdm" "Enroll device in MDM" false item.remediation item ∷ []
    else []

unfoldable pub plan_items : List ChecklistItem → List PlanAction
unfolding plan_of
plan_items [] = []
plan_items (item ∷ items) =
    let rest = plan_items items in if is_pass item.status then rest else plan_of item ++ rest

pub plan_sections : List Section → List PlanAction
plan_sections [] = []
plan_sections (s ∷ sections) = plan_items s.items ++ plan_sections sections

unfoldable pub handle_get_remediation_plan : Driver → String → String → Handler
handle_get_remediation_plan d auth node_id = as_admin auth (
    if str_eq node_id ""
    then refuse 400 "node id required"
    else calling (get_latest_report d node_id) (λ e. refuse 404 "no compliance report found")
        (λ report. reply 200 (planned (plan_sections report.sections))))
