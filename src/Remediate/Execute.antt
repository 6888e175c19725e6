-- ===== src/Remediate/Execute.antt =====
-- `Execute` of pkg/fleet/remediate/executor.go, and the agent's `-remediate` mode in
-- cmd/agent/main.go, which plans and executes in one go.
use cloudflared_fips.Prelude.{
  ℕ, String, Bool, true, false, List, [], ◌∷◌, none, some, str_eq, if◌then◌else◌,
}
use cloudflared_fips.Prelude.Assoc.{Assoc, lookup, insert}
use cloudflared_fips.Prelude.Text.{concat}
use cloudflared_fips.Compliance.{Section}
use cloudflared_fips.Remediate.{
  ActionStatus, pending, success, failed, needs_reboot, manual_only, skipped, RemediationAction,
  RemediationRequest, RemediationResult, plan,
}
use cloudflared_fips.Remediate.Host.{
  Command, Host, Outcome, Action, failing, enable_os_fips, install_warp, connect_warp,
}

-- `actionMap` holds pointers to the available actions: what a step writes through one is there when
-- the same id is asked for again. Of two actions with one id the later one is in the map.
pub record Executing : Type 0 where
  pub action_map : Assoc RemediationAction
  pub ran : List Command

unfoldable pub action_map_of :
    Assoc RemediationAction → List RemediationAction → Assoc RemediationAction
action_map_of m [] = m
action_map_of m (a ∷ available) = action_map_of (insert a.id a m) available

-- the `switch` over the id
unfoldable pub run_action : Host → String → Action
run_action h id ran =
    if str_eq id "enable_os_fips"
    then enable_os_fips h ran
    else if str_eq id "install_warp"
    then install_warp h ran
    else if str_eq id "connect_warp"
    then connect_warp h ran
    else failing (concat "no executor for action " id) ran

abbrev not_applicable : String → RemediationAction
not_applicable id = record {
  id = id;
  description = "";
  auto_exec = false;
  instructions = "";
  status = skipped;
  output = "action not applicable to current compliance state";
}

unfoldable pub settle : RemediationAction → Outcome → RemediationAction
settle action o = elim o.error [
  | none ↦ record action {
    status = if o.needs_reboot then needs_reboot else success;
    output = o.output;
  }
  | some e ↦ record action {
    status = failed;
    output = concat "error: " (concat e (concat "\n" o.output));
  }
]

-- the written action, and the commands that have been run
unfoldable pub perform :
    Host → Bool → String → RemediationAction → List Command → RemediationAction × List Command
perform h dry_run id action ran =
    if action.auto_exec
    then (if dry_run
        then (record action { status = pending; output = "dry run — would execute" }, ran)
        else let (o, now) = run_action h id ran in (settle action o, now))
    else (record action { status = manual_only }, ran)

-- the body of the loop over the requested ids
unfoldable pub execute_one : Host → Bool → String → Executing → RemediationAction × Executing
execute_one h dry_run id s = elim (lookup id s.action_map) [
  | none ↦ (not_applicable id, s)
  | some action ↦
      let (written, now) = perform h dry_run id action s.ran in
      (written, record { action_map = insert id written s.action_map; ran = now })
]

unfoldable pub execute_loop :
    Host → Bool → List String → Executing → List RemediationAction × Executing
execute_loop h dry_run [] s = ([], s)
execute_loop h dry_run (id ∷ ids) s =
    let (result, next) = execute_one h dry_run id s in
    let (results, end) = execute_loop h dry_run ids next in (result ∷ results, end)

-- The time at the end is an argument.
unfoldable pub execute :
    Host
    → ℕ
    → RemediationRequest
    → List RemediationAction
    → List Command
    → RemediationResult × Executing
execute h now req available ran =
    let start : Executing = record { action_map = action_map_of [] available; ran = ran } in
    let (results, end) = execute_loop h req.dry_run req.actions start in
    (
      record {
        request_id = req.id;
        node_id = req.node_id;
        actions = results;
        completed_at = now;
        dry_run = req.dry_run;
      },
      end,
    )

unfoldable pub auto_actions : List RemediationAction → List String
auto_actions [] = []
auto_actions (a ∷ actions) =
    let rest = auto_actions actions in if a.auto_exec then a.id ∷ rest else rest

abbrev is_failed : ActionStatus → Bool
is_failed failed = true
is_failed _ = false

unfoldable pub exit_code : List RemediationAction → ℕ
exit_code [] = 0
exit_code (a ∷ actions) = let rest = exit_code actions in if is_failed a.status then 1 else rest

abbrev pub local_request : List String → RemediationRequest
local_request ids = record {
  id = "local-remediate";
  node_id = "local";
  actions = ids;
  dry_run = false;
}

abbrev pub execute_local :
    Host → ℕ → List RemediationAction → List String → ℕ × List RemediationAction
execute_local h now planned [] = (1, [])
execute_local h now planned (id ∷ ids) =
    let result = (execute h now (local_request (id ∷ ids)) planned []).0 in
    (exit_code result.actions, result.actions)

-- The `-remediate` mode: the exit code, and the results that it prints.
abbrev pub remediate_planned : Host → ℕ → List RemediationAction → ℕ × List RemediationAction
remediate_planned h now [] = (0, [])
remediate_planned h now (a ∷ planned) =
    execute_local h now (a ∷ planned) (auto_actions (a ∷ planned))

unfoldable pub remediate : Host → ℕ → Section → ℕ × List RemediationAction
remediate h now section = remediate_planned h now (plan h.goos section)
