-- ===== src/Remediate/Tests.antt =====
-- The theorems on pkg/fleet/remediate at a Debian host whose package lists cannot be updated.
use cloudflared_fips.Prelude.{
  ◌≡◌, refl, inl, inr, String, true, false, List, [], ◌∷◌, Option, none, some, str_eq, map,
  if◌then◌else◌, All, ◌⊎◌, arith, eq_iff,
}
use cloudflared_fips.Prelude.Assoc.{lookup, insert}
use cloudflared_fips.FleetApi.Remediation.{plan_items}
use cloudflared_fips.Compliance.{fail, warning, ChecklistItem, Section}
use cloudflared_fips.Compliance as C
use cloudflared_fips.Remediate.{
  RemediationAction, RemediationRequest, failed, skipped, manual_only, propose_for, propose_all,
}
use cloudflared_fips.Remediate.Host.{
  Command, Host, apt_commands, run_all, install_warp, install_warp_linux,
}
use cloudflared_fips.Remediate.Runs.{after, AllSucceed, Broke, run_all-stops}
use cloudflared_fips.Remediate.Execute.{
  action_map_of, execute, execute_loop, execute_one, perform, settle, run_action,
}
use cloudflared_fips.Remediate.Settled.{answer, is_auto, execute-answers, execute-idle}
use cloudflared_fips.Remediate.Agreement.{proposed, shown, plan-shown}

abbrev tools : String → Option String
tools name = if str_eq name "apt-get" then some "/usr/bin/apt-get" else none

abbrev outputs : Command → String × Option String
outputs c = if str_eq c.name "apt-get" then ("offline", some "exit status 100") else ("ok", none)

abbrev debian : Host
debian = record {
  goos = "linux";
  look_path = λ ran. tools;
  combined_output = λ ran. outputs;
  fips_enabled = λ ran. some "0\n";
}

abbrev check : String → C.Status → String → ChecklistItem
check id status remediation = record {
  id = id;
  name = id;
  status = status;
  severity = "high";
  verification_method = "direct";
  what = "";
  why = "";
  remediation = remediation;
  nist_ref = "";
}

abbrev checks : List ChecklistItem
checks =
    check "ag-fips" C.fail "Enable FIPS"
    ∷ check "ag-os" C.pass ""
    ∷ check "ag-disk" C.warning "Enable LUKS"
    ∷ check "ag-warp" C.warning "Install Cloudflare WARP: https://1.1.1.1"
    ∷ []

abbrev available : List RemediationAction
available = propose_all "linux" checks

abbrev section : Section
section = record { id = "agent"; name = "Endpoint"; description = ""; items = checks }

asking : List String → RemediationRequest
asking ids = record { id = "rem-1"; node_id = "n1"; actions = ids; dry_run = false }

-- the third command is the last one that runs
stopped : map (λ c. c.name) (run_all debian apt_commands "" []).1 ≡ "apt-get" ∷ "bash" ∷ "curl" ∷ []
unfolding run_all
stopped = refl

statuses :
    map
      (λ a. a.status)
      (execute debian 0
        (asking ("install_warp" ∷ "enroll_mdm" ∷ "enable_disk_encryption" ∷ []))
        available
        []).0.actions
    ≡ failed ∷ skipped ∷ manual_only ∷ []
unfolding asking execute execute_loop execute_one perform settle run_action action_map_of
    install_warp install_warp_linux run_all propose_all propose_for lookup insert
statuses = refl

run_all-stops_example :
    let (outcome, now) = run_all debian apt_commands "" [] in
    (AllSucceed debian apt_commands [] × (outcome.error ≡ none) × (now ≡ after apt_commands []))
    ⊎ Broke debian apt_commands [] outcome.error now
run_all-stops_example = run_all-stops debian apt_commands "" []

execute-answers_example :
    let results =
      (execute debian 7 (asking ("install_warp" ∷ "enroll_mdm" ∷ [])) available []).0.actions in
    (map (λ a. a.id) results ≡ "install_warp" ∷ "enroll_mdm" ∷ [])
    × All (λ a. answer false a.status ≡ true) results
unfolding asking
execute-answers_example =
    execute-answers debian 7 (asking ("install_warp" ∷ "enroll_mdm" ∷ [])) available []

execute-idle_example :
    (execute debian 7 (asking ("enroll_mdm" ∷ "enable_disk_encryption" ∷ [])) available []).1.ran
    ≡ []
unfolding asking is_auto action_map_of propose_all propose_for lookup insert
execute-idle_example =
    execute-idle debian 7 (asking ("enroll_mdm" ∷ "enable_disk_encryption" ∷ [])) available []
      (inr (refl, (refl, tt)))

plan-shown_example : map proposed available ≡ map shown (plan_items checks)
plan-shown_example = plan-shown "linux" checks (
  inl (λ e. ground (arith, e, eq_iff "ag-fips" "ag-warp")),
  (
    inl (λ e. ground (arith, e, eq_iff "ag-os" "ag-warp")),
    (inl (λ e. ground (arith, e, eq_iff "ag-disk" "ag-warp")), (inr (inl refl), tt)),
  ),
)
