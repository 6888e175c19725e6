-- ===== src/Remediate/Agreement.antt =====
-- The plan that the agent makes in pkg/fleet/remediate/executor.go against the plan that
-- internal/dashboard/fleet_handler.go shows the administrator.
use cloudflared_fips.Prelude.{
  ◌≡◌, ◌≢◌, ◌⊎◌, inl, inr, refl, ap, ◌∙◌, String, Bool, true, false, ◌||◌, List, [], ◌∷◌, ◌++◌, map,
  All, Bool-cases, str_eq, str_eq-ne, arith,
}
use cloudflared_fips.Prelude.Text.{contains, has_prefix}
use cloudflared_fips.Compliance.{ChecklistItem, is_pass}
use cloudflared_fips.FleetApi.{PlanAction}
use cloudflared_fips.FleetApi.Remediation.{plan_of, plan_items}
use cloudflared_fips.Remediate.{RemediationAction, is_auto_remediable, propose_for, propose_all}

abbrev install_text : String
install_text = "Install Cloudflare WARP: https://1.1.1.1"

abbrev connect_text : String
connect_text = "WARP installed but not connected"

abbrev start_text : String
start_text = "WARP found but not on PATH or not running"

-- a check of WARP has one of the three texts of `checkWARPInstalled`
abbrev AgentText : ChecklistItem → Type 0
AgentText item =
    (item.id ≢ "ag-warp")
    ⊎ (item.remediation ≡ install_text)
    ⊎ (item.remediation ≡ connect_text)
    ⊎ (item.remediation ≡ start_text)

abbrev pub shown : PlanAction → String × Bool
shown a = (a.id, a.auto_exec)

abbrev pub proposed : RemediationAction → String × Bool
proposed a = (a.id, a.auto_exec)

connect_contains : contains connect_text "not connected" ≡ true
unfolding contains has_prefix
connect_contains = refl

start_contains : contains start_text "not running" ≡ true
unfolding contains has_prefix
start_contains = refl

install_contains :
    (contains install_text "not connected" ≡ false) × (contains install_text "not running" ≡ false)
unfolding contains has_prefix
install_contains = (refl, refl)

install_equal :
    (str_eq install_text connect_text ≡ false) × (str_eq install_text start_text ≡ false)
install_equal = (refl, refl)

propose_for-shown :
    (goos : String) (item : ChecklistItem)
    → AgentText item
    → map proposed (propose_for goos item) ≡ map shown (plan_of item)
unfolding propose_for plan_of
propose_for-shown goos item (inl other) = ground (arith, str_eq-ne item.id "ag-warp" other)
propose_for-shown goos item (inr (inl e)) =
    let a = ap (λ r. contains r "not connected") e ∙ install_contains.0 in
    let b = ap (λ r. contains r "not running") e ∙ install_contains.1 in
    let c = ap (λ r. str_eq r connect_text) e ∙ install_equal.0 in
    let d = ap (λ r. str_eq r start_text) e ∙ install_equal.1 in ground (arith, a, b, c, d)
propose_for-shown goos item (inr (inr (inl e))) =
    let a = ap (λ r. contains r "not connected") e ∙ connect_contains in
    let b = ap (λ r. str_eq r connect_text) e in ground (arith, a, b)
propose_for-shown goos item (inr (inr (inr e))) =
    let a = ap (λ r. contains r "not running") e ∙ start_contains in
    let b = ap (λ r. str_eq r start_text) e in ground (arith, a, b)

module _ {ℓ} {A B : Type ℓ} where
  map-append : (f : A → B) (xs ys : List A) → map f (xs ++ ys) ≡ map f xs ++ map f ys
  map-append f [] ys = refl
  map-append f (x ∷ xs) ys = ap (◌∷◌ (f x)) (map-append f xs ys)

-- The agent and the server make the same plan from one section: where the text of every check of
-- WARP is one that the agent writes, both list the same actions in the same order and agree on
-- which may be executed, although the agent compares the text and the server searches it.
pub plan-shown :
    (goos : String) (items : List ChecklistItem)
    → All AgentText items
    → map proposed (propose_all goos items) ≡ map shown (plan_items items)
unfolding propose_all plan_items
plan-shown goos [] texts = refl
plan-shown goos (item ∷ items) (text, texts) = elim (Bool-cases (is_pass item.status)) [
  | inl e ↦ rw (propose_all, plan_items, e) (plan-shown goos items texts)
  | inr e ↦
      rw (propose_all, plan_items, e)
        (rw
          (
            map-append proposed (propose_for goos item) (propose_all goos items),
            map-append shown (plan_of item) (plan_items items),
            propose_for-shown goos item text,
            plan-shown goos items texts,
          )
          refl)
]

abbrev has_executor : String → Bool
has_executor id = str_eq id "enable_os_fips" || str_eq id "install_warp" || str_eq id "connect_warp"

abbrev pub Executable : RemediationAction → Type 0
Executable a = (a.auto_exec ≡ is_auto_remediable a.id) × (a.auto_exec ≡ has_executor a.id)

propose_for-Executable :
    (goos : String) (item : ChecklistItem) → All Executable (propose_for goos item)
unfolding propose_for is_auto_remediable
propose_for-Executable goos item = ground arith

All-append : {A : Type 0} (P : A → Type 0) (xs ys : List A) → All P xs → All P ys → All P (xs ++ ys)
All-append P [] ys _ all = all
All-append P (x ∷ xs) ys (p, ps) all = (p, All-append P xs ys ps all)

-- What the agent proposes it also carries out: every action of a plan is to be executed exactly
-- where `IsAutoRemediable` says so, and then it is one of the three that `Execute` has a case for.
plan-Executable :
    (goos : String) (items : List ChecklistItem) → All Executable (propose_all goos items)
unfolding propose_all
plan-Executable goos [] = tt
plan-Executable goos (item ∷ items) =
    let rest = plan-Executable goos items in
    elim (Bool-cases (is_pass item.status)) [
      | inl e ↦ rw (propose_all, e) rest
      | inr e ↦
          rw (propose_all, e)
            (All-append Executable (propose_for goos item) (propose_all goos items)
              (propose_for-Executable goos item) rest)
    ]
