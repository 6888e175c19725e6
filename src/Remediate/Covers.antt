-- ===== src/Remediate/Covers.antt =====
-- The `-remediate` mode of cmd/agent/main.go against its plan and its results.
use cloudflared_fips.Prelude.{
  ℕ, ◌≡◌, ◌↔◌, ◌≢◌, ◌⊎◌, inl, inr, refl, String, List, [], ◌∷◌, map, All, arith,
}
use cloudflared_fips.Remediate.{failed, RemediationAction, plan}
use cloudflared_fips.Compliance.{Section}
use cloudflared_fips.Remediate.Host.{Host}
use cloudflared_fips.Remediate.Execute.{
  execute, auto_actions, exit_code, local_request, execute_local, remediate_planned, remediate,
}
use cloudflared_fips.Remediate.Settled.{execute-answers}

exit_code-failed :
    (results : List RemediationAction)
    → (exit_code results ≡ 0) ↔ All (λ a. a.status ≢ failed) results
unfolding exit_code
exit_code-failed [] = (λ _. tt, λ _. refl)
exit_code-failed (a ∷ results) = ground (arith, exit_code-failed results)

execute_local-covers :
    (h : Host) (now : ℕ) (planned : List RemediationAction) (ids : List String)
    → planned ≢ []
    → let (code, results) = execute_local h now planned ids in
      (map (λ a. a.id) results ≡ ids)
      × ((code ≡ 0) ↔ All (λ a. a.status ≢ failed) results × ((planned ≡ []) ⊎ (ids ≢ [])))
execute_local-covers h now planned [] some_planned =
    (refl, (λ e. absurd (omega arith), λ p. ground arith))
execute_local-covers h now planned (id ∷ ids) some_planned =
    let results = (execute h now (local_request (id ∷ ids)) planned []).0.actions in
    let fine = exit_code-failed results in
    (
      (execute-answers h now (local_request (id ∷ ids)) planned []).0,
      (λ e. (fine.0 e, inr (λ empty. ground arith)), λ p. fine.1 p.0),
    )

remediate_planned-covers :
    (h : Host) (now : ℕ) (planned : List RemediationAction)
    → let (code, results) = remediate_planned h now planned in
      (map (λ a. a.id) results ≡ auto_actions planned)
      × ((code ≡ 0)
          ↔ All (λ a. a.status ≢ failed) results × ((planned ≡ []) ⊎ (auto_actions planned ≢ [])))
unfolding auto_actions
remediate_planned-covers h now [] = (refl, (λ _. (tt, inl refl), λ _. refl))
remediate_planned-covers h now (a ∷ planned) =
    execute_local-covers h now (a ∷ planned) (auto_actions (a ∷ planned)) (λ e. ground arith)

-- The `-remediate` mode answers the actions of its plan that may be executed, all of them and in
-- order, and ends with code 0 exactly where no result has failed and either there was nothing
-- to plan or something to execute.
remediate-covers :
    (h : Host) (now : ℕ) (section : Section)
    → let (code, results) = remediate h now section in
      let planned = plan h.goos section in
      (map (λ a. a.id) results ≡ auto_actions planned)
      × ((code ≡ 0)
          ↔ All (λ a. a.status ≢ failed) results × ((planned ≡ []) ⊎ (auto_actions planned ≢ [])))
unfolding remediate
remediate-covers h now section = remediate_planned-covers h now (plan h.goos section)
