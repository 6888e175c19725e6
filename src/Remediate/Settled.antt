-- ===== src/Remediate/Settled.antt =====
-- What `Execute` of pkg/fleet/remediate/executor.go answers: a result for every requested action, and
-- which actions run commands.
use cloudflared_fips.Prelude.{
  ℕ, ◌≡◌, ◌⊎◌, inl, inr, refl, ◌∙◌, String, Bool, true, false, List, [], ◌∷◌, map, none, some,
  Option-cases, All, arith, eq_iff,
}
use cloudflared_fips.Prelude.Assoc.{Assoc, lookup, insert, lookup-empty, lookup-insert}
use cloudflared_fips.Remediate.{
  ActionStatus, pending, success, failed, needs_reboot, manual_only, skipped, RemediationAction,
  RemediationRequest,
}
use cloudflared_fips.Remediate.Host.{Command, Host}
use cloudflared_fips.Remediate.Execute.{
  Executing, action_map_of, settle, perform, execute_one, execute_loop, execute,
}

-- every action of the map stands under its own id
IsKeyed : Assoc RemediationAction → Type 0
IsKeyed m = (k : String) (a : RemediationAction) → lookup k m ≡ some a → a.id ≡ k

insert-IsKeyed :
    (a : RemediationAction) (k : String) (m : Assoc RemediationAction)
    → IsKeyed m
    → a.id ≡ k
    → IsKeyed (insert k a m)
unfolding IsKeyed
insert-IsKeyed a k m keyed same j b h = ground (arith, lookup-insert k j a m, eq_iff k j, keyed j b)

action_map_of-IsKeyed :
    (available : List RemediationAction) (m : Assoc RemediationAction)
    → IsKeyed m
    → IsKeyed (action_map_of m available)
unfolding action_map_of
action_map_of-IsKeyed [] m keyed = keyed
action_map_of-IsKeyed (a ∷ available) m keyed =
    action_map_of-IsKeyed available (insert a.id a m) (insert-IsKeyed a a.id m keyed refl)

-- the statuses that a result may have
pub answer : Bool → ActionStatus → Bool
answer true pending = true
answer false success = true
answer false failed = true
answer false needs_reboot = true
answer _ manual_only = true
answer _ skipped = true
answer _ _ = false

perform-id :
    (h : Host) (dry_run : Bool) (id : String) (a : RemediationAction) (ran : List Command)
    → (perform h dry_run id a ran).0.id ≡ a.id
unfolding perform settle
perform-id h dry_run id a ran = ground arith

perform-auto_exec :
    (h : Host) (dry_run : Bool) (id : String) (a : RemediationAction) (ran : List Command)
    → (perform h dry_run id a ran).0.auto_exec ≡ a.auto_exec
unfolding perform settle
perform-auto_exec h dry_run id a ran = ground arith

perform-answer :
    (h : Host) (dry_run : Bool) (id : String) (a : RemediationAction) (ran : List Command)
    → answer dry_run (perform h dry_run id a ran).0.status ≡ true
unfolding perform settle answer
perform-answer h dry_run id a ran = ground arith

skipped-answer : (dry_run : Bool) → answer dry_run skipped ≡ true
unfolding answer
skipped-answer true = refl
skipped-answer false = refl

module _ (h : Host) (dry_run : Bool) where
  execute_one-id :
      (id : String) (s : Executing)
      → IsKeyed s.action_map
      → ((execute_one h dry_run id s).0.id ≡ id)
        × (answer dry_run (execute_one h dry_run id s).0.status ≡ true)
        × IsKeyed (execute_one h dry_run id s).1.action_map
  unfolding execute_one IsKeyed
  execute_one-id id s keyed = elim (Option-cases (lookup id s.action_map)) [
    | inl e ↦ rw (execute_one, e) (refl, skipped-answer dry_run, keyed)
    | inr (a, e) ↦
        let same = perform-id h dry_run id a s.ran ∙ keyed id a e in
        rw (execute_one, e)
          (
            same,
            perform-answer h dry_run id a s.ran,
            insert-IsKeyed (perform h dry_run id a s.ran).0 id s.action_map keyed same,
          )
  ]

  execute_loop-ids :
      (ids : List String) (s : Executing)
      → IsKeyed s.action_map
      → let results = (execute_loop h dry_run ids s).0 in
        (map (λ a. a.id) results ≡ ids) × All (λ a. answer dry_run a.status ≡ true) results
  unfolding execute_loop
  execute_loop-ids [] s keyed = (refl, tt)
  execute_loop-ids (id ∷ ids) s keyed =
      let (same, answered, kept) = execute_one-id id s keyed in
      let (rest, all) = execute_loop-ids ids (execute_one h dry_run id s).1 kept in
      (ground (arith, same, rest), (answered, all))

-- `Execute` answers every requested action, in the order of the request: the ids of the results are
-- the requested ids, and no result is left open. In a dry run each is pending, manual-only or
-- skipped; otherwise each has succeeded, failed, needs a reboot, or is manual-only or skipped.
pub execute-answers :
    (h : Host) (now : ℕ) (req : RemediationRequest) (available : List RemediationAction)
    (ran : List Command)
    → let results = (execute h now req available ran).0.actions in
      (map (λ a. a.id) results ≡ req.actions)
      × All (λ a. answer req.dry_run a.status ≡ true) results
unfolding execute IsKeyed
execute-answers h now req available ran =
    execute_loop-ids h req.dry_run req.actions
      (record { action_map = action_map_of [] available; ran = ran })
      (action_map_of-IsKeyed available []
        (λ k a e. ground (arith, lookup-empty {V = RemediationAction} k)))

-- whether the map has an action of this id that may be executed
unfoldable pub is_auto : Assoc RemediationAction → String → Bool
is_auto m id = elim (lookup id m) [ none ↦ false | some a ↦ a.auto_exec ]

manual_everywhere :
    (ids : List String) (m n : Assoc RemediationAction)
    → ((id : String) → is_auto n id ≡ is_auto m id)
    → All (λ id. is_auto m id ≡ false) ids
    → All (λ id. is_auto n id ≡ false) ids
manual_everywhere [] m n same all = tt
manual_everywhere (id ∷ ids) m n same (manual, all) =
    (same id ∙ manual, manual_everywhere ids m n same all)

module _ (h : Host) (dry_run : Bool) where
  execute_one-auto :
      (id other : String) (s : Executing)
      → is_auto (execute_one h dry_run id s).1.action_map other ≡ is_auto s.action_map other
  unfolding execute_one is_auto
  execute_one-auto id other s = elim (Option-cases (lookup id s.action_map)) [
    | inl e ↦ rw (execute_one, e) refl
    | inr (a, e) ↦
        let w = (perform h dry_run id a s.ran).0 in
        ground (
          arith,
          e,
          eq_iff id other,
          lookup-insert id other w s.action_map,
          perform-auto_exec h dry_run id a s.ran,
        )
  ]

  execute_one-idle :
      (id : String) (s : Executing)
      → (dry_run ≡ true) ⊎ (is_auto s.action_map id ≡ false)
      → (execute_one h dry_run id s).1.ran ≡ s.ran
  unfolding execute_one is_auto perform
  execute_one-idle id s idle = ground arith

  execute_loop-idle_dry :
      (ids : List String) (s : Executing)
      → dry_run ≡ true
      → (execute_loop h dry_run ids s).1.ran ≡ s.ran
  unfolding execute_loop
  execute_loop-idle_dry [] s dry = refl
  execute_loop-idle_dry (id ∷ ids) s dry =
      execute_loop-idle_dry ids (execute_one h dry_run id s).1 dry ∙ execute_one-idle id s (inl dry)

  execute_loop-idle_manual :
      (ids : List String) (s : Executing)
      → All (λ id. is_auto s.action_map id ≡ false) ids
      → (execute_loop h dry_run ids s).1.ran ≡ s.ran
  unfolding execute_loop
  execute_loop-idle_manual [] s all = refl
  execute_loop-idle_manual (id ∷ ids) s (manual, all) =
      let next = (execute_one h dry_run id s).1 in
      execute_loop-idle_manual ids next (
        manual_everywhere ids s.action_map next.action_map (λ other. execute_one-auto id other s)
          all)
      ∙ execute_one-idle id s (inr manual)

-- `Execute` runs no command on the host where the request is a dry run, and none where every
-- requested id is absent from the available actions or belongs to an action that is not to be
-- executed automatically.
pub execute-idle :
    (h : Host) (now : ℕ) (req : RemediationRequest) (available : List RemediationAction)
    (ran : List Command)
    → (req.dry_run ≡ true) ⊎ All (λ id. is_auto (action_map_of [] available) id ≡ false) req.actions
    → (execute h now req available ran).1.ran ≡ ran
unfolding execute
execute-idle h now req available ran (inl dry) =
    execute_loop-idle_dry h req.dry_run req.actions
      (record { action_map = action_map_of [] available; ran = ran }) dry
execute-idle h now req available ran (inr manual) =
    execute_loop-idle_manual h req.dry_run req.actions
      (record { action_map = action_map_of [] available; ran = ran }) manual
