-- ===== src/Auth/Interleaving.antt =====
-- Concurrent requests of one address through internal/dashboard/auth.go. `ServeHTTP` takes the mutex
-- in `isLockedOut` and again in `recordFailure`, so other requests run between the two: each of
-- these is one step here. At most `slots` requests are between their two steps at a time.
use cloudflared_fips.Prelude.{
  ℕ, ◌+◌, ◌-◌, ◌≤◌, ◌<◌, ◌≡◌, refl, String, Bool, false, List, [], ◌∷◌, Option, none, some, arith,
  ltb, if◌then◌else◌, Bool-cases, Option-cases, inl, inr,
}
use cloudflared_fips.Prelude.Assoc.{lookup, lookup-empty, lookup-insert_self, lookup-remove_self}
use cloudflared_fips.Auth.{
  FailedAuth, AuthMiddleware, since_exceeds, is_locked_out, record_failure, new_auth_middleware,
}

-- the middleware, and how many requests with a wrong token have passed the lockout check and not
-- yet recorded their failure
pub record Flight : Type 0 where
  pub am : AuthMiddleware
  pub waiting : ℕ

pub data Move : Type 0 where
  enter : ℕ → Move  -- `isLockedOut`, at a reading of the clock
  finish : ℕ → ℕ → Move  -- `recordFailure`, at its two readings

abbrev count_of : Option FailedAuth → ℕ
count_of none = 0
count_of (some fa) = fa.count

-- what the tracker counts of the address
abbrev pub failures : String → AuthMiddleware → ℕ
failures ip am = count_of (lookup ip am.fail_tracker)

module _ (ip : String) (slots : ℕ) where
  pub step : Flight → Move → Flight
  step s (enter t) =
      let (am', refused) = is_locked_out t ip s.am in
      if ltb s.waiting slots
      then record { am = am'; waiting = if refused then s.waiting else s.waiting + 1 }
      else s
  step s (finish since now) =
      if ltb 0 s.waiting
      then record { am = record_failure since now ip s.am; waiting = s.waiting - 1 }
      else s

  pub run : Flight → List Move → Flight
  run s [] = s
  run s (m ∷ ms) = run (step s m) ms

  record_failure-failures :
      (since now : ℕ) (am : AuthMiddleware)
      → failures ip (record_failure since now ip am) ≤ failures ip am + 1
  unfolding record_failure
  record_failure-failures since now am = elim (Option-cases (lookup ip am.fail_tracker)) [
    | inl e ↦ rw (e, record_failure, lookup-insert_self) (omega arith)
    | inr (fa, e) ↦ elim (Bool-cases (since_exceeds since fa.last_fail am.fail_window)) [
      | inl old ↦ rw (e, record_failure, old, lookup-insert_self) (omega arith)
      | inr new ↦ rw (e, record_failure, new, lookup-insert_self) (omega arith)
    ]
  ]

  is_locked_out-failures :
      (now : ℕ) (am : AuthMiddleware)
      → 0 < am.max_fails
      → (failures ip (is_locked_out now ip am).0 ≤ failures ip am)
        × ((is_locked_out now ip am).1 ≡ false
            → failures ip (is_locked_out now ip am).0 < am.max_fails)
  unfolding is_locked_out
  is_locked_out-failures now am pos = (
    ground (arith, lookup-remove_self ip am.fail_tracker),
    λ e. ground (arith, lookup-remove_self ip am.fail_tracker),
  )

  kept :
      (since now t : ℕ) (am : AuthMiddleware)
      → ((record_failure since now ip am).max_fails ≡ am.max_fails)
        × ((is_locked_out t ip am).0.max_fails ≡ am.max_fails)
  unfolding record_failure is_locked_out
  kept since now t am = ground arith

  record IsBounded (max : ℕ) (s : Flight) : Type 0 where
    limit : s.am.max_fails ≡ max
    bound : failures ip s.am + s.waiting < max + slots

  step-IsBounded :
      (max : ℕ) (s : Flight) (m : Move) → 0 < max → IsBounded max s → IsBounded max (step s m)
  unfolding step
  step-IsBounded max s (enter t) pos inv =
      ground (arith, kept t t t s.am, is_locked_out-failures t s.am (omega arith))
  step-IsBounded max s (finish since now) pos inv =
      ground (arith, kept since now now s.am, record_failure-failures since now s.am)

  run-IsBounded :
      (max : ℕ) (s : Flight) (ms : List Move) → 0 < max → IsBounded max s → IsBounded max (run s ms)
  unfolding run
  run-IsBounded max s [] pos inv = inv
  run-IsBounded max s (m ∷ ms) pos inv =
      run-IsBounded max (step s m) ms pos (step-IsBounded max s m pos inv)

-- However the lockout checks and the recorded failures of concurrent requests of one address
-- interleave, and whatever the clock reads, the failures counted for the address and the requests
-- that have passed the check are together fewer than the limit of 5 and the `slots` requests that
-- can be in between; one request at a time is counted to 5 at most.
pub run-failures :
    (ip token : String) (audited : Bool) (slots : ℕ) (ms : List Move)
    → 0 < slots
    → let s = run ip slots (record { am = new_auth_middleware token audited; waiting = 0 }) ms in
      failures ip s.am + s.waiting < 5 + slots
unfolding new_auth_middleware
run-failures ip token audited slots ms pos =
    (run-IsBounded ip slots 5 (record { am = new_auth_middleware token audited; waiting = 0 }) ms
      (omega arith) (record { limit = refl; bound = rw lookup-empty (omega arith) })).bound
