-- ===== src/Auth/Lockout.antt =====
-- The lockout of internal/dashboard/auth.go (AC-7): failed attempts within the window add up, the
-- last of them locks the address out, and the lock lasts until the window has passed.
use cloudflared_fips.Prelude.{
  ◌↔◌, ℕ, ◌+◌, ◌≤◌, ◌<◌, ◌≡◌, refl, String, false, List, [], ◌∷◌, none, some, arith, str_eq,
  eq_refl, length,
}
use cloudflared_fips.Prelude.Assoc.{lookup, lookup-insert}
use cloudflared_fips.Prelude.Text.{trim_prefix}
use cloudflared_fips.Auth.{
  AuthMiddleware, Request, Readings, Outcome, rejected, is_locked_out, record_failure, extract_ip,
  is_public, serve_http,
}

-- A request of an address to a guarded path with a header whose token is not the configured one.
pub record IsBadAttempt (token ip : String) (r : Request) : Type 0 where
  pub guarded : is_public token r ≡ false
  pub sender : extract_ip r ≡ ip
  pub present : str_eq r.authorization "" ≡ false
  pub wrong : str_eq (trim_prefix r.authorization "Bearer ") token ≡ false

-- What the middleware knows of an address, and its settings.
pub record Counted (token ip : String) (max window n last : ℕ) (am : AuthMiddleware) : Type 0 where
  pub token_kept : am.token ≡ token
  pub max_kept : am.max_fails ≡ max
  pub window_kept : am.fail_window ≡ window
  pub counted : lookup ip am.fail_tracker ≡ some (record { count = n; last_fail = last })

module _ (token ip : String) (max window : ℕ) where
  -- the first failure of an address that the tracker does not know
  first_failure :
      (am : AuthMiddleware) (t : Readings) (r : Request)
      → am.token ≡ token
      → am.max_fails ≡ max
      → am.fail_window ≡ window
      → lookup ip am.fail_tracker ≡ none
      → IsBadAttempt token ip r
      → Counted token ip max window 1 t.now (serve_http t r am).0
  unfolding serve_http record_failure is_locked_out
  first_failure am t r et em ew e bad = ground (
    arith,
    eq_refl ip,
    lookup-insert ip ip (record { count = 1; last_fail = t.now }) am.fail_tracker,
  )

  -- one more failure within the window
  next_failure :
      (am : AuthMiddleware) (t : Readings) (r : Request) (n last : ℕ)
      → Counted token ip max window n last am
      → IsBadAttempt token ip r
      → n < max
      → t.check ≤ last + window
      → t.since ≤ last + window
      → Counted token ip max window (n + 1) t.now (serve_http t r am).0
  unfolding serve_http record_failure is_locked_out
  next_failure am t r n last c bad room check since = ground (
    arith,
    eq_refl ip,
    lookup-insert ip ip (record { count = n + 1; last_fail = t.now }) am.fail_tracker,
  )

-- the requests served one after the other
pub serve_all : List (Readings × Request) → AuthMiddleware → AuthMiddleware
serve_all [] am = am
serve_all ((t, r) ∷ rest) am = serve_all rest (serve_http t r am).0

-- Bad attempts, each read within the window of the failure before it; `last` is the time of that.
abbrev Attempts : String → String → ℕ → ℕ → List (Readings × Request) → Type 0
Attempts token ip window last [] = Unit
Attempts token ip window last ((t, r) ∷ rest) =
    IsBadAttempt token ip r
    × (t.check ≤ last + window)
    × (t.since ≤ last + window)
    × Attempts token ip window t.now rest

abbrev last_time : ℕ → List (Readings × Request) → ℕ
last_time last [] = last
last_time last ((t, r) ∷ rest) = last_time t.now rest

module _ (token ip : String) (max window : ℕ) where
  serve_all-Counted :
      (rest : List (Readings × Request)) (am : AuthMiddleware) (n last : ℕ)
      → Counted token ip max window n last am
      → n + length rest ≤ max
      → Attempts token ip window last rest
      → Counted token ip max window (n + length rest) (last_time last rest) (serve_all rest am)
  unfolding serve_all
  serve_all-Counted [] am n last c fits a = record {
    token_kept = c.token_kept;
    max_kept = c.max_kept;
    window_kept = c.window_kept;
    counted = ground (arith, c.counted);
  }
  serve_all-Counted ((t, r) ∷ rest) am n last c fits a =
      let c' = next_failure token ip max window am t r n last c a.0 (omega arith) a.1 a.2 in
      let all = serve_all-Counted rest (serve_http t r am).0 (n + 1) t.now c' (omega arith) a.3 in
      record {
        token_kept = all.token_kept;
        max_kept = all.max_kept;
        window_kept = all.window_kept;
        counted = ground (arith, all.counted);
      }

-- the answer to a locked address
abbrev pub locked : Outcome
locked = rejected 429 "too many failed attempts, try again later"

-- An address with `max` counted failures is locked out exactly until the window has passed.
serve_http-Counted :
    (token ip : String) (max window last : ℕ) (am : AuthMiddleware) (t : Readings) (r : Request)
    → Counted token ip max window max last am
    → is_public token r ≡ false
    → extract_ip r ≡ ip
    → ((serve_http t r am).1 ≡ locked) ↔ (t.check ≤ last + window)
unfolding serve_http is_locked_out
serve_http-Counted token ip max window last am t r c guarded sender =
    (λ e. ground arith, λ h. ground arith)

-- An address that the tracker does not know, and that sends as many bad attempts as are allowed,
-- each within the window of the one before, is locked out: a further request of the address to a
-- guarded path, with whatever token, is answered 429 exactly as long as the window of the last
-- failure lasts.
pub serve_all-locked :
    (am : AuthMiddleware) (ip : String) (t₀ : Readings) (r₀ : Request)
    (rest : List (Readings × Request)) (t : Readings) (r : Request)
    → lookup ip am.fail_tracker ≡ none
    → IsBadAttempt am.token ip r₀
    → Attempts am.token ip am.fail_window t₀.now rest
    → 1 + length rest ≡ am.max_fails
    → is_public am.token r ≡ false
    → extract_ip r ≡ ip
    → let am' = serve_all ((t₀, r₀) ∷ rest) am in
      let end = last_time t₀.now rest + am.fail_window in
      ((serve_http t r am').1 ≡ locked) ↔ (t.check ≤ end)
unfolding serve_all
serve_all-locked am ip t₀ r₀ rest t r unknown bad attempts many guarded sender =
    let token = am.token in
    let max = am.max_fails in
    let window = am.fail_window in
    let c₁ = first_failure token ip max window am t₀ r₀ refl refl refl unknown bad in
    let c =
      serve_all-Counted token ip max window rest (serve_http t₀ r₀ am).0 1 t₀.now c₁ (omega arith)
        attempts in
    serve_http-Counted token ip max window (last_time t₀.now rest)
      (serve_all rest (serve_http t₀ r₀ am).0) t r (rw many at c) guarded sender
