-- ===== src/Auth/Tests.antt =====
-- The theorems on internal/dashboard/auth.go at requests of one or two addresses.
use cloudflared_fips.Prelude.{
  ℕ, ◌+◌, ◌*◌, ◌<◌, ◌≤◌, ◌≡◌, ◌↔◌, refl, String, true, false, List, [], ◌∷◌, none, arith, eq_iff,
}
use cloudflared_fips.Prelude.Text.{has_prefix, trim_prefix, before_last}
use cloudflared_fips.Prelude.Assoc.{lookup, lookup-empty}
use cloudflared_fips.Auth.{
  AuthMiddleware, Request, Readings, new_auth_middleware, extract_ip, is_public, is_locked_out,
  serve_http, minute,
}
use cloudflared_fips.Auth.Lockout.{IsBadAttempt, serve_all, locked, serve_all-locked}
use cloudflared_fips.Auth.Access.{serve_http-passed, serve_http-other}
use cloudflared_fips.Auth.Interleaving.{Move, enter, finish, run, failures, run-failures}

abbrev middleware : AuthMiddleware
unfolding new_auth_middleware
middleware = new_auth_middleware "secret" true

abbrev request : String → Request
request authorization = record {
  path = "/api/v1/compliance";
  forwarded_for = "";
  remote_addr = "10.0.0.1:4711";
  authorization = authorization;
}

abbrev reading : ℕ → Readings
reading t = record { check = t; since = t; now = t }

abbrev bad : ℕ → Readings × Request
bad t = (reading t, request "Bearer guess")

request-IsBadAttempt : IsBadAttempt "secret" "10.0.0.1" (request "Bearer guess")
unfolding is_public has_prefix extract_ip before_last trim_prefix
request-IsBadAttempt = record { guarded = refl; sender = refl; present = refl; wrong = refl }

serve_all-locked_example :
    ((serve_http
        (reading 6)
        (request "Bearer secret")
        (serve_all (bad 1 ∷ bad 2 ∷ bad 3 ∷ bad 4 ∷ bad 5 ∷ []) middleware)).1
      ≡ locked)
    ↔ (6 ≤ 5 + 5 * minute)
unfolding is_public has_prefix extract_ip before_last middleware new_auth_middleware
serve_all-locked_example =
    let b = request-IsBadAttempt in
    serve_all-locked middleware "10.0.0.1" (reading 1) (request "Bearer guess")
      (bad 2 ∷ bad 3 ∷ bad 4 ∷ bad 5 ∷ []) (reading 6) (request "Bearer secret")
      (lookup-empty "10.0.0.1") b
      (
        b,
        omega arith,
        omega arith,
        (
          b,
          omega arith,
          omega arith,
          (b, omega arith, omega arith, (b, omega arith, omega arith, tt)),
        ),
      )
      refl refl refl

serve_http-passed_example :
    (trim_prefix "Bearer secret" "Bearer " ≡ "secret")
    × ((is_locked_out 1 (extract_ip (request "Bearer secret")) middleware).1 ≡ false)
    × (lookup
          (extract_ip (request "Bearer secret"))
          (serve_http (reading 1) (request "Bearer secret") middleware).0.fail_tracker
        ≡ none)
unfolding is_public has_prefix trim_prefix extract_ip before_last serve_http is_locked_out lookup
    middleware new_auth_middleware
serve_http-passed_example =
    serve_http-passed (reading 1) (request "Bearer secret") middleware refl refl

serve_http-other_example :
    lookup "10.0.0.2" (serve_http (reading 1) (request "Bearer guess") middleware).0.fail_tracker
    ≡ lookup "10.0.0.2" middleware.fail_tracker
unfolding extract_ip before_last
serve_http-other_example =
    serve_http-other (reading 1) (request "Bearer guess") middleware "10.0.0.2"
      (λ e. absurd (ground (arith, e, eq_iff "10.0.0.1" "10.0.0.2")))

-- Two requests pass the check while four failures are counted, and both are counted then.
abbrev moves : List Move
moves =
    enter 1
    ∷ finish 1 1
    ∷ enter 2
    ∷ finish 2 2
    ∷ enter 3
    ∷ finish 3 3
    ∷ enter 4
    ∷ finish 4 4
    ∷ enter 5
    ∷ enter 5
    ∷ finish 5 5
    ∷ finish 5 5
    ∷ []

run-failures_example :
    failures "10.0.0.1" (run "10.0.0.1" 2 (record { am = middleware; waiting = 0 }) moves).am
      + (run "10.0.0.1" 2 (record { am = middleware; waiting = 0 }) moves).waiting
    < 5 + 2
unfolding middleware
run-failures_example = run-failures "10.0.0.1" "secret" true 2 moves (omega arith)
