-- ===== src/Auth.antt =====
-- internal/dashboard/auth.go: the bearer-token middleware with its lockout of addresses that fail
-- too often. A method under the mutex is one step. Times are nanoseconds; each call takes its
-- readings of the clock as arguments. `next` is the handler behind the middleware: the outcome says
-- whether it is called.
pub mod Lockout
pub mod Access
pub mod Interleaving
mod Tests
use cloudflared_fips.Prelude.{
  ℕ, ◌+◌, ◌*◌, String, Bool, true, false, not, ◌||◌, ◌&&◌, List, [], ◌∷◌, Option, none, some, ltb,
  leb, str_eq, if◌then◌else◌,
}
use cloudflared_fips.Prelude.Assoc.{Assoc, lookup, insert, remove}
use cloudflared_fips.Prelude.Text.{
  has_prefix, trim_prefix, trim_space, split_first, before_last, concat,
}
use cloudflared_fips.Audit.{AuditEvent}

pub record FailedAuth : Type 0 where
  pub count : ℕ
  pub last_fail : ℕ

pub record AuthMiddleware : Type 0 where
  pub token : String
  pub audited : Bool  -- `auditLog != nil`
  pub fail_tracker : Assoc FailedAuth
  pub max_fails : ℕ
  pub lockout_dur : ℕ
  pub fail_window : ℕ

abbrev pub second : ℕ
second = 1000000000

abbrev pub minute : ℕ
minute = 60 * second

unfoldable pub new_auth_middleware : String → Bool → AuthMiddleware
new_auth_middleware token audited = record {
  token = token;
  audited = audited;
  fail_tracker = [];
  max_fails = 5;
  lockout_dur = 5 * minute;
  fail_window = 5 * minute;
}

enabled : AuthMiddleware → Bool
enabled am = not (str_eq am.token "")

-- `time.Since(t) > d`, read at `now`
abbrev pub since_exceeds : ℕ → ℕ → ℕ → Bool
since_exceeds now t d = ltb (t + d) now

unfoldable pub is_locked_out : ℕ → String → AuthMiddleware → AuthMiddleware × Bool
is_locked_out now ip am = elim (lookup ip am.fail_tracker) [
  | none ↦ (am, false)
  | some fa ↦
      if since_exceeds now fa.last_fail am.fail_window
      then (record am { fail_tracker = remove ip am.fail_tracker }, false)
      else (am, leb am.max_fails fa.count)
]

abbrev track : String → ℕ → ℕ → AuthMiddleware → AuthMiddleware
track ip count last am = record am {
  fail_tracker = insert ip (record { count = count; last_fail = last }) am.fail_tracker;
}

-- the reading of `time.Since`, then that of `time.Now`
pub record_failure : ℕ → ℕ → String → AuthMiddleware → AuthMiddleware
record_failure since now ip am = elim (lookup ip am.fail_tracker) [
  | none ↦ track ip 1 now am
  | some fa ↦
      if since_exceeds since fa.last_fail am.fail_window
      then track ip 1 now am
      else track ip (fa.count + 1) now am
]

pub clear_failures : String → AuthMiddleware → AuthMiddleware
clear_failures ip am = record am { fail_tracker = remove ip am.fail_tracker }

any_locked : ℕ → ℕ → ℕ → Assoc FailedAuth → Bool
any_locked now max window [] = false
any_locked now max window ((_, fa) ∷ rest) =
    leb max fa.count && ltb now (fa.last_fail + window) || any_locked now max window rest

has_lockouts : ℕ → AuthMiddleware → Bool
unfolding any_locked
has_lockouts now am = any_locked now am.max_fails am.fail_window am.fail_tracker

-- The header fields are empty texts where the request has none.
pub record Request : Type 0 where
  pub path : String
  pub forwarded_for : String
  pub remote_addr : String
  pub authorization : String

unfoldable pub extract_ip : Request → String
extract_ip r =
    if str_eq r.forwarded_for ""
    then elim (before_last b':' r.remote_addr) [ none ↦ r.remote_addr | some host ↦ host ]
    else trim_space (split_first b',' r.forwarded_for)

pub data Outcome : Type 0 where
  passed : Outcome
  rejected : ℕ → String → Outcome

-- the clock in `isLockedOut`, and the two readings in `recordFailure`
pub record Readings : Type 0 where
  pub check : ℕ
  pub since : ℕ
  pub now : ℕ

abbrev audit_entry : String → String → String → String → AuditEvent
audit_entry severity ip action detail = record {
  timestamp = "";
  event_type = "auth_attempt";
  severity = severity;
  actor = concat "api:" ip;
  resource = "";
  action = action;
  detail = detail;
  nist_ref = "AC-2, AC-3, AC-7";
}

-- `logAudit` of an `auth_attempt`
unfoldable pub log_audit : AuthMiddleware → String → String → String → String → List AuditEvent
log_audit am severity ip action detail =
    if am.audited then audit_entry severity ip action detail ∷ [] else []

-- `ServeHTTP` from "Validate token" on
check_token :
    Readings → String → Request → AuthMiddleware → AuthMiddleware × Outcome × List AuditEvent
check_token t ip r am =
    if str_eq r.authorization ""
    then (am, rejected 401 "authorization required", [])
    else if str_eq (trim_prefix r.authorization "Bearer ") am.token
    then (
      clear_failures ip am,
      passed,
      log_audit am "info" ip "login_success" (concat "Bearer token authenticated for " r.path),
    )
    else (
      record_failure t.since t.now ip am,
      rejected 403 "invalid token",
      log_audit am "warning" ip "login_failed" "Invalid bearer token",
    )

-- `ServeHTTP` from "Check lockout" on
serve_guarded :
    Readings → String → Request → AuthMiddleware → AuthMiddleware × Outcome × List AuditEvent
serve_guarded t ip r am =
    let (am', locked) = is_locked_out t.check ip am in
    if locked
    then (
      am',
      rejected 429 "too many failed attempts, try again later",
      log_audit am "warning" ip "lockout" "Request rejected: IP temporarily locked out (AC-7)",
    )
    else check_token t ip r am'

-- open mode, static assets and the health endpoint need no token
unfoldable pub is_public : String → Request → Bool
is_public token r =
    str_eq token "" || not (has_prefix r.path "/api/v1/") || str_eq r.path "/api/v1/health"

unfoldable pub serve_http :
    Readings → Request → AuthMiddleware → AuthMiddleware × Outcome × List AuditEvent
unfolding serve_guarded check_token
serve_http t r am =
    if is_public am.token r then (am, passed, []) else serve_guarded t (extract_ip r) r am
