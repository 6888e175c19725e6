-- ===== src/Fleet/Enrollment.antt =====
-- pkg/fleet/enrollment.go: enrolment tokens and the enrolment of nodes. SHA-256 with its hexadecimal
-- text is a parameter, `hash_token`; the random texts of `generateSecureToken` are arguments, `none`
-- where the source of randomness fails, and so are the readings of the clock.
pub mod Steps
pub mod Create
pub mod Limit
pub mod Race
use cloudflared_fips.Prelude.{
  ℕ, suc, ◌+◌, ◌-◌, ◌*◌, ◌%◌, ◌^◌, String, Bool, true, false, ◌&&◌, List, Option, none, some, ltb,
  leb, str_eq, if◌then◌else◌,
}
use cloudflared_fips.Prelude.Int.{ℤ, pos_part, is_positive}
use cloudflared_fips.Prelude.Text.{concat}
use cloudflared_fips.Fleet.Types.{
  EnrollmentToken, EnrollmentRequest, EnrollmentResponse, CreateTokenRequest, Node, online,
  role_client,
}
use cloudflared_fips.Fleet.Db.{Driver, Action, second, ◌>>=◌, ◌>>◌, pure, raise, wrapping, ignoring}
use cloudflared_fips.Fleet.Nodes.{create_node}
use cloudflared_fips.Fleet.Tokens
use cloudflared_fips.Fleet.Tokens.{get_token, increment_token_usage}

abbrev random : String → Option String → Action String
random what none = raise (concat what "entropy unavailable")
random what (some text) = pure text

abbrev guard : Bool → String → Action (Unit {0})
guard true e = raise e
guard false e = pure tt

-- `t.Add(time.Duration(sec) * time.Second)`: the product is an int64, and wraps.
unfoldable pub add_seconds : ℕ → ℕ → ℕ
add_seconds t sec =
    let d = sec * second % 2 ^ 64 in if ltb d (2 ^ 63) then t + d else t + d - 2 ^ 64

-- a number that is not positive is replaced
abbrev pub at_least_one : ℤ → ℕ → ℕ
at_least_one n default = if is_positive n then pos_part n else default

-- the two random texts, and the two readings of the clock
pub record TokenInput : Type 0 where
  pub raw : Option String
  pub id : Option String
  pub expires_from : ℕ
  pub created : ℕ

pub record EnrollInput : Type 0 where
  pub checked : ℕ
  pub node_id : Option String
  pub api_key : Option String
  pub now : ℕ

abbrev new_token : CreateTokenRequest → TokenInput → String → String → EnrollmentToken
new_token req input raw id = record {
  id = id;
  token = raw;
  role = req.role;
  region = req.region;
  expires_at = add_seconds input.expires_from (at_least_one req.expires_in 3600);
  max_uses = at_least_one req.max_uses 1;
  used_count = 0;
  created_at = input.created;
}

abbrev pub expired : ℕ → EnrollmentToken → Bool
expired now token = ltb token.expires_at now

abbrev pub used_up : EnrollmentToken → Bool
used_up token = ltb 0 token.max_uses && leb token.max_uses token.used_count

abbrev pub new_node : EnrollmentRequest → EnrollmentToken → String → ℕ → Node
new_node req token id now = record {
  id = id;
  name = req.name;
  role = token.role;
  region = if str_eq req.region "" then token.region else req.region;
  labels = req.labels;
  enrolled_at = now;
  last_heartbeat = now;
  status = online;
  version = req.version;
  fips_backend = req.fips_backend;
  compliance_pass = 0;
  compliance_fail = 0;
  compliance_warn = 0;
  compliance_status = "";
  service = none;
  grace_period_end = none;
}

abbrev pub interval_of : String → ℕ
interval_of role = if str_eq role role_client then 60 else 30

module _ (hash_token : String → String) where
  unfoldable pub create_token : Driver → TokenInput → CreateTokenRequest → Action EnrollmentToken
  create_token d input req = do
    guard (str_eq req.role "") "role is required"
    raw ← random "generate token: " input.raw
    id ← random "generate token id: " input.id
    let token = new_token req input raw id
    wrapping (concat "store token: ") (Tokens.create_token d token (hash_token raw))
    pure token

  -- `Enroll` up to the checks of the token
  unfoldable pub check_token : Driver → ℕ → EnrollmentRequest → Action EnrollmentToken
  check_token d checked req = do
    guard (str_eq req.token "") "enrollment token is required"
    guard (str_eq req.name "") "node name is required"
    token ← wrapping (λ e. "invalid enrollment token") (get_token d (hash_token req.token))
    guard (expired checked token) "enrollment token has expired"
    guard (used_up token) "enrollment token has reached max uses"
    pure token

  -- the rest of `Enroll`; a failure to count the use is dropped
  unfoldable pub admit :
      Driver → EnrollInput → EnrollmentRequest → EnrollmentToken → Action EnrollmentResponse
  admit d input req token = do
    id ← random "generate node id: " input.node_id
    key ← random "generate api key: " input.api_key
    wrapping (concat "create node: ")
        (create_node d (new_node req token id input.now) (hash_token key))
    ignoring (increment_token_usage d token.id)
    pure (record { node_id = id; api_key = key; report_interval = interval_of token.role })

  unfoldable pub enroll : Driver → EnrollInput → EnrollmentRequest → Action EnrollmentResponse
  unfolding check_token admit
  enroll d input req = do token ← check_token d input.checked req; admit d input req token
