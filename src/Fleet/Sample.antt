-- ===== src/Fleet/Sample.antt =====
-- A small fleet for the tests of pkg/fleet and internal/dashboard/fleet_handler.go: two servers, one of
-- them silent, and a token with one use left.
use cloudflared_fips.Prelude.{ℕ, ◌*◌, String, false, true, [], ◌∷◌, none, some}
use cloudflared_fips.Prelude.Text.{concat}
use cloudflared_fips.Prelude.Int.{pos}
use cloudflared_fips.Fleet.Types.{EnrollmentRequest, CreateTokenRequest}
use cloudflared_fips.Fleet.Db.{Db, Driver, NodeRow, TokenRow, second}
use cloudflared_fips.Fleet.Enrollment.{TokenInput, EnrollInput}

abbrev pub hash : String → String
hash s = concat "h:" s

abbrev pub driver : Driver
driver = record { fails = λ s. false; foreign_keys = true }

abbrev pub row : String → String → ℕ → NodeRow
row id status heartbeat = record {
  id = id;
  name = concat "node " id;
  role = "server";
  region = "eu";
  labels = [];
  enrolled_at = 1;
  last_heartbeat = heartbeat;
  status = status;
  version = "1";
  fips_backend = "boringcrypto";
  api_key_hash = concat "h:key " id;
  compliance_pass = 0;
  compliance_fail = 0;
  compliance_warn = 0;
  compliance_status = "compliant";
  service_json = none;
  grace_period_end = none;
}

abbrev pub token : TokenRow
token = record {
  id = "t1";
  token_hash = "h:raw";
  role = "client";
  region = "us";
  expires_at = 1000;
  max_uses = 2;
  used_count = 1;
  created_at = 1;
}

abbrev pub sample : Db
sample = record {
  nodes = row "a" "online" 900 ∷ row "b" "degraded" 500 ∷ [];
  tokens = token ∷ [];
  reports = [];
  remediations = [];
}

abbrev pub asking : String → EnrollmentRequest
asking raw = record {
  token = raw;
  name = "c";
  region = "";
  labels = [];
  version = "1";
  fips_backend = "boringcrypto";
  service = none;
}

abbrev pub drawn : String → EnrollInput
drawn id = record {
  checked = 900 * second;
  node_id = some id;
  api_key = some (concat "key " id);
  now = 901 * second;
}

abbrev pub wanted : CreateTokenRequest
wanted = record { role = "server"; region = "eu"; max_uses = pos 3; expires_in = pos 60 }

abbrev pub fresh : TokenInput
fresh = record {
  raw = some "new";
  id = some "t2";
  expires_from = 890 * second;
  created = 891 * second;
}
