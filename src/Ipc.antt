-- ===== src/Ipc.antt =====
-- internal/ipc/ipc.go: the requests of local processes, one JSON object to a line, and the responses.
pub mod Lines
mod Tests
use cloudflared_fips.Prelude.{
  ℕ, ◌*◌, leb, String, Bool, true, false, List, [], ◌∷◌, Option, none, some, str_eq, if◌then◌else◌,
}
use cloudflared_fips.Prelude.Int.{ℤ, pos}
use cloudflared_fips.Prelude.Results.{Result, ok, err}
use cloudflared_fips.Prelude.Text.{concat}
use cloudflared_fips.Compliance.{Checker, ComplianceReport, generate_report}
use cloudflared_fips.FipsBackend.{Info, detect_info}
use cloudflared_fips.FipsBackend.Migration.{MigrationStatus, get_migration_status}
use cloudflared_fips.SelfTest.Checks.{Host}
use cloudflared_fips.SelfTest.Reports.{SelfTestReport}
use cloudflared_fips.SelfTest.Reports as SelfTest
use cloudflared_fips.Live.{Manifest}

pub record Request : Type 0 where
  pub method : String
  pub id : ℤ

-- what a response may carry
pub data Answer : Type 0 where
  status_report : ComplianceReport → Answer
  self_test_report : SelfTestReport → Answer
  manifest : Manifest → Answer
  backend : Info → Answer
  migration : MigrationStatus → Answer
  pong : String → Answer

pub record Response : Type 0 where
  pub id : ℤ
  pub result : Option Answer
  pub error : Option String

pub record Server : Type 0 where
  pub socket_path : String
  pub checker : Checker
  pub manifest_path : String

abbrev pub new_server : String → Checker → String → Server
new_server socket_path checker manifest_path = record {
  socket_path =
      if str_eq socket_path "" then "/var/run/cloudflared-fips/compliance.sock" else socket_path;
  checker = checker;
  manifest_path = manifest_path;
}

-- What the methods ask of the host: the clock as a text and as a number, the version of the build,
-- the self-test's host, and the manifest of a path.
pub record Env : Type 0 where
  pub now_text : String
  pub now : ℕ
  pub version : String
  pub host : Host
  pub suite_name : ℕ → String
  pub read_manifest : String → Result Manifest

abbrev answer : ℤ → Answer → Response
answer id a = record { id = id; result = some a; error = none }

abbrev pub refusal : ℤ → String → Response
refusal id message = record { id = id; result = none; error = some message }

abbrev manifest_answer : ℤ → Result Manifest → Response
manifest_answer id (err e) = refusal id e
manifest_answer id (ok m) = answer id (manifest m)

pub dispatch : Env → Server → Request → Response
dispatch e s req =
    if str_eq req.method "compliance.status"
    then answer req.id (status_report (generate_report e.now_text s.checker))
    else if str_eq req.method "selftest.run"
    then answer req.id
        (self_test_report (SelfTest.generate_report e.suite_name e.now_text e.version e.host).0)
    else if str_eq req.method "manifest.get"
    then manifest_answer req.id (e.read_manifest s.manifest_path)
    else if str_eq req.method "backend.info"
    then answer req.id (backend (detect_info e.host.build))
    else if str_eq req.method "migration.status"
    then answer req.id (migration (get_migration_status e.host.build e.now))
    else if str_eq req.method "ping"
    then answer req.id (pong e.version)
    else refusal req.id (concat "unknown method: " req.method)

-- A line that has come: its bytes without the end of the line, the host at that time, whether the
-- server is being stopped by then, and what `json.Unmarshal` makes of the line.
pub record Line : Type 0 where
  pub size : ℕ
  pub env : Env
  pub stopped : Bool
  pub request : Result Request

abbrev pub respond : Server → Env → Result Request → Response
respond s e (err message) = refusal (pos 0) (concat "invalid request: " message)
respond s e (ok req) = dispatch e s req

-- the size of the scanner's buffer, in bytes
abbrev pub max_message : ℕ
max_message = 1024 * 1024

-- The loop over the lines of a connection, with the responses that it writes. `Scan` gives up where
-- the buffer is full before the line has ended.
pub handle_conn : Server → List Line → List Response
handle_conn s [] = []
handle_conn s (line ∷ lines) =
    let rest = handle_conn s lines in
    if leb max_message line.size
    then []
    else if line.stopped
    then []
    else respond s line.env line.request ∷ rest
