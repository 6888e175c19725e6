-- ===== src/Ipc/Tests.antt =====
-- The theorem on internal/ipc/ipc.go at a connection whose third line is too long.
use cloudflared_fips.Prelude.{ℕ, ◌≡◌, false, List, [], ◌∷◌, map, none, All}
use cloudflared_fips.Prelude.Int.{ℤ, pos}
use cloudflared_fips.Prelude.Results.{ok, err}
use cloudflared_fips.FipsBackend.{Build}
use cloudflared_fips.SelfTest.Checks.{Host}
use cloudflared_fips.Ipc.{Server, Env, Line, new_server, handle_conn}
use cloudflared_fips.Ipc.Lines.{OneOf, served, handle_conn-answers}

abbrev build : Build
build = record { goos = "linux"; version = "go1.24.0"; settings = none; godebug = "" }

abbrev host : Host
host = record {
  build = build;
  cipher_suites = [];
  fips_enabled = ok "1";
  known_answer_tests = [];
  goarch = "amd64";
  executable = err "no path";
  self_exe = err "no link";
  exists = λ path. false;
  gpg_verify = λ key path. err "no gpg";
}

abbrev env : Env
env = record {
  now_text = "2026-01-01T00:00:00Z";
  now = 1767225600;
  version = "dev";
  host = host;
  suite_name = λ id. "";
  read_manifest = λ path. err "no manifest";
}

abbrev server : Server
server = new_server "" (record { sections = [] }) "/etc/manifest.json"

abbrev ping : ℕ → ℤ → Line
ping size id = record {
  size = size;
  env = env;
  stopped = false;
  request = ok (record { method = "ping"; id = id });
}

abbrev lines : List Line
lines =
    ping 24 (pos 7)
    ∷ record (ping 9 (pos 0)) { request = err "unexpected end" }
    ∷ ping 1048576 (pos 8)
    ∷ ping 24 (pos 9)
    ∷ []

handle_conn-answers_example :
    (map (λ r. r.id) (handle_conn server lines) ≡ pos 7 ∷ pos 0 ∷ [])
    × All OneOf (handle_conn server lines)
unfolding served
handle_conn-answers_example = handle_conn-answers server lines
