-- ===== src/SelfTest/Tests.antt =====
-- The theorem on internal/selftest/selftest.go at a Linux host without FIPS mode, with a signature
-- asked for.
use cloudflared_fips.Prelude.{ℕ, String, true, false, [], ◌∷◌, none}
use cloudflared_fips.Prelude.Results.{ok, err}
use cloudflared_fips.FipsBackend.{Build}
use cloudflared_fips.SelfTest.Checks.{Host}
use cloudflared_fips.SelfTest.Reports.{Options}

abbrev build : Build
build = record { goos = "linux"; version = "go1.24.0"; settings = none; godebug = "fips140=on" }

abbrev host : Host
host = record {
  build = build;
  cipher_suites = (0xc02f, "TLS_ECDHE_RSA_WITH_AES_128_GCM_SHA256") ∷ [];
  fips_enabled = ok "0";
  known_answer_tests = [];
  goarch = "amd64";
  executable = ok "/usr/bin/agent";
  self_exe = ok "/usr/bin/agent";
  exists = λ path. false;
  gpg_verify = λ key path. err "no gpg";
}

abbrev options : Options
options = record { verify_signature = true; signature_key_path = "" }

abbrev suite_name : ℕ → String
suite_name id = "suite"
