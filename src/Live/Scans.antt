-- ===== src/Live/Scans.antt =====
-- What the check of the last scan in internal/compliance/live.go can find.
use cloudflared_fips.Prelude.{ℕ, ◌+◌, ◌≤◌, ◌≡◌, some, arith}
use cloudflared_fips.Compliance.{pass}
use cloudflared_fips.Live.{System, LiveChecker}
use cloudflared_fips.Live.Operations.{check_compliance_scan_recent}
use cloudflared_fips.Live.Credentials.{find_token, check_tunnel_token_expiry}
use cloudflared_fips.Live.Run.{run_security_ops_checks}

find_token-scan :
    (s : System) (lc : LiveChecker) → (find_token s lc).last_scan_time ≡ lc.last_scan_time
unfolding find_token
find_token-scan s lc = ground arith

-- A run of the security checks stamps the checker before it looks at the stamp: as long as the run
-- itself takes at most five minutes, the check of the last scan passes, whatever the checker held
-- and however long ago its last scan was.
run_security_ops_checks-stamped :
    (start : ℕ) (s : System) (lc : LiveChecker)
    → s.now ≤ start + 300
    → let next = (run_security_ops_checks start s lc).1 in
      (next.last_scan_time ≡ some start) × ((check_compliance_scan_recent s next).status ≡ pass)
unfolding run_security_ops_checks check_tunnel_token_expiry check_compliance_scan_recent
run_security_ops_checks-stamped start s lc soon =
    let stamp = find_token-scan s (record lc { last_scan_time = some start }) in
    (stamp, rw stamp (ground arith))
