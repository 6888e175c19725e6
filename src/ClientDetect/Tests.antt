-- ===== src/ClientDetect/Tests.antt =====
-- The theorems on pkg/clientdetect at one client and one device.
use cloudflared_fips.Prelude.{ℕ, ◌≡◌, ◌≢◌, ◌↔◌, refl, String, Bool, true, List, [], ◌∷◌, drop, All}
use cloudflared_fips.Prelude.Int.{pos}
use cloudflared_fips.Prelude.Text.{has_prefix, contains}
use cloudflared_fips.Compliance.{pass}
use cloudflared_fips.ClientDetect.{
  ClientHello, new_inspector, recent_clients, analyze_fips_capability, note_suites, note_suite,
  is_chacha, is_rc4_or_des, is_aes_gcm, verdict,
}
use cloudflared_fips.ClientDetect.Ciphers.{cipher_suite_name, find_name, hex4_of}
use cloudflared_fips.ClientDetect.Log.{inspect_all, seen_of, recent_clients-history}
use cloudflared_fips.ClientDetect.Posture.{DevicePosture, all_devices}
use cloudflared_fips.ClientDetect.Checks.{
  ComplianceChecker, check_client_os_fips, check_mdm_enrolled, check_browser_tls,
  check_negotiated_cipher,
}
use cloudflared_fips.ClientDetect.Evidence.{posture_checks-evidence}

-- a device of the posture reports
abbrev device : Bool → DevicePosture
device fips = record {
  device_id = "d1";
  user_email = "a@example.com";
  os_fips_enabled = fips;
  os_type = "windows";
  os_version = "11";
  warp_version = "2026.1";
  mdm_enrolled = true;
  disk_encryption = true;
  reported_at = 5;
}

abbrev hello : List ℕ → ClientHello
hello suites = record {
  remote_addr = "192.0.2.1:5000";
  server_name = "app.example.com";
  cipher_suites = suites;
  supported_versions = 0x0304 ∷ [];
  supported_protos = "h2" ∷ [];
}

abbrev ja4 : ClientHello → String
ja4 h = h.remote_addr

abbrev hellos : List (ℕ × ClientHello)
hellos = (1, hello (0x1301 ∷ [])) ∷ (2, hello (0x1303 ∷ [])) ∷ (3, hello (0x1302 ∷ [])) ∷ []

abbrev checked : ComplianceChecker
checked = record {
  inspector = inspect_all ja4 hellos (new_inspector (pos 2));
  posture = record { devices = ("d1", device true) ∷ [] };
}

-- single DES, a suite that Go has no name for, beside AES-GCM
des_undetected : (analyze_fips_capability (0x0009 ∷ 0x009c ∷ [])).0 ≡ true
unfolding analyze_fips_capability note_suites note_suite verdict is_chacha is_rc4_or_des is_aes_gcm
    contains has_prefix cipher_suite_name find_name hex4_of
des_undetected = refl

recent_clients-history_example :
    ((inspect_all ja4 hellos (new_inspector (pos 2))).clients ≡ drop 1 (seen_of ja4 hellos))
    × (recent_clients (pos 1) (inspect_all ja4 hellos (new_inspector (pos 2)))
        ≡ drop 2 (seen_of ja4 hellos))
recent_clients-history_example = recent_clients-history ja4 (pos 2) (pos 1) hellos

posture_checks-evidence_example :
    let devices = all_devices checked.posture in
    let clients = checked.inspector.clients in
    let recent = recent_clients (pos 10) checked.inspector in
    (((check_client_os_fips checked).status ≡ pass)
      ↔ (devices ≢ []) × All (λ d. d.os_fips_enabled ≡ true) devices)
    × (((check_mdm_enrolled checked).status ≡ pass)
        ↔ (devices ≢ []) × All (λ d. d.mdm_enrolled ≡ true) devices)
    × (((check_browser_tls checked).status ≡ pass)
        ↔ (clients ≢ []) × All (λ c. c.fips_capable ≡ true) clients)
    × (((check_negotiated_cipher checked).status ≡ pass)
        ↔ (recent ≢ []) × All (λ c. c.fips_capable ≡ true) recent)
posture_checks-evidence_example = posture_checks-evidence checked
