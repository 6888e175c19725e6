-- ===== src/ClientDetect/Checks.antt =====
-- pkg/clientdetect/checker.go: the section "Client Posture" of a report, from the inspector's log and
-- the collected postures.
use cloudflared_fips.Prelude.{ℕ, ◌+◌, Bool, true, false, List, [], ◌∷◌, length, ◌==◌, if◌then◌else◌}
use cloudflared_fips.Prelude.Int.{pos}
use cloudflared_fips.Prelude.Text.{concat, decimal}
use cloudflared_fips.Compliance.{pass, warning, ChecklistItem, Section}
use cloudflared_fips.Compliance.Items.{unset, mark, mark_status, is_empty}
use cloudflared_fips.ClientDetect.{ClientInfo, Inspector, recent_clients, fips_stats}
use cloudflared_fips.ClientDetect.Posture.{
  DevicePosture, PostureCollector, all_devices, fips_device_stats,
}

pub record ComplianceChecker : Type 0 where
  pub inspector : Inspector
  pub posture : PostureCollector

abbrev client_os_fips_item : ChecklistItem
client_os_fips_item =
    unset "cp-1" "Client OS FIPS Mode" "critical" "reported"
      "Checks if connecting client devices have OS-level FIPS mode enabled"
      "Client-side FIPS mode ensures the browser/TLS stack only uses validated crypto."
      "Enable FIPS mode on client OS. Deploy via MDM policy." "SC-13, CM-6"

unfoldable pub check_client_os_fips : ComplianceChecker → ChecklistItem
check_client_os_fips cc =
    let (fips, non_fips) = fips_device_stats cc.posture in
    if is_empty (all_devices cc.posture)
    then mark warning
        "No device posture reports — deploy WARP agent or configure posture API endpoint"
        client_os_fips_item
    else if non_fips == 0
    then mark pass (concat "All " (concat (decimal fips) " reporting device(s) have FIPS enabled"))
        client_os_fips_item
    else mark warning
        (concat (decimal fips)
          (concat " FIPS, " (concat (decimal non_fips) " non-FIPS device(s) reporting")))
        client_os_fips_item

abbrev client_os_type_item : ChecklistItem
client_os_type_item =
    unset "cp-2" "Client OS Type and Version" "medium" "reported"
      "Reports client operating system types from device posture data"
      "OS type determines available FIPS crypto modules."
      "Ensure endpoints run FIPS-capable OS versions." "CM-8, SI-2"

unfoldable pub check_client_os_type : ComplianceChecker → ChecklistItem
check_client_os_type cc =
    let devices = all_devices cc.posture in
    if is_empty devices
    then mark warning "No device posture reports — deploy WARP agent to collect OS information"
        client_os_type_item
    else mark pass (concat (decimal (length devices)) " device(s) reporting OS information")
        client_os_type_item

abbrev browser_tls_item : ChecklistItem
browser_tls_item =
    unset "cp-3" "Browser TLS Capabilities" "high" "probe"
      "Analyzes TLS ClientHello to determine if clients offer only FIPS-approved ciphers"
      "If a browser offers ChaCha20-Poly1305 or RC4, it is not in FIPS mode."
      "Enable FIPS mode on client browsers. For Windows: enable FIPS GPO." "SC-13, SC-8"

unfoldable pub check_browser_tls : ComplianceChecker → ChecklistItem
check_browser_tls cc =
    let stats = fips_stats cc.inspector in
    if stats.total == 0
    then mark warning
        "No TLS clients inspected — enable Tier 3 FIPS proxy or WARP for ClientHello analysis"
        browser_tls_item
    else if stats.non_fips == 0
    then mark pass
        (concat "All "
          (concat (decimal stats.fips_capable) " inspected client(s) are FIPS-capable"))
        browser_tls_item
    else mark warning
        (concat (decimal stats.fips_capable) (
          concat " FIPS-capable, "
            (concat (decimal stats.non_fips) " non-FIPS client(s) detected")))
        browser_tls_item

abbrev negotiated_cipher_item : ChecklistItem
negotiated_cipher_item =
    unset "cp-4" "Negotiated Cipher Suite (Client → Edge)" "critical" "probe"
      "Reports the cipher suites offered by recently connected clients"
      "The negotiated cipher must be FIPS-approved for the client-to-edge segment."
      "Restrict edge cipher suites via Cloudflare API to force FIPS-approved negotiation."
      "SC-13, SC-8"

-- the loop that stops at the first client that is not capable
unfoldable pub all_fips : List ClientInfo → Bool
all_fips [] = true
all_fips (c ∷ clients) = let rest = all_fips clients in if c.fips_capable then rest else false

unfoldable pub check_negotiated_cipher : ComplianceChecker → ChecklistItem
check_negotiated_cipher cc =
    let recent = recent_clients (pos 10) cc.inspector in
    if is_empty recent
    then mark warning "No recent client connections inspected — requires Tier 3 FIPS proxy"
        negotiated_cipher_item
    else mark (if all_fips recent then pass else warning)
        (concat (decimal (length recent)) " recent connection(s) inspected") negotiated_cipher_item

abbrev tls_version_item : ChecklistItem
tls_version_item =
    unset "cp-5" "TLS Version (Client → Edge)" "critical" "probe"
      "Cloudflare edge enforces minimum TLS version; clients below threshold are rejected"
      "TLS 1.0/1.1 are prohibited under FIPS. Edge enforcement ensures compliance."
      "Set minimum TLS version to 1.2 in Cloudflare zone settings." "SC-8, SC-13"

abbrev pub check_tls_version : ChecklistItem
check_tls_version = mark_status pass tls_version_item

abbrev device_posture_item : ChecklistItem
device_posture_item =
    unset "cp-6" "Cloudflare Access Device Posture" "high" "reported"
      "Checks if Cloudflare Access device posture checks are receiving reports"
      "Device posture validates endpoint security before granting access."
      "Configure device posture checks in Zero Trust > Devices > Device Posture." "AC-17, CM-8"

unfoldable pub check_device_posture : ComplianceChecker → ChecklistItem
check_device_posture cc =
    let devices = all_devices cc.posture in
    if is_empty devices
    then mark warning
        "No posture reports — configure Cloudflare Access device posture checks with WARP agent"
        device_posture_item
    else mark pass (concat (decimal (length devices)) " device(s) reporting posture")
        device_posture_item

abbrev mdm_enrolled_item : ChecklistItem
mdm_enrolled_item =
    unset "cp-7" "MDM Enrollment Verified" "medium" "reported"
      "Checks if connecting devices are enrolled in MDM"
      "MDM enrollment enables enforcement of FIPS policies on endpoints."
      "Enroll devices in your MDM solution. Add MDM check to Access device posture." "CM-8, CM-2"

unfoldable pub count_mdm : List DevicePosture → ℕ
count_mdm [] = 0
count_mdm (d ∷ devices) = let rest = count_mdm devices in if d.mdm_enrolled then rest + 1 else rest

unfoldable pub check_mdm_enrolled : ComplianceChecker → ChecklistItem
check_mdm_enrolled cc =
    let devices = all_devices cc.posture in
    let enrolled = count_mdm devices in
    if is_empty devices
    then mark warning
        "No device reports — configure MDM integration (Intune/Jamf) via --mdm-provider flag"
        mdm_enrolled_item
    else if enrolled == length devices
    then mark pass (concat "All " (concat (decimal enrolled) " device(s) MDM-enrolled"))
        mdm_enrolled_item
    else mark warning
        (concat (decimal enrolled)
          (concat "/" (concat (decimal (length devices)) " device(s) MDM-enrolled")))
        mdm_enrolled_item

abbrev client_certificate_item : ChecklistItem
client_certificate_item =
    unset "cp-8" "Client Certificate (mTLS)" "medium" "probe"
      "mTLS not configured — optional for enhanced device identity via Cloudflare Access"
      "Client certificates provide strong device identity for zero-trust access."
      "Configure mTLS in Cloudflare Access with a trusted CA." "IA-2, IA-5"

abbrev check_client_certificate : ChecklistItem
check_client_certificate = mark_status warning client_certificate_item

unfoldable pub run_client_posture_checks : ComplianceChecker → Section
run_client_posture_checks cc = record {
  id = "client";
  name = "Client Posture";
  description = "Segment 1 — Client OS/Browser to Cloudflare Edge (HTTPS)";
  items =
      check_client_os_fips cc
      ∷ check_client_os_type cc
      ∷ check_browser_tls cc
      ∷ check_negotiated_cipher cc
      ∷ check_tls_version
      ∷ check_device_posture cc
      ∷ check_mdm_enrolled cc
      ∷ check_client_certificate
      ∷ [];
}
