-- ===== src/Remediate.antt =====
-- pkg/fleet/remediate: what the agent proposes for the failed checks of a section, and how it runs
-- the actions that a request asks for. The proofs are in the children.
pub mod Host
pub mod Runs
pub mod Execute
pub mod Settled
pub mod Covers
pub mod Agreement
mod Tests
use cloudflared_fips.Prelude.{
  ℕ, String, Bool, true, false, ◌||◌, List, [], ◌∷◌, ◌++◌, str_eq, if◌then◌else◌,
}
use cloudflared_fips.Compliance.{ChecklistItem, Section, is_pass}

-- A Go string type of which the program uses only the constants.
pub data ActionStatus : Type 0 where
  pending executing success failed needs_reboot manual_only skipped : ActionStatus

pub record RemediationAction : Type 0 where
  pub id : String
  pub description : String
  pub auto_exec : Bool
  pub instructions : String
  pub status : ActionStatus
  pub output : String

pub record RemediationRequest : Type 0 where
  pub id : String
  pub node_id : String
  pub actions : List String
  pub dry_run : Bool

pub record RemediationResult : Type 0 where
  pub request_id : String
  pub node_id : String
  pub actions : List RemediationAction
  pub completed_at : ℕ
  pub dry_run : Bool

pub is_auto_remediable : String → Bool
is_auto_remediable id =
    str_eq id "enable_os_fips"
    || str_eq id "install_warp"
    || str_eq id "connect_warp"
    || str_eq id "fix_edge_ciphers"
    || str_eq id "fix_min_tls"
    || str_eq id "enable_hsts"

abbrev os_fips_linux : String
os_fips_linux =
    "RHEL/CentOS/Alma: sudo fips-mode-setup --enable && sudo reboot\nUbuntu Pro: sudo pro enable fips && sudo reboot\nAmazon Linux: sudo fips-mode-setup --enable && sudo reboot"

abbrev os_fips_windows : String
os_fips_windows =
    "Windows: Enable via Group Policy (gpedit.msc):\n  Computer Configuration → Windows Settings → Security Settings →\n  Local Policies → Security Options →\n  \"System cryptography: Use FIPS compliant algorithms\" → Enabled\nThen reboot."

-- the texts of fips_linux.go and fips_other.go, by the operating system of the build
abbrev os_fips_instructions : String → String
os_fips_instructions goos =
    if str_eq goos "linux"
    then os_fips_linux
    else if str_eq goos "darwin"
    then "macOS: CommonCrypto is always FIPS-validated. No action required."
    else if str_eq goos "windows"
    then os_fips_windows
    else "Consult your OS documentation for FIPS mode enablement."

abbrev disk_enc_instructions : String → String
disk_enc_instructions goos =
    if str_eq goos "linux"
    then "Linux LUKS encryption cannot be enabled on a running system.\nReinstall with encryption enabled, or use cryptsetup on\nunmounted partitions. See: man cryptsetup-luksFormat"
    else if str_eq goos "darwin"
    then "macOS: System Settings → Privacy & Security → FileVault → Turn On"
    else if str_eq goos "windows"
    then "Windows: Enable BitLocker via Control Panel → BitLocker Drive Encryption\nOr run: manage-bde -on C: -RecoveryPassword"
    else "Consult your OS documentation for full-disk encryption."

abbrev warp_install_instructions : String → String
warp_install_instructions goos =
    if str_eq goos "linux"
    then "Debian/Ubuntu: curl -fsSL https://pkg.cloudflareclient.com/pubkey.gpg | sudo gpg --dearmor -o /usr/share/keyrings/cloudflare-warp-archive-keyring.gpg && sudo apt install cloudflare-warp\nRHEL/CentOS: sudo rpm -ivh https://pkg.cloudflareclient.com/cloudflare-release-el8.rpm && sudo yum install cloudflare-warp"
    else if str_eq goos "darwin"
    then "Download from https://1.1.1.1 or: brew install cloudflare-warp"
    else if str_eq goos "windows"
    then "Download from https://1.1.1.1 or: winget install Cloudflare.Warp"
    else "Visit https://1.1.1.1 for installation instructions."

abbrev propose : String → String → Bool → String → ActionStatus → RemediationAction
propose id description auto_exec instructions status = record {
  id = id;
  description = description;
  auto_exec = auto_exec;
  instructions = instructions;
  status = status;
  output = "";
}

-- the `switch` over the item's id
pub propose_for : String → ChecklistItem → List RemediationAction
propose_for goos item =
    if str_eq item.id "ag-fips"
    then propose "enable_os_fips" "Enable OS FIPS mode" true (os_fips_instructions goos) pending
      ∷ []
    else if str_eq item.id "ag-warp"
    then (if str_eq item.remediation "WARP installed but not connected"
          || str_eq item.remediation "WARP found but not on PATH or not running"
        then propose "connect_warp" "Connect Cloudflare WARP" true "Run: warp-cli connect" pending
          ∷ []
        else propose "install_warp" "Install Cloudflare WARP client" true
            (warp_install_instructions goos) pending
          ∷ [])
    else if str_eq item.id "ag-disk"
    then propose "enable_disk_encryption" "Enable full-disk encryption" false
        (disk_enc_instructions goos) manual_only
      ∷ []
    else if str_eq item.id "ag-mdm"
    then propose "enroll_mdm" "Enroll device in MDM" false
        "Contact your IT department to enroll this device in\nMicrosoft Intune or Jamf Pro."
        manual_only
      ∷ []
    else []

pub propose_all : String → List ChecklistItem → List RemediationAction
propose_all goos [] = []
propose_all goos (item ∷ items) =
    let rest = propose_all goos items in
    if is_pass item.status then rest else propose_for goos item ++ rest

abbrev pub plan : String → Section → List RemediationAction
plan goos section = propose_all goos section.items
