-- ===== src/Remediate/Host.antt =====
-- What pkg/fleet/remediate/warp.go, fips_linux.go and fips_other.go do on the host: they look for
-- tools, run commands and put the outputs together.
use cloudflared_fips.Prelude.{
  String, Bool, true, false, List, [], ◌∷◌, Option, none, some, str_eq, if◌then◌else◌,
}
use cloudflared_fips.Prelude.Text.{concat, trim_space}

pub record Command : Type 0 where
  pub name : String
  pub args : List String

-- The host answers as it likes after the commands that have been run, the last one first:
-- `exec.LookPath`, `CombinedOutput` with its error, and the file of the kernel's FIPS flag.
pub record Host : Type 0 where
  pub goos : String
  pub look_path : List Command → String → Option String
  pub combined_output : List Command → Command → String × Option String
  pub fips_enabled : List Command → Option String

-- the output and the error of an action
pub record Outcome : Type 0 where
  pub output : String
  pub needs_reboot : Bool
  pub error : Option String

abbrev pub Action : Type 0
Action = List Command → Outcome × List Command

abbrev pub ended : String → Bool → Option String → Action
ended output needs_reboot error ran =
    (record { output = output; needs_reboot = needs_reboot; error = error }, ran)

abbrev pub failing : String → Action
failing message = ended "" false (some message)

abbrev pub cmd : String → List String → Command
cmd name args = record { name = name; args = args }

abbrev pub lines_of : String → String → String
lines_of all_output out = concat all_output (concat out "\n")

-- the loop over `cmds`, which ends at the first command that fails
unfoldable pub run_all : Host → List Command → String → Action
run_all h [] all_output ran = ended all_output false none ran
run_all h (c ∷ cmds) all_output ran =
    let (out, err) = h.combined_output ran c in
    elim err [
      | none ↦ run_all h cmds (lines_of all_output out) (c ∷ ran)
      | some e ↦
          ended (lines_of all_output out) false (some (concat c.name (concat " failed: " e)))
            (c ∷ ran)
    ]

abbrev keyring : String
keyring = "/usr/share/keyrings/cloudflare-warp-archive-keyring.gpg"

abbrev pub apt_commands : List Command
apt_commands =
    cmd "curl" ("-fsSL" ∷ "https://pkg.cloudflareclient.com/pubkey.gpg" ∷ "-o" ∷ keyring ∷ [])
    ∷ cmd "bash" (
        "-c"
        ∷ "echo \"deb [signed-by=/usr/share/keyrings/cloudflare-warp-archive-keyring.gpg] https://pkg.cloudflareclient.com/ $(lsb_release -cs) main\" > /etc/apt/sources.list.d/cloudflare-client.list"
        ∷ [])
    ∷ cmd "apt-get" ("update" ∷ [])
    ∷ cmd "apt-get" ("install" ∷ "-y" ∷ "cloudflare-warp" ∷ [])
    ∷ []

abbrev rpm_commands : String → List Command
rpm_commands pkg_mgr =
    cmd "rpm" ("-ivh" ∷ "https://pkg.cloudflareclient.com/cloudflare-release-el8.rpm" ∷ [])
    ∷ cmd pkg_mgr ("install" ∷ "-y" ∷ "cloudflare-warp" ∷ [])
    ∷ []

abbrev found : Option String → Bool
found none = false
found (some _) = true

unfoldable pub install_warp_linux : Host → Action
install_warp_linux h ran =
    let pkg_mgr = if found (h.look_path ran "dnf") then "dnf" else "yum" in
    if found (h.look_path ran "apt-get")
    then run_all h apt_commands "" ran
    else if found (h.look_path ran pkg_mgr)
    then run_all h (rpm_commands pkg_mgr) "" ran
    else failing "no supported package manager found (need apt-get or yum/dnf)" ran

unfoldable pub install_warp : Host → Action
install_warp h ran =
    if str_eq h.goos "linux"
    then install_warp_linux h ran
    else if str_eq h.goos "darwin"
    then failing
        "install WARP on macOS:\n  Download from https://1.1.1.1 or install via:\n  brew install cloudflare-warp"
        ran
    else if str_eq h.goos "windows"
    then failing
        "install WARP on Windows:\n  Download from https://1.1.1.1 or use:\n  winget install Cloudflare.Warp"
        ran
    else failing (concat "WARP installation not supported on " h.goos) ran

-- one command, whose output the action returns with a note where it succeeds
abbrev run_one : Host → Command → String → Bool → String → Action
run_one h c note needs_reboot message ran =
    let (out, err) = h.combined_output ran c in
    elim err [
      | none ↦ ended (concat out note) needs_reboot none (c ∷ ran)
      | some e ↦ ended out false (some (concat message e)) (c ∷ ran)
    ]

pub connect_warp : Host → Action
connect_warp h ran = elim (h.look_path ran "warp-cli") [
  | none ↦ failing "warp-cli not found on PATH" ran
  | some path ↦ run_one h (cmd path ("connect" ∷ [])) "" false "warp-cli connect failed: " ran
]

abbrev already : Option String → Bool
already none = false
already (some text) = str_eq (trim_space text) "1"

abbrev by_pro : Host → Action
by_pro h ran = elim (h.look_path ran "pro") [
  | none ↦ failing "no FIPS enablement tool found (need fips-mode-setup or ua/pro)" ran
  | some path ↦
      run_one h (cmd path ("enable" ∷ "fips" ∷ []))
        "\nFIPS mode enabled via Ubuntu Pro. A reboot is required." true "pro enable fips failed: "
        ran
]

abbrev by_ua : Host → Action
by_ua h ran = elim (h.look_path ran "ua") [
  | none ↦ by_pro h ran
  | some path ↦
      run_one h (cmd path ("enable" ∷ "fips" ∷ []))
        "\nFIPS mode enabled via Ubuntu Pro. A reboot is required." true "ua enable fips failed: "
        ran
]

-- fips_linux.go
enable_os_fips_linux : Host → Action
enable_os_fips_linux h ran =
    if already (h.fips_enabled ran)
    then ended "OS FIPS mode is already enabled" false none ran
    else elim (h.look_path ran "fips-mode-setup") [
      | none ↦ by_ua h ran
      | some path ↦
          run_one h (cmd path ("--enable" ∷ []))
            "\nFIPS mode enabled. A reboot is required to activate." true
            "fips-mode-setup --enable failed: " ran
    ]

-- fips_other.go
enable_os_fips_other : Host → Action
enable_os_fips_other h ran =
    if str_eq h.goos "darwin"
    then ended "macOS CommonCrypto is always FIPS-validated. No action needed." false none ran
    else if str_eq h.goos "windows"
    then failing
        "Windows FIPS mode must be enabled via Group Policy.\nRun: gpedit.msc → Computer Configuration → Windows Settings →\nSecurity Settings → Local Policies → Security Options →\n\"System cryptography: Use FIPS compliant algorithms\" → Enabled"
        ran
    else failing (concat "OS FIPS enablement not supported on " h.goos) ran

-- the build tags choose the file
pub enable_os_fips : Host → Action
enable_os_fips h ran =
    if str_eq h.goos "linux" then enable_os_fips_linux h ran else enable_os_fips_other h ran
