-- ===== src/Live/Service.antt =====
-- The checks of internal/compliance/live.go on the local service, and on the build.
use cloudflared_fips.Prelude.{
  ℕ, String, Bool, true, false, List, [], ◌∷◌, Option, none, some, str_eq, ltb, ◌==◌, if◌then◌else◌,
}
use cloudflared_fips.Prelude.Results.{ok, err}
use cloudflared_fips.Prelude.Text.{concat}
use cloudflared_fips.Compliance.{pass, fail, warning, unknown, ChecklistItem}
use cloudflared_fips.Compliance.Items.{mark, mark_status}
use cloudflared_fips.FipsBackend.Migration.{MigrationStatus, get_migration_status, signed}
use cloudflared_fips.SelfTest.{is_fips_approved}
use cloudflared_fips.Live.{
  System, LiveChecker, Negotiated, build_of, is_loopback, exists, first_found,
}
use cloudflared_fips.Live.ServiceItems.{
  local_tls_enabled_item, local_cipher_suite_item, local_certificate_valid_item,
  service_reachable_item, build_manifest_present_item, sbom_present_item, reproducible_build_item,
  signature_valid_item, fips_certs_listed_item, upstream_version_item, fips_module_sunset_item,
}
use Prim.Native.Char.{code}

-- the check of the first target, where there is one
abbrev on_target : LiveChecker → ChecklistItem → (String → ChecklistItem) → ChecklistItem
on_target lc item check = elim lc.ingress_targets [
  | [] ↦ mark unknown "No ingress targets configured (use --ingress-targets host:port)" item
  | ◌∷◌ target _ ↦ check target
]

abbrev accepts_tls : String → Option Negotiated → ChecklistItem
accepts_tls target none =
    mark fail (concat "Local service at " (concat target " does not accept TLS"))
      local_tls_enabled_item
accepts_tls target (some _) = mark_status pass local_tls_enabled_item

pub check_local_tls_enabled : System → LiveChecker → ChecklistItem
check_local_tls_enabled s lc = on_target lc local_tls_enabled_item (λ target.
    if is_loopback s target
    then mark pass
        (concat "Loopback connection ("
          (concat target ") — TLS not required within deployment boundary (NIST SP 800-52 §3.5)"))
        local_tls_enabled_item
    else accepts_tls target (s.dial_tls target))

abbrev suite_judged : System → Option Negotiated → ChecklistItem
suite_judged s none = mark_status unknown local_cipher_suite_item
suite_judged s (some n) =
    let name = s.suite_name n.cipher_suite in
    if is_fips_approved n.cipher_suite
    then mark pass (concat "Negotiated: " (concat name " (FIPS-approved)")) local_cipher_suite_item
    else mark fail (concat "Negotiated: " (concat name " (NOT FIPS-approved)"))
        local_cipher_suite_item

pub check_local_cipher_suite : System → LiveChecker → ChecklistItem
check_local_cipher_suite s lc = on_target lc local_cipher_suite_item (λ target.
    if is_loopback s target
    then mark pass
        (concat "N/A — loopback connection (" (concat target "), no cipher negotiation required"))
        local_cipher_suite_item
    else suite_judged s (s.dial_tls target))

abbrev peer_judged : System → Option ℕ → ChecklistItem
peer_judged s none = mark warning "No peer certificates presented" local_certificate_valid_item
peer_judged s (some not_after) =
    if ltb not_after s.now
    then mark fail (concat "Certificate expired: " (s.format_time not_after))
        local_certificate_valid_item
    else mark pass (concat "Valid until " (s.format_date not_after)) local_certificate_valid_item

abbrev certificate_judged : System → Option Negotiated → ChecklistItem
certificate_judged s none = mark_status unknown local_certificate_valid_item
certificate_judged s (some n) = peer_judged s n.peer_not_after

pub check_local_certificate_valid : System → LiveChecker → ChecklistItem
check_local_certificate_valid s lc = on_target lc local_certificate_valid_item (λ target.
    if is_loopback s target
    then mark pass
        (concat "N/A — loopback connection (" (concat target "), certificate not required"))
        local_certificate_valid_item
    else certificate_judged s (s.dial_tls target))

pub check_service_reachable : System → LiveChecker → ChecklistItem
check_service_reachable s lc = on_target lc service_reachable_item (λ target.
    if s.dial target
    then mark pass (concat "Service reachable at " target) service_reachable_item
    else mark fail (concat "Cannot reach " target) service_reachable_item)

pub check_build_manifest_present : System → LiveChecker → ChecklistItem
check_build_manifest_present s lc =
    mark_status (if exists (s.read_manifest lc.manifest_path) then pass else fail)
      build_manifest_present_item

abbrev sbom_paths : List String
sbom_paths =
    "sbom.cyclonedx.json" ∷ "sbom.spdx.json" ∷ "/tmp/sbom.cyclonedx.json"
    ∷ "/etc/cloudflared-fips/sbom.cyclonedx.json" ∷ "/etc/cloudflared-fips/sbom.spdx.json"
    ∷ "/opt/cloudflared-fips/sbom.cyclonedx.json" ∷ "/opt/cloudflared-fips/sbom.spdx.json" ∷ []

pub check_sbom_present : System → ChecklistItem
check_sbom_present s = elim (first_found s sbom_paths) [
  | some _ ↦ mark_status pass sbom_present_item
  | none ↦ mark warning "No SBOM file found at standard paths" sbom_present_item
]

-- the loop over the settings, where a later `-trimpath` replaces an earlier one
build_flags : Bool × Bool → List (String × String) → Bool × Bool
build_flags flags [] = flags
build_flags (trimpath, vcs) ((key, value) ∷ settings) =
    build_flags
      (if str_eq key "-trimpath"
        then (str_eq value "true", vcs)
        else if str_eq key "vcs.revision"
        then (trimpath, true)
        else (trimpath, vcs))
      settings

abbrev reproducible : Bool × Bool → ChecklistItem
reproducible (true, true) =
    mark pass
      "Binary built with -trimpath and VCS info embedded (reproducible build flags verified)"
      reproducible_build_item
reproducible (true, false) =
    mark pass "Binary built with -trimpath (reproducible build flags present)"
      reproducible_build_item
reproducible (false, _) =
    mark warning "Binary missing -trimpath flag; builds may not be byte-reproducible"
      reproducible_build_item

pub check_reproducible_build : System → ChecklistItem
check_reproducible_build s = elim (build_of s).settings [
  | none ↦ mark unknown "Build info not available" reproducible_build_item
  | some settings ↦ reproducible (build_flags (false, false) settings)
]

-- `filepath.Base` of a path that does not end in a slash: the part after the last one
abbrev has_slash : String → Bool
has_slash String.[] = false
has_slash (String.◌∷◌ c s) = let rest = has_slash s in if code c == 47 then true else rest

abbrev pub base : String → String
base String.[] = String.[]
base (String.◌∷◌ c s) =
    let rest = base s in if has_slash s then rest else if code c == 47 then s else String.◌∷◌ c s

pub check_signature_valid : System → LiveChecker → ChecklistItem
check_signature_valid s lc =
    let paths =
      concat lc.binary_path ".sig"
      ∷ concat lc.binary_path ".asc"
      ∷ "/etc/cloudflared-fips/signatures.json"
      ∷ [] in
    if str_eq lc.binary_path ""
    then mark unknown "Binary path not available" signature_valid_item
    else elim (first_found s paths) [
      | some p ↦ mark pass (concat "Artifact signature found: " (base p)) signature_valid_item
      | none ↦
          mark warning "No artifact signature found; sign binaries in CI with GPG or cosign"
            signature_valid_item
    ]

pub check_fips_certs_listed : System → LiveChecker → ChecklistItem
check_fips_certs_listed s lc = elim (s.read_manifest lc.manifest_path) [
  | err _ ↦ mark_status fail fips_certs_listed_item
  | ok m ↦
      if ltb 0 m.certificates
      then mark_status pass fips_certs_listed_item
      else mark fail "No FIPS certificates listed in build manifest" fips_certs_listed_item
]

pub check_upstream_version : System → LiveChecker → ChecklistItem
check_upstream_version s lc = elim (s.read_manifest lc.manifest_path) [
  | err _ ↦ mark_status warning upstream_version_item
  | ok m ↦
      mark_status (if str_eq m.upstream_version "" then warning else pass) upstream_version_item
]

abbrev in_days : MigrationStatus → String → String
in_days m mark_text = concat "Using FIPS " (
    concat m.current_standard (
      concat ". Sunset in "
        (concat (signed m.days_until_sunset) (concat mark_text m.recommended_action))))

pub judge_migration : MigrationStatus → ChecklistItem
judge_migration m =
    if str_eq m.migration_urgency "none"
    then mark pass (concat "Using FIPS " (concat m.current_standard ". No migration required."))
        fips_module_sunset_item
    else if str_eq m.migration_urgency "low"
    then mark pass (in_days m " days. ") fips_module_sunset_item
    else if str_eq m.migration_urgency "medium"
    then mark warning (in_days m " days. ") fips_module_sunset_item
    else if str_eq m.migration_urgency "high"
    then mark warning (in_days m " days! ") fips_module_sunset_item
    else if str_eq m.migration_urgency "critical"
    then mark fail m.recommended_action fips_module_sunset_item
    else mark_status unknown fips_module_sunset_item

abbrev pub check_fips_module_sunset : System → ChecklistItem
check_fips_module_sunset s = judge_migration (get_migration_status (build_of s) s.now)
