-- ===== src/Live/Credentials.antt =====
-- The checks of internal/compliance/live.go on secrets, tokens and certificates.
use cloudflared_fips.Prelude.{
  ℕ, ◌-◌, ◌*◌, ◌/◌, ◌%◌, String, Bool, true, not, ◌&&◌, ◌||◌, List, [], ◌∷◌, ◌++◌, Option, none,
  some, length, str_eq, ltb, if◌then◌else◌,
}
use cloudflared_fips.Prelude.Results.{Result, ok, err}
use cloudflared_fips.Prelude.Text.{concat, contains, decimal}
use cloudflared_fips.Compliance.{pass, fail, warning, unknown, ChecklistItem}
use cloudflared_fips.Compliance.Items.{mark, is_empty}
use cloudflared_fips.SelfTest.Checks.{join_names}
use cloudflared_fips.Live.{
  System, LiveChecker, WalkEntry, Pem, no_block, unparsed, not_after, detect_cloudflared_process,
  exists, first_found,
}
use cloudflared_fips.Live.Service.{base}
use cloudflared_fips.Live.OperationsItems.{
  secrets_at_rest_item, tunnel_token_expiry_item, tls_cert_expiry_item, fleet_token_age_item,
}

abbrev pub day : ℕ
day = 86400

-- `strings.HasSuffix`
pub has_suffix : String → String → Bool
has_suffix String.[] s = str_eq String.[] s
has_suffix (String.◌∷◌ c t) s = str_eq (String.◌∷◌ c t) s || has_suffix t s

is_secret_name : String → Bool
is_secret_name name =
    has_suffix name ".pem"
    || has_suffix name ".key"
    || has_suffix name ".token"
    || contains name "secret"
    || contains name "credential"
    || str_eq name "api-key"
    || str_eq name "node-api-key"

-- The walk leaves out directories and the entries it cannot read.
secrets_among : List WalkEntry → List String
secrets_among [] = []
secrets_among (e ∷ entries) =
    let rest = secrets_among entries in if is_secret_name e.name then e.path ∷ rest else rest

scan_dirs : System → List String → List String
scan_dirs s [] = []
scan_dirs s (dir ∷ dirs) = secrets_among (s.walk_dir dir) ++ scan_dirs s dirs

existing : System → List String → List String
existing s [] = []
existing s (p ∷ paths) = let rest = existing s paths in if exists (s.stat p) then p ∷ rest else rest

abbrev home_cert : System → String
home_cert s = concat s.home "/.cloudflared/cert.pem"

pub collect_secret_files : System → LiveChecker → List String
collect_secret_files s lc =
    existing s (
      "/etc/cloudflared-fips/token"
      ∷ "/etc/cloudflared-fips/node-api-key"
      ∷ "/etc/cloudflared-fips/cloudflared-fips.yaml"
      ∷ "/etc/cloudflared/cert.pem"
      ∷ home_cert s
      ∷ [])
    ++ scan_dirs s lc.secrets_paths

-- `perm&0o007 != 0`, and `perm&0o070 > 0o040`, of the group's three bits
abbrev is_world : ℕ → Bool
is_world perm = ltb 0 (perm % 8)

abbrev is_wide : ℕ → Bool
is_wide perm = ltb 4 (perm / 8 % 8)

abbrev pub add_path : String → ℕ → List String × List String → List String × List String
add_path p perm (world, wide) =
    if is_world perm
    then (base p ∷ world, wide)
    else if is_wide perm
    then (world, base p ∷ wide)
    else (world, wide)

-- the world-readable and the widely readable files, of which those that cannot be found are left out
unfoldable pub sort_secrets : System → List String → List String × List String
sort_secrets s [] = ([], [])
sort_secrets s (p ∷ paths) =
    let rest = sort_secrets s paths in
    elim (s.stat p) [ err _ ↦ rest | ok i ↦ add_path p i.perm rest ]

unfoldable pub judge_secrets : ℕ → List String × List String → ChecklistItem
judge_secrets total (world, wide) =
    if not (is_empty world)
    then mark fail (concat "World-readable secrets: " (join_names world)) secrets_at_rest_item
    else if not (is_empty wide)
    then mark warning
        (concat "Wider-than-ideal perms on: " (concat (join_names wide) " (recommend 0640)"))
        secrets_at_rest_item
    else mark pass
        (concat "All " (concat (decimal total) " secret files have restricted permissions"))
        secrets_at_rest_item

unfoldable pub check_secrets_at_rest : System → LiveChecker → ChecklistItem
check_secrets_at_rest s lc =
    let files = collect_secret_files s lc in
    if is_empty files
    then mark pass "No secret files found to check (use --secrets-paths to specify directories)"
        secrets_at_rest_item
    else judge_secrets (length files) (sort_secrets s files)

abbrev judge_expiry : System → ChecklistItem → ℕ → ChecklistItem
judge_expiry s item expiry =
    let days_left = (expiry - s.now) / day in
    if ltb expiry s.now
    then mark fail (concat "Certificate expired: " (s.format_time expiry)) item
    else if ltb days_left 30
    then mark warning
        (concat "Certificate expires in "
          (concat (decimal days_left) (concat " days (" (concat (s.format_date expiry) ")"))))
        item
    else mark pass
        (concat "Certificate valid until "
          (concat (s.format_date expiry) (concat " (" (concat (decimal days_left) " days)"))))
        item

abbrev judge_pem : System → ChecklistItem → String → Pem → ChecklistItem
judge_pem s item path no_block = mark unknown (concat "No PEM block found in " path) item
judge_pem s item path unparsed = mark unknown (concat "Cannot parse certificate in " path) item
judge_pem s item path (not_after expiry) = judge_expiry s item expiry

pub check_pem_expiry : System → ChecklistItem → String → ChecklistItem
check_pem_expiry s item path = elim (s.read_pem path) [
  | err e ↦ mark unknown (concat "Cannot read " (concat path (concat ": " e))) item
  | ok pem ↦ judge_pem s item path pem
]

-- the search for a token, which the checker keeps
unfoldable pub find_token : System → LiveChecker → LiveChecker
find_token s lc =
    if str_eq lc.token_path ""
    then elim (first_found s
        ("/etc/cloudflared-fips/token" ∷ "/etc/cloudflared/cert.pem" ∷ home_cert s ∷ [])) [
          | some p ↦ record lc { token_path = p }
          | none ↦ lc
        ]
    else lc

abbrev no_token : Bool × Bool → ChecklistItem
no_token (running, token_based) =
    if running && token_based
    then mark pass "Runtime JWT token (managed by Cloudflare, no local file to check)"
        tunnel_token_expiry_item
    else mark unknown "No token file found (use --token-path to specify)" tunnel_token_expiry_item

abbrev judge_age : System → String → ℕ → ChecklistItem
judge_age s path age =
    if ltb (365 * day) age
    then mark warning
        (concat "Token file last modified "
          (concat (decimal (age / day)) " days ago — consider rotation"))
        tunnel_token_expiry_item
    else mark pass
        (concat "Token file: "
          (concat (base path) (concat " (modified " (concat (decimal (age / day)) " days ago)"))))
        tunnel_token_expiry_item

abbrev token_at : System → String → ChecklistItem
token_at s path = elim (s.stat path) [
  | err _ ↦ mark unknown (concat "Cannot stat token file: " path) tunnel_token_expiry_item
  | ok i ↦
      if has_suffix path ".pem"
      then check_pem_expiry s tunnel_token_expiry_item path
      else judge_age s path (s.now - i.mod_time)
]

unfoldable pub check_tunnel_token_expiry : System → LiveChecker → ChecklistItem × LiveChecker
check_tunnel_token_expiry s lc =
    let found = find_token s lc in
    (
      if str_eq found.token_path ""
          then no_token (detect_cloudflared_process s)
          else token_at s found.token_path,
      found,
    )

-- the expiry that comes first, with the name of its file, and the files that have expired
pub record Expiries : Type 0 where
  pub soonest : Option (ℕ × String)
  pub expired : List String

abbrev pub is_sooner : ℕ → Option (ℕ × String) → Bool
is_sooner t none = true
is_sooner t (some (soonest, _)) = ltb t soonest

abbrev pub note_expiry : System → String → Result Pem → Expiries → Expiries
note_expiry s path (err _) e = e
note_expiry s path (ok no_block) e = e
note_expiry s path (ok unparsed) e = e
note_expiry s path (ok (not_after t)) e =
    if ltb t s.now
    then record e { expired = e.expired ++ base path ∷ [] }
    else if is_sooner t e.soonest
    then record e { soonest = some (t, base path) }
    else e

unfoldable pub scan_certs : System → Expiries → List String → Expiries
scan_certs s e [] = e
scan_certs s e (path ∷ paths) = scan_certs s (note_expiry s path (s.read_pem path) e) paths

abbrev pub judge_soonest : System → Option (ℕ × String) → ChecklistItem
judge_soonest s none =
    mark unknown "No parseable certificates found at configured paths" tls_cert_expiry_item
judge_soonest s (some (t, name)) =
    let days_left = (t - s.now) / day in
    if ltb days_left 30
    then mark warning
        (concat "Certificate " (
          concat name (
            concat " expires in "
              (concat (decimal days_left) (concat " days (" (concat (s.format_date t) ")"))))))
        tls_cert_expiry_item
    else mark pass
        (concat "All certificates valid; nearest expiry: "
          (concat name (concat " in " (concat (decimal days_left) " days"))))
        tls_cert_expiry_item

unfoldable pub check_tls_cert_expiry : System → LiveChecker → ChecklistItem
check_tls_cert_expiry s lc =
    let e = scan_certs s (record { soonest = none; expired = [] }) lc.cert_paths in
    if is_empty lc.cert_paths
    then mark unknown "No TLS certificate paths configured (use --cert-paths to monitor)"
        tls_cert_expiry_item
    else if not (is_empty e.expired)
    then mark fail (concat "Expired certificates: " (join_names e.expired)) tls_cert_expiry_item
    else judge_soonest s e.soonest

abbrev judge_key : String → ℕ → ChecklistItem
judge_key path days =
    if ltb 180 days
    then mark fail
        (concat "Fleet key "
          (concat (base path) (concat " is " (concat (decimal days) " days old (>180 days)"))))
        fleet_token_age_item
    else if ltb 90 days
    then mark warning
        (concat "Fleet key " (
          concat (base path)
            (concat " is " (concat (decimal days) " days old (>90 days, rotation recommended)"))))
        fleet_token_age_item
    else mark pass
        (concat "Fleet key "
          (concat (base path) (concat " is " (concat (decimal days) " days old"))))
        fleet_token_age_item

pub first_key : System → List String → ChecklistItem
first_key s [] =
    mark unknown "No fleet enrollment key found (not in fleet mode or key managed externally)"
      fleet_token_age_item
first_key s (p ∷ paths) = elim (s.stat p) [
  | err _ ↦ first_key s paths
  | ok i ↦ judge_key p ((s.now - i.mod_time) / day)
]

abbrev pub check_fleet_token_age : System → ChecklistItem
check_fleet_token_age s =
    first_key s
      ("/etc/cloudflared-fips/node-api-key" ∷ "/var/lib/cloudflared-fips/node-api-key" ∷ [])
