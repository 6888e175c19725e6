-- ===== src/ClientDetect/Mdm.antt =====
-- pkg/clientdetect/mdm.go: the client of Intune and Jamf with its cache.
pub mod Unreported
use cloudflared_fips.Prelude.{
  ℕ, suc, ◌+◌, ◌-◌, ◌≤◌, ◌<◌, ◌≡◌, ◌≢◌, ◌⊎◌, inl, inr, refl, sym, ◌∙◌, String, Bool, true, false,
  not, ◌&&◌, ◌||◌, List, [], ◌∷◌, map, Option, none, some, length, str_eq, ltb, ◌==◌, Bool-cases,
  if◌then◌else◌, arith,
}
use Prim.Native.Char.{code}
use cloudflared_fips.Prelude.Results.{Result, ok, err}
use cloudflared_fips.Prelude.Text.{concat, decimal}
use cloudflared_fips.Compliance.Items.{is_empty}

pub record MdmConfig : Type 0 where
  pub provider : String
  pub api_token : String
  pub base_url : String
  pub tenant_id : String
  pub client_id : String
  pub client_secret : String

pub record MdmDeviceStatus : Type 0 where
  pub device_id : String
  pub device_name : String
  pub os_type : String
  pub os_version : String
  pub compliant : Bool
  pub encrypted : Bool
  pub fips_mode : Bool
  pub mdm_enrolled : Bool
  pub last_check_in : ℕ
  pub compliance_state : String
  pub provider : String

-- An empty list of devices is Go's nil: both fetches start from nil and append.
pub record MdmClient : Type 0 where
  pub config : MdmConfig
  pub devices : List MdmDeviceStatus
  pub updated : ℕ
  pub ttl : ℕ

-- times in seconds
abbrev pub new_mdm_client : MdmConfig → MdmClient
new_mdm_client config = record { config = config; devices = []; updated = 0; ttl = 300 }

is_configured : MdmConfig → Bool
is_configured c =
    if str_eq c.provider "intune"
    then not (str_eq c.tenant_id "")
      && not (str_eq c.client_id "")
      && not (str_eq c.client_secret "")
    else if str_eq c.provider "jamf"
    then not (str_eq c.base_url "") && not (str_eq c.api_token "")
    else false

-- What a service answers to a request: an error of the transport, or a status with a body, which
-- decodes or does not.
pub data Reply {ℓ} (A : Type ℓ) : Type ℓ where
  unreachable : String → Reply A
  replied : ℕ → String → Result A → Reply A

pub record TokenResponse : Type 0 where
  pub access_token : String
  pub error : String
  pub description : String

pub record IntuneDevice : Type 0 where
  pub id : String
  pub device_name : String
  pub operating_system : String
  pub os_version : String
  pub compliance_state : String
  pub is_encrypted : Bool
  pub last_sync : String

pub record JamfComputer : Type 0 where
  pub id : String
  pub name : String
  pub last_check_in : String
  pub mdm_capable : Bool
  pub os_name : String
  pub os_version : String
  pub file_vault2_status : String

-- The services: the token endpoint by its URL and the body that is posted, the device lists by the
-- token or by the URL and the token; and `time.Parse`, whose error leaves the zero time.
pub record Services : Type 0 where
  pub post_token : String → String → Reply TokenResponse
  pub managed_devices : String → Reply (List IntuneDevice)
  pub computers_inventory : String → String → Reply (List JamfComputer)
  pub parse_time : String → ℕ

abbrev granted : TokenResponse → Result String
granted t =
    if str_eq t.error ""
    then ok t.access_token
    else err (concat t.error (concat ": " t.description))

intune_body : MdmConfig → String
intune_body c = concat "client_id=" (
    concat c.client_id (
      concat "&client_secret=" (
        concat c.client_secret
          "&scope=https%3A%2F%2Fgraph.microsoft.com%2F.default&grant_type=client_credentials")))

pub get_intune_token : Services → MdmConfig → Result String
get_intune_token s c =
    elim (s.post_token
      (concat "https://login.microsoftonline.com/" (concat c.tenant_id "/oauth2/v2.0/token"))
      (intune_body c)) [
        | unreachable e ↦ err e
        | replied _ _ (err e) ↦ err e
        | replied _ _ (ok t) ↦ granted t
      ]

abbrev of_intune : Services → IntuneDevice → MdmDeviceStatus
of_intune s d = record {
  device_id = d.id;
  device_name = d.device_name;
  os_type = d.operating_system;
  os_version = d.os_version;
  compliant = str_eq d.compliance_state "compliant";
  encrypted = d.is_encrypted;
  fips_mode = false;
  mdm_enrolled = true;
  last_check_in = s.parse_time d.last_sync;
  compliance_state = d.compliance_state;
  provider = "intune";
}

-- the answer of a device list, with the prefix of its error messages
abbrev pub listed {ℓ} :
    {A : Type ℓ} → String → (A → MdmDeviceStatus) → Reply (List A) → Result (List MdmDeviceStatus)
listed service of (unreachable e) = err (concat service (concat " API: " e))
listed service of (replied status body (err e)) =
    if status == 200
    then err (concat service (concat " parse: " e))
    else err (concat service (concat " API returned " (concat (decimal status) (concat ": " body))))
listed service of (replied status body (ok devices)) =
    if status == 200
    then ok (map of devices)
    else err (concat service (concat " API returned " (concat (decimal status) (concat ": " body))))

pub fetch_intune_devices : Services → MdmConfig → Result (List MdmDeviceStatus)
fetch_intune_devices s c = elim (get_intune_token s c) [
  | err e ↦ err (concat "intune auth: " e)
  | ok token ↦ listed "intune" (of_intune s) (s.managed_devices token)
]

abbrev of_jamf : Services → JamfComputer → MdmDeviceStatus
of_jamf s d =
    let encrypted =
      str_eq d.file_vault2_status "ALL_ENCRYPTED" || str_eq d.file_vault2_status "BOOT_ENCRYPTED" in
    record {
      device_id = d.id;
      device_name = d.name;
      os_type = d.os_name;
      os_version = d.os_version;
      compliant = d.mdm_capable && encrypted;
      encrypted = encrypted;
      fips_mode = false;
      mdm_enrolled = d.mdm_capable;
      last_check_in = s.parse_time d.last_check_in;
      compliance_state = "managed";
      provider = "jamf";
    }

-- `strings.TrimRight(s, "/")`
trim_slashes : String → String
trim_slashes String.[] = String.[]
trim_slashes (String.◌∷◌ c s) =
    let rest = trim_slashes s in
    if code c == 47 && str_eq rest "" then String.[] else String.◌∷◌ c rest

abbrev inventory_url : String → String
inventory_url base =
    concat base
      "/api/v1/computers-inventory?section=GENERAL&section=HARDWARE&section=OPERATING_SYSTEM&section=SECURITY"

pub fetch_jamf_devices : Services → MdmConfig → Result (List MdmDeviceStatus)
unfolding trim_slashes
fetch_jamf_devices s c =
    listed "jamf" (of_jamf s)
      (s.computers_inventory (inventory_url (trim_slashes c.base_url)) c.api_token)

pub fetch_provider : Services → MdmConfig → Result (List MdmDeviceStatus)
fetch_provider s c =
    if str_eq c.provider "intune"
    then fetch_intune_devices s c
    else if str_eq c.provider "jamf"
    then fetch_jamf_devices s c
    else err "MDM provider not configured"

-- The cache counts as written only where it holds a device.
abbrev pub is_cached : ℕ → MdmClient → Bool
is_cached now c = ltb (now - c.updated) c.ttl && not (is_empty c.devices)

-- the clock when the call begins and when the cache is written
pub fetch_devices : ℕ → ℕ → Services → MdmClient → Result (List MdmDeviceStatus) × MdmClient
fetch_devices now later s c =
    if is_cached now c then (ok c.devices, c) else elim (fetch_provider s c.config) [
      | err e ↦ (err e, c)
      | ok devices ↦ (ok devices, record c { devices = devices; updated = later })
    ]

pub record MdmComplianceSummary : Type 0 where
  pub provider : String
  pub total_devices : ℕ
  pub compliant : ℕ
  pub non_compliant : ℕ
  pub encrypted : ℕ
  pub fips_enabled : ℕ
  pub enrolled : ℕ
  pub error : String

abbrev add_if : Bool → ℕ → ℕ
add_if b n = if b then n + 1 else n

-- the body of the loop
pub count_device : MdmComplianceSummary → MdmDeviceStatus → MdmComplianceSummary
count_device s d = record s {
  compliant = add_if d.compliant s.compliant;
  non_compliant = add_if (not d.compliant) s.non_compliant;
  encrypted = add_if d.encrypted s.encrypted;
  fips_enabled = add_if d.fips_mode s.fips_enabled;
  enrolled = add_if d.mdm_enrolled s.enrolled;
}

pub count_all : MdmComplianceSummary → List MdmDeviceStatus → MdmComplianceSummary
count_all s [] = s
count_all s (d ∷ devices) = count_all (count_device s d) devices

abbrev pub blank : String → ℕ → String → MdmComplianceSummary
blank provider total error = record {
  provider = provider;
  total_devices = total;
  compliant = 0;
  non_compliant = 0;
  encrypted = 0;
  fips_enabled = 0;
  enrolled = 0;
  error = error;
}

pub compliance_summary : ℕ → ℕ → Services → MdmClient → MdmComplianceSummary × MdmClient
compliance_summary now later s c =
    let (fetched, next) = fetch_devices now later s c in
    (
      elim fetched [
        | err e ↦ blank "" 0 e
        | ok devices ↦ count_all (blank c.config.provider (length devices) "") devices
      ],
      next,
    )
