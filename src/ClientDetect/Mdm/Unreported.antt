-- ===== src/ClientDetect/Mdm/Unreported.antt =====
-- What pkg/clientdetect/mdm.go can know of its devices.
use cloudflared_fips.Prelude.{
  ℕ, ◌+◌, ◌≡◌, refl, String, false, List, [], ◌∷◌, map, length, str_eq, ◌==◌, Bool-cases, All,
  arith, inl, inr,
}
use cloudflared_fips.Prelude.Results.{Result, ok, err, Result-cases}
use cloudflared_fips.ClientDetect.Mdm.{
  MdmConfig, MdmDeviceStatus, MdmClient, new_mdm_client, Reply, unreachable, replied, Services,
  listed, of_intune, of_jamf, get_intune_token, fetch_intune_devices, fetch_jamf_devices,
  fetch_provider, is_cached, fetch_devices, MdmComplianceSummary, count_device, count_all,
  compliance_summary, blank, inventory_url, trim_slashes,
}

abbrev Unreported : List MdmDeviceStatus → Type 0
Unreported = All (λ d. d.fips_mode ≡ false)

abbrev reported : Result (List MdmDeviceStatus) → List MdmDeviceStatus
reported (err e) = []
reported (ok devices) = devices

map-Unreported :
    {A : Type 0} (of : A → MdmDeviceStatus) (devices : List A)
    → ((d : A) → (of d).fips_mode ≡ false)
    → Unreported (map of devices)
map-Unreported of [] none_has = tt
map-Unreported of (d ∷ devices) none_has = (none_has d, map-Unreported of devices none_has)

listed-Unreported :
    {A : Type 0} (service : String) (of : A → MdmDeviceStatus) (reply : Reply (List A))
    → ((d : A) → (of d).fips_mode ≡ false)
    → Unreported (reported (listed service of reply))
listed-Unreported service of (unreachable e) none_has = tt
listed-Unreported service of (replied status body (err e)) none_has = ground arith
listed-Unreported service of (replied status body (ok devices)) none_has =
    elim (Bool-cases (status == 200)) [
      | inl e ↦ rw e (map-Unreported of devices none_has)
      | inr e ↦ rw e tt
    ]

intune-Unreported :
    (s : Services) (c : MdmConfig) → Unreported (reported (fetch_intune_devices s c))
unfolding fetch_intune_devices
intune-Unreported s c = elim (Result-cases (get_intune_token s c)) [
  | inl (token, e) ↦
      rw (fetch_intune_devices, e)
        (listed-Unreported "intune" (of_intune s) (s.managed_devices token) (λ d. refl))
  | inr (message, e) ↦ rw (fetch_intune_devices, e) tt
]

jamf-Unreported : (s : Services) (c : MdmConfig) → Unreported (reported (fetch_jamf_devices s c))
unfolding fetch_jamf_devices
jamf-Unreported s c =
    listed-Unreported "jamf" (of_jamf s)
      (s.computers_inventory (inventory_url (trim_slashes c.base_url)) c.api_token) (λ d. refl)

fetch_provider-Unreported :
    (s : Services) (c : MdmConfig) → Unreported (reported (fetch_provider s c))
unfolding fetch_provider
fetch_provider-Unreported s c = elim (Bool-cases (str_eq c.provider "intune")) [
  | inl e ↦ rw (fetch_provider, e) (intune-Unreported s c)
  | inr e ↦ elim (Bool-cases (str_eq c.provider "jamf")) [
    | inl f ↦ rw (fetch_provider, e, f) (jamf-Unreported s c)
    | inr f ↦ rw (fetch_provider, e, f) tt
  ]
]

fetch_devices-Unreported :
    (now later : ℕ) (s : Services) (c : MdmClient)
    → Unreported c.devices
    → Unreported (reported (fetch_devices now later s c).0)
      × Unreported (fetch_devices now later s c).1.devices
unfolding fetch_devices
fetch_devices-Unreported now later s c none_has =
    let known = fetch_provider-Unreported s c.config in
    elim (Bool-cases (is_cached now c)) [
      | inl e ↦ rw (fetch_devices, e) (none_has, none_has)
      | inr e ↦ elim (Result-cases (fetch_provider s c.config)) [
        | inl (devices, f) ↦ rw (fetch_devices, e, f) (let k = rw f at known in (k, k))
        | inr (message, f) ↦ rw (fetch_devices, e, f) (tt, none_has)
      ]
    ]

count_all-sums :
    (s : MdmComplianceSummary) (devices : List MdmDeviceStatus)
    → Unreported devices
    → ((count_all s devices).fips_enabled ≡ s.fips_enabled)
      × ((count_all s devices).compliant + (count_all s devices).non_compliant
          ≡ s.compliant + s.non_compliant + length devices)
      × ((count_all s devices).total_devices ≡ s.total_devices)
unfolding count_all count_device
count_all-sums s [] none_has = (refl, omega arith, refl)
count_all-sums s (d ∷ devices) (none, none_has) =
    ground (arith, none, count_all-sums (count_device s d) devices none_has)

compliance_summary-sums :
    (now later : ℕ) (s : Services) (c : MdmClient)
    → Unreported c.devices
    → let summary = (compliance_summary now later s c).0 in
      (summary.fips_enabled ≡ 0)
      × (summary.compliant + summary.non_compliant ≡ summary.total_devices)
      × Unreported (compliance_summary now later s c).1.devices
unfolding compliance_summary
compliance_summary-sums now later s c none_has =
    let (known, kept) = fetch_devices-Unreported now later s c none_has in
    elim (Result-cases (fetch_devices now later s c).0) [
      | inl (devices, e) ↦
          let (fips, sum, total) =
            count_all-sums (blank c.config.provider (length devices) "") devices (rw e at known) in
          rw (compliance_summary, e) (fips, omega (arith, sum, total), kept)
      | inr (message, e) ↦ rw (compliance_summary, e) (refl, refl, kept)
    ]

pub record MdmCall : Type 0 where
  pub now : ℕ
  pub later : ℕ
  pub services : Services

-- the client after a sequence of summaries
pub summaries : List MdmCall → MdmClient → MdmClient
summaries [] c = c
summaries (call ∷ calls) c =
    summaries calls (compliance_summary call.now call.later call.services c).1

summaries-Unreported :
    (calls : List MdmCall) (c : MdmClient)
    → Unreported c.devices
    → Unreported (summaries calls c).devices
unfolding summaries
summaries-Unreported [] c none_has = none_has
summaries-Unreported (call ∷ calls) c none_has =
    summaries-Unreported calls (compliance_summary call.now call.later call.services c).1
      (compliance_summary-sums call.now call.later call.services c none_has).2

-- After any sequence of calls, whatever the services answer, a summary of a new client counts every
-- device as compliant or not, and it counts no device with FIPS mode: neither provider reports it.
compliance_summary-Unreported :
    (config : MdmConfig) (calls : List MdmCall) (now later : ℕ) (s : Services)
    → let summary = (compliance_summary now later s (summaries calls (new_mdm_client config))).0 in
      (summary.fips_enabled ≡ 0)
      × (summary.compliant + summary.non_compliant ≡ summary.total_devices)
compliance_summary-Unreported config calls now later s =
    let c = summaries calls (new_mdm_client config) in
    let (fips, sum, _) =
      compliance_summary-sums now later s c
        (summaries-Unreported calls (new_mdm_client config) tt) in
    (fips, sum)
