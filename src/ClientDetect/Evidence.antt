-- ===== src/ClientDetect/Evidence.antt =====
-- Which evidence the checks of pkg/clientdetect/checker.go pass on.
use cloudflared_fips.Prelude.{
  ℕ, ◌+◌, ◌≤◌, ◌≡◌, ◌≢◌, ◌↔◌, ◌⊎◌, inl, inr, refl, true, false, List, [], ◌∷◌, length, All,
  Bool-cases, ◌==◌, arith,
}
use cloudflared_fips.Prelude.Int.{pos}
use cloudflared_fips.Compliance.{pass, warning}
use cloudflared_fips.Compliance.Items.{is_empty}
use cloudflared_fips.ClientDetect.{
  ClientInfo, FipsSummary, recent_clients, count_clients, fips_stats,
}
use cloudflared_fips.ClientDetect.Posture.{
  DevicePosture, all_devices, count_devices, fips_device_stats,
}
use cloudflared_fips.ClientDetect.Checks.{
  ComplianceChecker, check_client_os_fips, check_client_os_type, check_browser_tls, all_fips,
  check_negotiated_cipher, check_device_posture, count_mdm, check_mdm_enrolled,
  run_client_posture_checks,
}

count_devices-zero :
    (fips non_fips : ℕ) (devices : List DevicePosture)
    → ((count_devices (fips, non_fips) devices).1 ≡ 0)
      ↔ (non_fips ≡ 0) × All (λ d. d.os_fips_enabled ≡ true) devices
unfolding count_devices
count_devices-zero fips non_fips [] = (λ e. (e, tt), λ p. p.0)
count_devices-zero fips non_fips (d ∷ devices) = elim (Bool-cases d.os_fips_enabled) [
  | inl e ↦ rw e (ground (arith, count_devices-zero (fips + 1) non_fips devices))
  | inr e ↦ rw e (ground (arith, count_devices-zero fips (non_fips + 1) devices))
]

count_mdm-full :
    (devices : List DevicePosture)
    → (count_mdm devices ≤ length devices)
      × ((count_mdm devices ≡ length devices) ↔ All (λ d. d.mdm_enrolled ≡ true) devices)
unfolding count_mdm
count_mdm-full [] = ground arith
count_mdm-full (d ∷ devices) = ground (arith, count_mdm-full devices)

count_clients-zero :
    (s : FipsSummary) (clients : List ClientInfo)
    → ((count_clients s clients).total ≡ s.total + length clients)
      × (((count_clients s clients).non_fips ≡ 0)
          ↔ (s.non_fips ≡ 0) × All (λ c. c.fips_capable ≡ true) clients)
unfolding count_clients
count_clients-zero s [] = (omega arith, (λ e. (e, tt), λ p. p.0))
count_clients-zero s (c ∷ clients) = elim (Bool-cases c.fips_capable) [
  | inl e ↦ rw e (
      ground (
        arith,
        count_clients-zero (record s { total = s.total + 1; fips_capable = s.fips_capable + 1 })
            clients,
      ))
  | inr e ↦ rw e (
      ground (
        arith,
        count_clients-zero (record s { total = s.total + 1; non_fips = s.non_fips + 1 }) clients,
      ))
]

all_fips-All :
    (clients : List ClientInfo)
    → (all_fips clients ≡ true) ↔ All (λ c. c.fips_capable ≡ true) clients
unfolding all_fips
all_fips-All [] = (λ _. tt, λ _. refl)
all_fips-All (c ∷ clients) = ground (arith, all_fips-All clients)

is_empty-nil : {A : Type 0} (xs : List A) → (is_empty xs ≡ false) ↔ (xs ≢ [])
is_empty-nil [] = (λ e. ground arith, λ n. absurd (n refl))
is_empty-nil (x ∷ xs) = (λ e. λ p. ground arith, λ n. refl)

is_empty-length : {A : Type 0} (xs : List A) → ((length xs == 0) ≡ false) ↔ (xs ≢ [])
is_empty-length [] = (λ e. ground arith, λ n. absurd (n refl))
is_empty-length (x ∷ xs) = (λ e. λ p. ground arith, λ n. ground arith)

-- Four checks of the section pass exactly on full evidence: the device check where some device has
-- reported and every device has FIPS mode, the enrolment check where some device has reported and
-- every device is enrolled, the browser check where the log holds a client and every one is capable,
-- and the cipher check where there is a recent client and each of the last ten is capable.
pub posture_checks-evidence :
    (cc : ComplianceChecker)
    → let devices = all_devices cc.posture in
      let clients = cc.inspector.clients in
      let recent = recent_clients (pos 10) cc.inspector in
      (((check_client_os_fips cc).status ≡ pass)
        ↔ (devices ≢ []) × All (λ d. d.os_fips_enabled ≡ true) devices)
      × (((check_mdm_enrolled cc).status ≡ pass)
          ↔ (devices ≢ []) × All (λ d. d.mdm_enrolled ≡ true) devices)
      × (((check_browser_tls cc).status ≡ pass)
          ↔ (clients ≢ []) × All (λ c. c.fips_capable ≡ true) clients)
      × (((check_negotiated_cipher cc).status ≡ pass)
          ↔ (recent ≢ []) × All (λ c. c.fips_capable ≡ true) recent)
unfolding check_client_os_fips check_mdm_enrolled check_browser_tls check_negotiated_cipher
    fips_device_stats fips_stats
posture_checks-evidence cc =
    let devices = all_devices cc.posture in
    let clients = cc.inspector.clients in
    let recent = recent_clients (pos 10) cc.inspector in
    let some_device = is_empty-nil devices in
    let zero_devices = count_devices-zero 0 0 devices in
    let all_enrolled = count_mdm-full devices in
    let some_client = is_empty-length clients in
    let zero_clients =
      count_clients-zero (record { total = 0; fips_capable = 0; non_fips = 0 }) clients in
    let some_recent = is_empty-nil recent in
    let all_recent = all_fips-All recent in
    (
      ground (arith, some_device, zero_devices),
      ground (arith, some_device, all_enrolled),
      ground (arith, some_client, zero_clients),
      ground (arith, some_recent, all_recent),
    )

-- No check of the section ever fails: whatever the inspector and the collector hold, each of the
-- eight items passes or warns.
posture_checks-lenient :
    (cc : ComplianceChecker)
    → All
        (λ item. (item.status ≡ pass) ⊎ (item.status ≡ warning))
        (run_client_posture_checks cc).items
unfolding run_client_posture_checks check_client_os_fips check_client_os_type check_browser_tls
    check_negotiated_cipher check_device_posture check_mdm_enrolled
posture_checks-lenient cc = ground arith
