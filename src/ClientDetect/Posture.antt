-- ===== src/ClientDetect/Posture.antt =====
-- pkg/clientdetect/posture.go: the collector of the device postures that endpoints report.
use cloudflared_fips.Prelude.{
  ℕ, ◌+◌, String, Bool, List, [], ◌∷◌, Option, none, some, str_eq, if◌then◌else◌, map,
}
use cloudflared_fips.Prelude.Assoc.{Assoc, lookup, insert}

pub record DevicePosture : Type 0 where
  pub device_id : String
  pub user_email : String
  pub os_fips_enabled : Bool
  pub os_type : String
  pub os_version : String
  pub warp_version : String
  pub mdm_enrolled : Bool
  pub disk_encryption : Bool
  pub reported_at : ℕ

pub record PostureCollector : Type 0 where
  pub devices : Assoc DevicePosture

abbrev new_posture_collector : PostureCollector
new_posture_collector = record { devices = [] }

-- A body that does not decode is none; the answer is its status code.
handle_posture_report : ℕ → String → Option DevicePosture → PostureCollector → PostureCollector × ℕ
handle_posture_report now method body pc =
    if str_eq method "POST"
    then elim body [
      | none ↦ (pc, 400)
      | some posture ↦ if str_eq posture.device_id "" then (pc, 400) else (
        record {
          devices = insert posture.device_id (record posture { reported_at = now }) pc.devices;
        },
        200,
      )
    ]
    else (pc, 405)

abbrev get_device : String → PostureCollector → Option DevicePosture
get_device id pc = lookup id pc.devices

-- `AllDevices`, and the body that `HandlePostureList` writes
abbrev pub all_devices : PostureCollector → List DevicePosture
all_devices pc = map (λ e. e.1) pc.devices

-- the two counters of `FIPSDeviceStats`
unfoldable pub count_devices : ℕ × ℕ → List DevicePosture → ℕ × ℕ
count_devices n [] = n
count_devices (fips, non_fips) (d ∷ devices) =
    count_devices (if d.os_fips_enabled then (fips + 1, non_fips) else (fips, non_fips + 1)) devices

unfoldable pub fips_device_stats : PostureCollector → ℕ × ℕ
fips_device_stats pc = count_devices (0, 0) (all_devices pc)
