-- ===== src/Fleet/Types.antt =====
-- pkg/fleet/types.go: the data of the fleet. Go's string types are texts with named constants; the
-- time of an event is in nanoseconds.
use cloudflared_fips.Prelude.{ℕ, String, Bool, List, Option}
use cloudflared_fips.Prelude.Int.{ℤ}
use cloudflared_fips.Prelude.Assoc.{Assoc}
use cloudflared_fips.Compliance.{ComplianceReport}

abbrev pub role_server : String
role_server = "server"

abbrev pub role_client : String
role_client = "client"

abbrev pub online : String
online = "online"

abbrev pub degraded : String
degraded = "degraded"

abbrev pub offline : String
offline = "offline"

abbrev pub compliant : String
compliant = "compliant"

abbrev pub non_compliant : String
non_compliant = "non_compliant"

abbrev pub compliance_unknown : String
compliance_unknown = "unknown"

pub record CompliancePolicy : Type 0 where
  pub enforcement_mode : String
  pub require_os_fips : Bool
  pub require_disk_enc : Bool
  pub require_mdm : Bool
  pub grace_period_sec : ℤ

pub record ServiceRegistration : Type 0 where
  pub name : String
  pub host : String
  pub port : ℤ
  pub tls : Bool

pub record Node : Type 0 where
  pub id : String
  pub name : String
  pub role : String
  pub region : String
  pub labels : Assoc String
  pub enrolled_at : ℕ
  pub last_heartbeat : ℕ
  pub status : String
  pub version : String
  pub fips_backend : String
  pub compliance_pass : ℕ
  pub compliance_fail : ℕ
  pub compliance_warn : ℕ
  pub compliance_status : String
  pub service : Option ServiceRegistration
  pub grace_period_end : Option ℕ

pub record EnrollmentToken : Type 0 where
  pub id : String
  pub token : String
  pub role : String
  pub region : String
  pub expires_at : ℕ
  pub max_uses : ℕ
  pub used_count : ℕ
  pub created_at : ℕ

pub record EnrollmentRequest : Type 0 where
  pub token : String
  pub name : String
  pub region : String
  pub labels : Assoc String
  pub version : String
  pub fips_backend : String
  pub service : Option ServiceRegistration

pub record EnrollmentResponse : Type 0 where
  pub node_id : String
  pub api_key : String
  pub report_interval : ℕ

pub record CreateTokenRequest : Type 0 where
  pub role : String
  pub region : String
  pub max_uses : ℤ
  pub expires_in : ℤ

pub record ComplianceReportPayload : Type 0 where
  pub node_id : String
  pub report : ComplianceReport
  pub version : String
  pub backend : String

-- An empty text asks for every value of its column.
pub record NodeFilter : Type 0 where
  pub role : String
  pub region : String
  pub status : String

pub record FleetEvent : Type 0 where
  pub kind : String
  pub node : Node
  pub time : ℕ

pub record RemediationRequest : Type 0 where
  pub id : String
  pub node_id : String
  pub actions : List String
  pub dry_run : Bool
  pub status : String
  pub created_at : ℕ
  pub completed_at : Option ℕ
  pub result : String
