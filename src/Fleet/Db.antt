-- ===== src/Fleet/Db.antt =====
-- The database behind pkg/fleet/sqlite.go: the four tables of `migrate`, the driver, and actions that
-- may fail and keep what they wrote. A time column holds the RFC 3339 text of a time in UTC, which
-- is modelled by its whole seconds; a text column of JSON by the value, `none` for the default `''`.
use cloudflared_fips.Prelude.{
  ◌≡◌, refl, ◌⊎◌, inl, inr, ℕ, ◌/◌, ◌*◌, String, Bool, true, false, List, Option,
}
use cloudflared_fips.Prelude.Assoc.{Assoc}
use cloudflared_fips.Compliance.{ComplianceReport}
use cloudflared_fips.Fleet.Types.{ServiceRegistration}

abbrev pub second : ℕ
second = 1000000000

-- `t.UTC().Format(time.RFC3339)` and `time.Parse(time.RFC3339, s)`
abbrev pub format_time : ℕ → ℕ
format_time t = t / second

abbrev pub parse_time : ℕ → ℕ
parse_time s = s * second

pub record NodeRow : Type 0 where
  pub id : String
  pub name : String
  pub role : String
  pub region : String
  pub labels : Assoc String
  pub enrolled_at : ℕ
  pub last_heartbeat : ℕ
  pub status : String
  pub version : String
  pub fips_backend : String
  pub api_key_hash : String
  pub compliance_pass : ℕ
  pub compliance_fail : ℕ
  pub compliance_warn : ℕ
  pub compliance_status : String
  pub service_json : Option ServiceRegistration
  pub grace_period_end : Option ℕ

pub record TokenRow : Type 0 where
  pub id : String
  pub token_hash : String
  pub role : String
  pub region : String
  pub expires_at : ℕ
  pub max_uses : ℕ
  pub used_count : ℕ
  pub created_at : ℕ

pub record ReportRow : Type 0 where
  pub node_id : String
  pub timestamp : ℕ
  pub report : ComplianceReport

pub record RemediationRow : Type 0 where
  pub id : String
  pub node_id : String
  pub actions : List String
  pub dry_run : ℕ
  pub status : String
  pub created_at : ℕ
  pub completed_at : Option ℕ
  pub result : String

pub record Db : Type 0 where
  pub nodes : List NodeRow
  pub tokens : List TokenRow
  pub reports : List ReportRow
  pub remediations : List RemediationRow

-- the statements of the store
pub data Stmt : Type 0 where
  insert_node select_node select_nodes select_node_by_key update_heartbeat update_compliance : Stmt
  update_compliance_status delete_from_nodes : Stmt
  update_status : String → Stmt
  insert_token select_token select_tokens increment_usage delete_from_tokens : Stmt
  insert_report select_report select_summary : Stmt
  insert_remediation select_pending complete_remediation select_remediation : Stmt

-- The driver may fail any statement (a locked or full database, a cancelled context); within one call
-- it fails a statement always or never. SQLite keeps
-- the setting `foreign_keys` for each connection, and `NewSQLiteStore` sets it on one of the pool.
pub record Driver : Type 0 where
  pub fails : Stmt → Bool
  pub foreign_keys : Bool

pub data Result {ℓ} (A : Type ℓ) : Type ℓ where
  ok : A → Result A
  err : String → Result A

abbrev pub Action : Type 0 → Type 0
Action A = Db → Db × Result A

module _ {A B : Type 0} where
  abbrev pub continue : Result A → (A → Action B) → Action B
  continue (ok a) f db = f a db
  continue (err e) f db = (db, err e)

  infixl 10 ◌>>=◌ ◌>>◌
  abbrev pub ◌>>=◌ : Action A → (A → Action B) → Action B
  ◌>>=◌ m f db = let (db', r) = m db in continue r f db'

  abbrev pub ◌>>◌ : Action A → Action B → Action B
  m >> n = m >>= λ _. n

module _ {A : Type 0} where
  abbrev pub pure : A → Action A
  pure a db = (db, ok a)

  abbrev pub raise : String → Action A
  raise e db = (db, err e)

  abbrev explain : (String → String) → Result A → Result A
  explain f (ok a) = ok a
  explain f (err e) = err (f e)

  -- the error of an action, in other words
  abbrev pub wrapping : (String → String) → Action A → Action A
  wrapping f m db = let (db', r) = m db in (db', explain f r)

  -- an action whose error is dropped
  abbrev pub ignoring : Action A → Action (Unit {0})
  ignoring m db = ((m db).0, ok tt)

abbrev driver_error : String
driver_error = "driver error"

-- a statement that the driver may fail before it does anything
abbrev pub statement : {A : Type 0} → Driver → Stmt → Action A → Action A
statement d s m db = elim (d.fails s) [ true ↦ (db, err driver_error) | false ↦ m db ]

pub Result-cases :
    {A : Type 0} (r : Result A) → ((a : A) × (r ≡ ok a)) ⊎ ((e : String) × (r ≡ err e))
Result-cases (ok a) = inl (a, refl)
Result-cases (err e) = inr (e, refl)
