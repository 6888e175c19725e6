-- ===== src/Fleet/Remediations/Laws.antt =====
-- What the statements on remediation requests of pkg/fleet/sqlite.go leave alone.
use cloudflared_fips.Prelude.{
  ◌≡◌, refl, ℕ, String, List, [], ◌∷◌, some, arith, str_eq, eq_iff, if◌then◌else◌, Bool-cases,
  Option-cases, inl, inr,
}
use mathlib.Core.Option
use cloudflared_fips.Fleet.Types.{RemediationRequest}
use cloudflared_fips.Fleet.Db.{Db, Driver, RemediationRow, ok, complete_remediation, format_time}
use cloudflared_fips.Fleet.Remediations.{
  create_remediation_request, get_pending_remediations, complete_remediation_request,
  get_remediation_request, find_remediation, complete_rows, scan_remediation,
}

pub nodes-create_remediation_request :
    (d : Driver) (req : RemediationRequest) (db : Db)
    → (create_remediation_request d req db).0.nodes ≡ db.nodes
unfolding create_remediation_request
nodes-create_remediation_request d req db = ground arith

pub db-get_pending_remediations :
    (d : Driver) (id : String) (db : Db) → (get_pending_remediations d id db).0 ≡ db
unfolding get_pending_remediations
db-get_pending_remediations d id db = ground arith

pub nodes-complete_remediation_request :
    (d : Driver) (id : String) (now : ℕ) (result : String) (db : Db)
    → (complete_remediation_request d id now result db).0.nodes ≡ db.nodes
unfolding complete_remediation_request
nodes-complete_remediation_request d id now result db = ground arith

pub db-get_remediation_request :
    (d : Driver) (id : String) (db : Db) → (get_remediation_request d id db).0 ≡ db
unfolding get_remediation_request
db-get_remediation_request d id db = ground arith

-- the row with a result, if it has the id
abbrev pub completed : String → ℕ → String → RemediationRow → RemediationRow
completed id now result r =
    if str_eq r.id id
    then record r { status = "completed"; completed_at = some (format_time now); result = result }
    else r

pub find_remediation-complete_rows :
    (j id : String) (now : ℕ) (result : String) (rows : List RemediationRow)
    → find_remediation j (complete_rows id now result rows)
      ≡ Option.map (completed id now result) (find_remediation j rows)
unfolding find_remediation complete_rows
find_remediation-complete_rows j id now result [] = refl
find_remediation-complete_rows j id now result (r ∷ rows) =
    ground (arith, find_remediation-complete_rows j id now result rows)

pub find_remediation-id :
    (j : String) (rows : List RemediationRow) (r : RemediationRow)
    → find_remediation j rows ≡ some r
    → r.id ≡ j
unfolding find_remediation
find_remediation-id j [] r e = absurd (ground arith)
find_remediation-id j (s ∷ rows) r e = elim (Bool-cases (str_eq s.id j)) [
  | inl here ↦ ground (arith, here, e, eq_iff s.id j)
  | inr on ↦ find_remediation-id j rows r (ground (arith, on, e))
]

-- A completion writes the rows of its id, if the driver does not fail it.
pub remediations-complete_remediation_request :
    (d : Driver) (id : String) (now : ℕ) (result : String) (db : Db)
    → (complete_remediation_request d id now result db).0.remediations ≡ (
        if d.fails complete_remediation
        then db.remediations
        else complete_rows id now result db.remediations)
unfolding complete_remediation_request
remediations-complete_remediation_request d id now result db = ground arith

pub get_remediation_request-inv :
    (d : Driver) (id : String) (db : Db) (req : RemediationRequest)
    → (get_remediation_request d id db).1 ≡ ok req
    → (r : RemediationRow) × (find_remediation id db.remediations ≡ some r)
      × (req ≡ scan_remediation r)
unfolding get_remediation_request
get_remediation_request-inv d id db req e =
    elim (Option-cases (find_remediation id db.remediations)) [
      | inl missing ↦ absurd (ground arith)
      | inr (r, known) ↦ (r, known, ground arith)
    ]
