-- ===== src/Fleet/Enrollment/Limit.antt =====
-- A token admits at most as many nodes as it allows, when enrolments come one after the other
-- (pkg/fleet/enrollment.go).
use cloudflared_fips.Prelude.{
  ℕ, suc, ◌+◌, ◌-◌, ◌≤◌, ◌<◌, ◌≡◌, refl, String, Bool, true, false, ◌&&◌, List, [], ◌∷◌, none, some,
  arith, str_eq, eq_iff, eq_refl, All, if◌then◌else◌, Bool-cases, inl, inr, ◌⊎◌,
}
use cloudflared_fips.Fleet.Types.{EnrollmentRequest, EnrollmentResponse}
use cloudflared_fips.Fleet.Db.{Db, TokenRow, Driver, Result, Result-cases, ok, err, increment_usage}
use cloudflared_fips.Fleet.Nodes.{find_node}
use cloudflared_fips.Fleet.Tokens.{find_hash, scan_token}
use cloudflared_fips.Fleet.Tokens.Laws.{used, find_hash-count_use}
use cloudflared_fips.Fleet.Enrollment.{
  EnrollInput, check_token, admit, enroll, expired, used_up, interval_of,
}
use cloudflared_fips.Fleet.Enrollment.Steps.{
  db-check_token, check_token-inv, admitted, admit-inv, admit-err,
}

module _ (hash : String → String) where
  -- What a successful enrolment rests on.
  pub record Granted (d : Driver) (input : EnrollInput) (req : EnrollmentRequest) (db : Db)
      (row : TokenRow) (resp : EnrollmentResponse) : Type 0 where
    pub known : find_hash (hash req.token) db.tokens ≡ some row
    pub fresh : expired input.checked (scan_token row) ≡ false
    pub free : used_up (scan_token row) ≡ false
    pub new_id : find_node resp.node_id db.nodes ≡ none
    pub interval : resp.report_interval ≡ interval_of row.role
    pub result : (enroll hash d input req db).0 ≡ admitted hash d input req (scan_token row) resp db

  -- An enrolment succeeds on such a row, or it fails and changes nothing.
  pub enroll-cases :
      (d : Driver) (input : EnrollInput) (req : EnrollmentRequest) (db : Db)
      → ((resp : EnrollmentResponse) × (row : TokenRow) × ((enroll hash d input req db).1 ≡ ok resp)
          × Granted d input req db row resp)
        ⊎ ((e : String) × (enroll hash d input req db ≡ (db, err e)))
  unfolding enroll
  enroll-cases d input req db =
      let same = db-check_token hash d input.checked req db in
      elim (Result-cases (check_token hash d input.checked req db).1) [
        | inr (e, refused) ↦ inr (e, ground (arith, same, refused))
        | inl (token, passed) ↦
            let (row, known, scanned, fresh, free) =
              check_token-inv hash d input.checked req db token passed in
            elim (Result-cases (admit hash d input req token db).1) [
              | inr (e, failed) ↦
                  inr
                    (e, ground (arith, same, passed, admit-err hash d input req token db e failed))
              | inl (resp, done) ↦
                  let (interval, new_id, result) = admit-inv hash d input req token db resp done in
                  inl (
                    resp,
                    row,
                    ground (arith, same, passed, done),
                    record {
                      known = known;
                      fresh = ground (arith, scanned, fresh);
                      free = ground (arith, scanned, free);
                      new_id = new_id;
                      interval = ground (arith, scanned, interval);
                      result = ground (arith, same, passed, result, scanned);
                    },
                  )
            ]
      ]

-- A call of `Enroll`.
pub record Call : Type 0 where
  pub driver : Driver
  pub input : EnrollInput
  pub req : EnrollmentRequest

abbrev CountsUses : Call → Type 0
CountsUses c = c.driver.fails increment_usage ≡ false

abbrev is_ok : Result EnrollmentResponse → Bool
is_ok (ok _) = true
is_ok (err _) = false

module _ (hash : String → String) where
  abbrev run : Call → Db → Db × Result EnrollmentResponse
  run c db = enroll hash c.driver c.input c.req db

  -- how many of the calls, one after the other, enrol a node with the token of the hash
  pub granted : String → List Call → Db → ℕ
  granted h [] db = 0
  granted h (c ∷ calls) db =
      let rest = granted h calls (run c db).0 in
      if is_ok (run c db).1 && str_eq (hash c.req.token) h then suc rest else rest

  -- A call keeps the row of every hash and its limit. It counts no use away, and where it enrols a
  -- node with the token of the hash, the token had a use left and has one fewer.
  record Follows (h : String) (c : Call) (db : Db) (row : TokenRow) : Type 0 where
    row' : TokenRow
    stored : find_hash h (run c db).0.tokens ≡ some row'
    same_limit : row'.max_uses ≡ row.max_uses
    counted : row.used_count ≤ row'.used_count
    spent :
        is_ok (run c db).1 && str_eq (hash c.req.token) h ≡ true
        → (row.used_count < row.max_uses) × (row'.used_count ≡ row.used_count + 1)

  enroll-Follows :
      (h : String) (c : Call) (db : Db) (row : TokenRow)
      → CountsUses c
      → find_hash h db.tokens ≡ some row
      → 0 < row.max_uses
      → Follows h c db row
  enroll-Follows h c db row works known limited =
      elim (enroll-cases hash c.driver c.input c.req db) [
        | inr (e, failed) ↦ record {
          row' = row;
          stored = rw failed known;
          same_limit = refl;
          counted = omega arith;
          spent = λ s. ground (arith, failed, s);
        }
        | inl (resp, own, done, g) ↦
            let id = own.id in
            let later = find_hash-count_use h id db.tokens in
            record {
              row' = used id row;
              stored = ground (arith, g.result, works, later, known);
              same_limit = ground arith;
              counted = ground arith;
              spent = λ s. ground (
                arith,
                s,
                done,
                g.known,
                g.free,
                known,
                eq_iff (hash c.req.token) h,
                eq_refl row.id,
              );
            }
      ]

  granted-bound :
      (h : String) (calls : List Call) (db : Db) (row : TokenRow)
      → All CountsUses calls
      → find_hash h db.tokens ≡ some row
      → 0 < row.max_uses
      → granted h calls db ≤ row.max_uses - row.used_count
  unfolding granted
  granted-bound h [] db row works known limited = omega arith
  granted-bound h (c ∷ calls) db row works known limited =
      let f = enroll-Follows h c db row works.0 known limited in
      let ih =
        granted-bound h calls (run c db).0 f.row' works.1 f.stored (omega (arith, f.same_limit)) in
      elim (Bool-cases (is_ok (run c db).1 && str_eq (hash c.req.token) h)) [
        | inl yes' ↦ rw (yes', granted) (omega (arith, ih, f.same_limit, f.spent yes'))
        | inr no' ↦ rw (no', granted) (omega (arith, ih, f.same_limit, f.counted))
      ]

-- Of any sequence of enrolments, at most as many succeed with a token as it has uses left: its limit
-- less its count. The premises: the token is stored and has a limit, and the driver never fails the
-- statement that counts a use.
pub granted-le :
    (hash : String → String) (h : String) (calls : List Call) (db : Db) (row : TokenRow)
    → All CountsUses calls
    → find_hash h db.tokens ≡ some row
    → 0 < row.max_uses
    → granted hash h calls db ≤ row.max_uses - row.used_count
granted-le hash h calls db row works known limited =
    granted-bound hash h calls db row works known limited
