-- ===== src/Fleet/Enrollment/Race.antt =====
-- `Enroll` (pkg/fleet/enrollment.go) reads the token and counts the use in two statements: two calls
-- that run at the same time may both pass the checks before either counts.
use cloudflared_fips.Prelude.{
  ℕ, ◌+◌, ◌<◌, ◌≡◌, refl, String, false, none, some, arith, str_eq, eq_refl,
}
use cloudflared_fips.Fleet.Types.{EnrollmentRequest, EnrollmentResponse}
use cloudflared_fips.Fleet.Db.{
  Db, TokenRow, Driver, Action, ok, insert_node, select_token, increment_usage, ◌>>=◌, pure,
}
use cloudflared_fips.Fleet.Nodes.{find_node, find_key, new_row}
use cloudflared_fips.Fleet.Nodes.Laws.{create_node-ok, find_node-append, find_key-append}
use cloudflared_fips.Fleet.Tokens.{find_hash, scan_token}
use cloudflared_fips.Fleet.Tokens.Laws.{used, find_hash-count_use}
use cloudflared_fips.Fleet.Enrollment.{
  EnrollInput, check_token, admit, expired, used_up, interval_of, new_node,
}
use cloudflared_fips.Fleet.Enrollment.Steps.{check_token-ok, admitted, admit-created}

-- One of the calls.
pub record Caller : Type 0 where
  pub input : EnrollInput
  pub req : EnrollmentRequest

-- the id, the API key and the readings of a caller whose randomness worked
abbrev pub caller : EnrollmentRequest → ℕ → String → String → Caller
caller req now id key = record {
  input = record { checked = now; node_id = some id; api_key = some key; now = now };
  req = req;
}

module _ (hash : String → String) where
  -- Both calls check the token before either goes on.
  pub enroll_both : Driver → Caller → Caller → Action (EnrollmentResponse × EnrollmentResponse)
  enroll_both d a b = do
    first ← check_token hash d a.input.checked a.req
    second ← check_token hash d b.input.checked b.req
    left ← admit hash d a.input a.req first
    right ← admit hash d b.input b.req second
    pure (left, right)

  -- Two calls that present the same token, stored, unexpired and with exactly one use left, both
  -- succeed if both check it before either counts its use: the token is then counted above its limit.
  -- The premises: the driver fails none of the three statements, both requests name the token and a
  -- node, and the ids and API keys that the calls draw are new and different.
  pub enroll_both-overrun :
      (d : Driver) (db : Db) (row : TokenRow) (ra rb : EnrollmentRequest) (t u : ℕ)
      (ida idb keya keyb : String)
      → d.fails select_token ≡ false
      → d.fails insert_node ≡ false
      → d.fails increment_usage ≡ false
      → str_eq ra.token "" ≡ false
      → str_eq ra.name "" ≡ false
      → str_eq rb.name "" ≡ false
      → rb.token ≡ ra.token
      → find_hash (hash ra.token) db.tokens ≡ some row
      → expired t (scan_token row) ≡ false
      → expired u (scan_token row) ≡ false
      → row.used_count + 1 ≡ row.max_uses
      → find_node ida db.nodes ≡ none
      → find_node idb db.nodes ≡ none
      → find_key (hash keya) db.nodes ≡ none
      → find_key (hash keyb) db.nodes ≡ none
      → str_eq ida idb ≡ false
      → str_eq (hash keya) (hash keyb) ≡ false
      → (row' : TokenRow) × ((enroll_both d (caller ra t ida keya) (caller rb u idb keyb) db).1
          ≡ ok (
            record { node_id = ida; api_key = keya; report_interval = interval_of row.role },
            record { node_id = idb; api_key = keyb; report_interval = interval_of row.role },
          ))
        × (find_hash
              (hash ra.token)
              (enroll_both d (caller ra t ida keya) (caller rb u idb keyb) db).0.tokens
            ≡ some row')
        × (row'.max_uses < row'.used_count)
  unfolding enroll_both new_row
  enroll_both-overrun d db row ra rb t u ida idb keya keyb reads writes counts named na nb same
        known fa fb last ia ib ka kb ne_id ne_key =
      let a = caller ra t ida keya in
      let b = caller rb u idb keyb in
      let free : used_up (scan_token row) ≡ false = ground (arith, last) in
      let passed = check_token-ok hash d t ra db row named na reads known fa free in
      let passed' =
        check_token-ok hash d u rb db row (ground (arith, named, same)) nb reads
          (ground (arith, known, same)) fb free in
      let node = new_node ra (scan_token row) ida t in
      let left =
        admit-created hash d a.input ra (scan_token row) db ida keya refl refl
          (create_node-ok d node (hash keya) db writes ia ka) in
      let la : EnrollmentResponse = record {
        node_id = ida;
        api_key = keya;
        report_interval = interval_of row.role;
      } in
      let db' : Db = admitted hash d a.input ra (scan_token row) la db in
      let second = new_node rb (scan_token row) idb u in
      let new_id : find_node idb db'.nodes ≡ none =
        ground
          (arith, ib, ne_id, find_node-append idb db.nodes (new_row node (hash keya)), counts) in
      let new_key : find_key (hash keyb) db'.nodes ≡ none = ground (
        arith,
        kb,
        ne_key,
        find_key-append (hash keyb) db.nodes (new_row node (hash keya)),
        counts,
      ) in
      let right =
        admit-created hash d b.input rb (scan_token row) db' idb keyb refl refl
          (create_node-ok d second (hash keyb) db' writes new_id new_key) in
      let one = find_hash-count_use (hash ra.token) row.id db.tokens in
      let two = find_hash-count_use (hash ra.token) row.id db'.tokens in
      (
        used row.id (used row.id row),
        ground (arith, passed, passed', left, right),
        ground (arith, passed, passed', left, right, one, two, known, counts),
        ground (arith, eq_refl row.id, last),
      )
