-- ===== src/Fleet/Enrollment/Steps.antt =====
-- What a successful call of the two halves of `Enroll` (pkg/fleet/enrollment.go) has found and done.
use cloudflared_fips.Prelude.{
  ℕ, ◌≡◌, String, false, [], ◌∷◌, ◌++◌, none, some, arith, ap, Option-cases, inl, inr, str_eq,
  if◌then◌else◌,
}
use cloudflared_fips.Prelude.Text.{concat}
use cloudflared_fips.Fleet.Types.{Node, EnrollmentToken, EnrollmentRequest, EnrollmentResponse}
use cloudflared_fips.Fleet.Db.{
  Db, Result-cases, TokenRow, Driver, Result, ok, err, select_token, increment_usage, ◌>>◌, pure,
  wrapping, ignoring,
}
use cloudflared_fips.Fleet.Nodes.{find_node, new_row, create_node}
use cloudflared_fips.Fleet.Tokens.{
  find_hash, scan_token, count_use, get_token, increment_token_usage,
}
use cloudflared_fips.Fleet.Nodes.Laws.{create_node-inv, create_node-err}
use cloudflared_fips.Fleet.Tokens.Laws.{increment_token_usage-lem}
use cloudflared_fips.Fleet.Enrollment.{
  EnrollInput, check_token, admit, expired, used_up, interval_of, new_node,
}

-- the database with a node more
abbrev with_node : Node → String → Db → Db
with_node node key_hash db = record db { nodes = db.nodes ++ new_row node key_hash ∷ [] }

module _ (hash : String → String) where
  -- the database after a successful `admit`
  abbrev pub admitted :
      Driver → EnrollInput → EnrollmentRequest → EnrollmentToken → EnrollmentResponse → Db → Db
  admitted d input req token resp db =
      let db' = with_node (new_node req token resp.node_id input.now) (hash resp.api_key) db in
      if d.fails increment_usage then db' else record db' { tokens = count_use token.id db.tokens }

  -- The checks write nothing.
  pub db-check_token :
      (d : Driver) (t : ℕ) (req : EnrollmentRequest) (db : Db)
      → (check_token hash d t req db).0 ≡ db
  unfolding check_token get_token
  db-check_token d t req db = ground arith

  -- They pass only for a stored token that is neither expired nor used up.
  pub check_token-inv :
      (d : Driver) (t : ℕ) (req : EnrollmentRequest) (db : Db) (token : EnrollmentToken)
      → (check_token hash d t req db).1 ≡ ok token
      → (r : TokenRow) × (find_hash (hash req.token) db.tokens ≡ some r)
        × (token ≡ scan_token r)
        × (expired t token ≡ false)
        × (used_up token ≡ false)
  unfolding check_token get_token
  check_token-inv d t req db token e = elim (Option-cases (find_hash (hash req.token) db.tokens)) [
    | inl missing ↦ absurd (ground arith)
    | inr (r, found) ↦ (r, found, ground arith, ground arith, ground arith)
  ]

  -- and for such a token they do pass, if the request names a token and a node
  pub check_token-ok :
      (d : Driver) (t : ℕ) (req : EnrollmentRequest) (db : Db) (r : TokenRow)
      → str_eq req.token "" ≡ false
      → str_eq req.name "" ≡ false
      → d.fails select_token ≡ false
      → find_hash (hash req.token) db.tokens ≡ some r
      → expired t (scan_token r) ≡ false
      → used_up (scan_token r) ≡ false
      → check_token hash d t req db ≡ (db, ok (scan_token r))
  unfolding check_token get_token
  check_token-ok d t req db r named who works found fresh free = ground arith

  -- The insert and the count of `admit`, once there are an id and a key.
  admit-tail :
      (d : Driver) (input : EnrollInput) (req : EnrollmentRequest) (token : EnrollmentToken)
      (db : Db) (id key : String)
      → input.node_id ≡ some id
      → input.api_key ≡ some key
      → admit hash d input req token db
        ≡ (do
          wrapping
              (concat "create node: ")
              (create_node d (new_node req token id input.now) (hash key))
          ignoring (increment_token_usage d token.id)
          pure (record { node_id = id; api_key = key; report_interval = interval_of token.role }))
            db
  unfolding admit
  admit-tail d input req token db id key e f = rw (e, f, admit)

  admit-random :
      (d : Driver) (input : EnrollInput) (req : EnrollmentRequest) (token : EnrollmentToken)
      (db : Db) (resp : EnrollmentResponse)
      → (admit hash d input req token db).1 ≡ ok resp
      → (id : String) × (key : String) × (input.node_id ≡ some id) × (input.api_key ≡ some key)
  unfolding admit
  admit-random d input req token db resp e = elim (Option-cases input.node_id) [
    | inl missing ↦ absurd (ground arith)
    | inr (id, i) ↦ elim (Option-cases input.api_key) [
      | inl missing ↦ absurd (ground arith)
      | inr (key, k) ↦ (id, key, i, k)
    ]
  ]

  pub admit-created :
      (d : Driver) (input : EnrollInput) (req : EnrollmentRequest) (token : EnrollmentToken)
      (db : Db) (id key : String)
      → input.node_id ≡ some id
      → input.api_key ≡ some key
      → create_node d (new_node req token id input.now) (hash key) db
        ≡ (with_node (new_node req token id input.now) (hash key) db, ok tt)
      → let resp : EnrollmentResponse = record {
        node_id = id;
        api_key = key;
        report_interval = interval_of token.role;
      } in
        admit hash d input req token db ≡ (admitted d input req token resp db, ok resp)
  admit-created d input req token db id key i k made =
      let node = new_node req token id input.now in
      let resp : EnrollmentResponse = record {
        node_id = id;
        api_key = key;
        report_interval = interval_of token.role;
      } in
      rw (admit-tail d input req token db id key i k, made)
        (ap (λ (x : Db). (x, ok resp))
          (increment_token_usage-lem d token.id (with_node node (hash key) db)))

  -- A successful `admit` has found no node with its id, and ends in this database.
  pub admit-inv :
      (d : Driver) (input : EnrollInput) (req : EnrollmentRequest) (token : EnrollmentToken)
      (db : Db) (resp : EnrollmentResponse)
      → (admit hash d input req token db).1 ≡ ok resp
      → (resp.report_interval ≡ interval_of token.role)
        × (find_node resp.node_id db.nodes ≡ none)
        × ((admit hash d input req token db).0 ≡ admitted d input req token resp db)
  admit-inv d input req token db resp e =
      let (id, key, i, k) = admit-random d input req token db resp e in
      let node = new_node req token id input.now in
      elim (Result-cases (create_node d node (hash key) db).1) [
        | inr (m, failed) ↦ absurd (
            ground (
              arith,
              ap (λ (x : Db × Result EnrollmentResponse). x.1)
                  (admit-tail d input req token db id key i k),
              failed,
              e,
            ))
        | inl (u, done) ↦
            let (fresh, _, made) = create_node-inv d node (hash key) db done in
            let all = admit-created d input req token db id key i k made in
            (ground (arith, all, e), ground (arith, all, e, fresh), ground (arith, all, e))
      ]

  -- A failed `admit` has changed nothing.
  pub admit-err :
      (d : Driver) (input : EnrollInput) (req : EnrollmentRequest) (token : EnrollmentToken)
      (db : Db) (m : String)
      → (admit hash d input req token db).1 ≡ err m
      → admit hash d input req token db ≡ (db, err m)
  unfolding admit
  admit-err d input req token db m e = elim (Option-cases input.node_id) [
    | inl missing ↦ ground (arith, missing)
    | inr (id, i) ↦ elim (Option-cases input.api_key) [
      | inl missing ↦ ground (arith, i, missing)
      | inr (key, k) ↦
          let node = new_node req token id input.now in
          let tail = admit-tail d input req token db id key i k in
          elim (Result-cases (create_node d node (hash key) db).1) [
            | inr (n, failed) ↦
                let same = create_node-err d node (hash key) db n failed in
                ground (arith, tail, same, e)
            | inl (u, done) ↦
                let made = (create_node-inv d node (hash key) db done).2 in
                absurd (ground (arith, admit-created d input req token db id key i k made, e))
          ]
    ]
  ]

  -- The count of the use leaves the nodes alone.
  pub nodes-admitted :
      (d : Driver) (input : EnrollInput) (req : EnrollmentRequest) (token : EnrollmentToken)
      (resp : EnrollmentResponse) (db : Db)
      → (admitted d input req token resp db).nodes
        ≡ db.nodes ++ new_row (new_node req token resp.node_id input.now) (hash resp.api_key) ∷ []
  nodes-admitted d input req token resp db = ground arith
