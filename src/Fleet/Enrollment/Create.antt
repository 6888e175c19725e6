-- ===== src/Fleet/Enrollment/Create.antt =====
-- A token that `CreateToken` made enrols a node, and what `Enroll` stores (pkg/fleet/enrollment.go).
use cloudflared_fips.Prelude.{
  ◌≤◌, ◌≡◌, refl, String, false, [], ◌∷◌, ◌++◌, none, some, arith, str_eq, eq_refl, Option-cases,
  inl, inr, if◌then◌else◌,
}
use cloudflared_fips.Fleet.Types.{
  EnrollmentToken, EnrollmentRequest, EnrollmentResponse, CreateTokenRequest, online,
  compliance_unknown,
}
use cloudflared_fips.Fleet.Db.{
  Db, TokenRow, NodeRow, Driver, ok, insert_node, select_token, format_time, parse_time,
}
use cloudflared_fips.Fleet.Nodes.{find_node, find_key, new_row}
use cloudflared_fips.Fleet.Nodes.Laws.{create_node-ok, find_node-append}
use cloudflared_fips.Fleet.Tokens
use cloudflared_fips.Fleet.Tokens.{find_hash, token_row, scan_token}
use cloudflared_fips.Fleet.Tokens.Laws.{find_hash-append}
use cloudflared_fips.Fleet.Enrollment.{
  TokenInput, EnrollInput, at_least_one, create_token, enroll, interval_of, new_node,
}
use cloudflared_fips.Fleet.Enrollment.Steps.{check_token-ok, admit-created}
use cloudflared_fips.Fleet.Enrollment.Limit.{enroll-cases}

module _ (hash : String → String) where
  -- What a successful `CreateToken` has done.
  create_token-inv :
      (d : Driver) (input : TokenInput) (req : CreateTokenRequest) (db : Db)
      (token : EnrollmentToken)
      → (create_token hash d input req db).1 ≡ ok token
      → (find_hash (hash token.token) db.tokens ≡ none)
        × ((create_token hash d input req db).0
            ≡ record db { tokens = db.tokens ++ token_row token (hash token.token) ∷ [] })
        × (token.role ≡ req.role)
        × (token.used_count ≡ 0)
        × (token.max_uses ≡ at_least_one req.max_uses 1)
  unfolding create_token Tokens.create_token
  create_token-inv d input req db token e = elim (Option-cases input.raw) [
    | inl missing ↦ absurd (ground arith)
    | inr (raw, r) ↦ elim (Option-cases input.id) [
      | inl missing ↦ absurd (ground arith)
      | inr (id, i) ↦ (ground arith, ground arith, ground arith, ground arith, ground arith)
    ]
  ]

  -- A token that `create_token` made enrols a node: if the raw token is not empty and the request
  -- carries it with a name, the time of the check is at most the expiry in whole seconds, the driver
  -- fails neither the lookup of the token nor the insert, and id and API key are drawn and new, then
  -- `enroll` answers with them and the interval of the role that the token was made for.
  pub enroll-create_token :
      (d : Driver) (input : TokenInput) (req : CreateTokenRequest) (db : Db)
      (token : EnrollmentToken) (own : EnrollInput) (asked : EnrollmentRequest) (id key : String)
      → (create_token hash d input req db).1 ≡ ok token
      → asked.token ≡ token.token
      → str_eq token.token "" ≡ false
      → str_eq asked.name "" ≡ false
      → own.checked ≤ parse_time (format_time token.expires_at)
      → d.fails select_token ≡ false
      → d.fails insert_node ≡ false
      → own.node_id ≡ some id
      → own.api_key ≡ some key
      → find_node id db.nodes ≡ none
      → find_key (hash key) db.nodes ≡ none
      → (enroll hash d own asked (create_token hash d input req db).0).1
        ≡ ok (record { node_id = id; api_key = key; report_interval = interval_of req.role })
  unfolding enroll
  enroll-create_token d input req db token own asked id key made same raw named time reads writes i
        k new_id new_key =
      let (new, result, role, count, uses) = create_token-inv d input req db token made in
      let db' : Db = record db { tokens = db.tokens ++ token_row token (hash token.token) ∷ [] } in
      let row : TokenRow = token_row token (hash token.token) in
      let known : find_hash (hash asked.token) db'.tokens ≡ some row = ground (
        arith,
        find_hash-append (hash token.token) db.tokens row,
        new,
        same,
        eq_refl (hash token.token),
      ) in
      let passed =
        check_token-ok hash d own.checked asked db' row (ground (arith, raw, same)) named reads
          known (ground (arith, time)) (ground (arith, count, uses)) in
      let node = new_node asked (scan_token row) id own.now in
      let placed = create_node-ok d node (hash key) db' writes new_id new_key in
      let done = admit-created hash d own asked (scan_token row) db' id key i k placed in
      ground (arith, result, passed, done, role)

  -- A successful `enroll` stores a node under the id of the answer. The request gives its name and, if
  -- not empty, its region; the token gives its role, and the region otherwise. It is online since the
  -- moment of enrolment, in whole seconds, with unknown compliance and without the service that the
  -- request registers, and the hash of the answered API key stands for the key.
  pub enroll-stored :
      (d : Driver) (input : EnrollInput) (req : EnrollmentRequest) (db : Db)
      (resp : EnrollmentResponse)
      → (enroll hash d input req db).1 ≡ ok resp
      → (row : TokenRow) × (node : NodeRow) × (find_hash (hash req.token) db.tokens ≡ some row)
        × (find_node resp.node_id (enroll hash d input req db).0.nodes ≡ some node)
        × (node.api_key_hash ≡ hash resp.api_key)
        × (node.name ≡ req.name)
        × (node.role ≡ row.role)
        × (node.region ≡ (if str_eq req.region "" then row.region else req.region))
        × (node.last_heartbeat ≡ format_time input.now)
        × (node.status ≡ online)
        × (node.compliance_status ≡ compliance_unknown)
        × (node.service_json ≡ none)
  unfolding new_row
  enroll-stored d input req db resp e = elim (enroll-cases hash d input req db) [
    | inr (m, failed) ↦ absurd (ground (arith, failed, e))
    | inl (other, row, done, g) ↦
        let node =
          new_row (new_node req (scan_token row) resp.node_id input.now) (hash resp.api_key) in
        (
          row,
          node,
          g.known,
          (let same : other ≡ resp = ground (arith, done, e) in
              ground (
                arith,
                g.result,
                same,
                g.new_id,
                find_node-append resp.node_id db.nodes node,
                eq_refl resp.node_id,
              )),
          refl,
          refl,
          refl,
          refl,
          refl,
          refl,
          refl,
          refl,
        )
  ]

  -- `create_token` writes no node.
  pub nodes-create_token :
      (d : Driver) (input : TokenInput) (req : CreateTokenRequest) (db : Db)
      → (create_token hash d input req db).0.nodes ≡ db.nodes
  unfolding create_token Tokens.create_token
  nodes-create_token d input req db = elim (Option-cases input.raw) [
    | inl missing ↦ ground (arith, missing)
    | inr (raw, r) ↦ elim (Option-cases input.id) [
      | inl missing ↦ ground (arith, r, missing)
      | inr (id, i) ↦ ground (arith, r, i)
    ]
  ]
