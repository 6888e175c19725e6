-- ===== src/Fleet/Tokens.antt =====
-- The table of enrolment tokens of pkg/fleet/sqlite.go and the statements on it.
pub mod Laws
use cloudflared_fips.Prelude.{
  ℕ, ◌+◌, String, Bool, true, false, ◌&&◌, List, [], ◌∷◌, ◌++◌, map, Option, none, some, leb,
  str_eq, if◌then◌else◌,
}
use cloudflared_fips.Fleet.Types.{EnrollmentToken}
use cloudflared_fips.Fleet.Db.{
  Db, TokenRow, Driver, Action, Result, ok, err, statement, insert_token, select_token,
  select_tokens, increment_usage, delete_from_tokens, format_time, parse_time,
}

unfoldable pub find_hash : String → List TokenRow → Option TokenRow
find_hash hash [] = none
find_hash hash (r ∷ rows) = if str_eq r.token_hash hash then some r else find_hash hash rows

unfoldable pub find_token : String → List TokenRow → Option TokenRow
find_token id [] = none
find_token id (r ∷ rows) = if str_eq r.id id then some r else find_token id rows

-- the token as `GetToken` scans it, with no raw token
abbrev pub scan_token : TokenRow → EnrollmentToken
scan_token r = record {
  id = r.id;
  token = "";
  role = r.role;
  region = r.region;
  expires_at = parse_time r.expires_at;
  max_uses = r.max_uses;
  used_count = r.used_count;
  created_at = parse_time r.created_at;
}

abbrev pub token_row : EnrollmentToken → String → TokenRow
token_row t token_hash = record {
  id = t.id;
  token_hash = token_hash;
  role = t.role;
  region = t.region;
  expires_at = format_time t.expires_at;
  max_uses = t.max_uses;
  used_count = t.used_count;
  created_at = format_time t.created_at;
}

abbrev is_free : {A : Type 0} → Option A → Bool
is_free none = true
is_free (some _) = false

-- `id` is the primary key, and `token_hash` is unique.
unfoldable pub create_token : Driver → EnrollmentToken → String → Action (Unit {0})
create_token d t token_hash = statement d insert_token λ db.
    if is_free (find_token t.id db.tokens) && is_free (find_hash token_hash db.tokens)
    then (record db { tokens = db.tokens ++ token_row t token_hash ∷ [] }, ok tt)
    else (db, err "UNIQUE constraint failed")

abbrev scanned : Db → Option TokenRow → Db × Result EnrollmentToken
scanned db none = (db, err "sql: no rows in result set")
scanned db (some r) = (db, ok (scan_token r))

unfoldable pub get_token : Driver → String → Action EnrollmentToken
get_token d token_hash = statement d select_token λ db. scanned db (find_hash token_hash db.tokens)

-- `ORDER BY created_at DESC`
insert_by_age : TokenRow → List TokenRow → List TokenRow
insert_by_age r [] = r ∷ []
insert_by_age r (s ∷ rows) =
    let rest = insert_by_age r rows in
    if leb s.created_at r.created_at then r ∷ s ∷ rows else s ∷ rest

by_age : List TokenRow → List TokenRow
unfolding insert_by_age
by_age [] = []
by_age (r ∷ rows) = insert_by_age r (by_age rows)

pub list_tokens : Driver → Action (List EnrollmentToken)
unfolding by_age
list_tokens d = statement d select_tokens λ db. (db, ok (map scan_token (by_age db.tokens)))

-- `UPDATE ... SET used_count = used_count + 1 WHERE id = ?`
pub count_use : String → List TokenRow → List TokenRow
count_use id [] = []
count_use id (r ∷ rows) =
    (if str_eq r.id id then record r { used_count = r.used_count + 1 } else r) ∷ count_use id rows

unfoldable pub increment_token_usage : Driver → String → Action (Unit {0})
increment_token_usage d id =
    statement d increment_usage λ db. (record db { tokens = count_use id db.tokens }, ok tt)

without_token : String → List TokenRow → List TokenRow
without_token id [] = []
without_token id (r ∷ rows) =
    let rest = without_token id rows in if str_eq r.id id then rest else r ∷ rest

pub delete_token : Driver → String → Action (Unit {0})
unfolding without_token
delete_token d id =
    statement d delete_from_tokens λ db. (record db { tokens = without_token id db.tokens }, ok tt)
