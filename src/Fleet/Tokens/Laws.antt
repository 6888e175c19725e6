-- ===== src/Fleet/Tokens/Laws.antt =====
-- Laws of the statements on the enrolment tokens of pkg/fleet/sqlite.go.
use cloudflared_fips.Prelude.{
  ◌+◌, ◌≡◌, refl, String, List, [], ◌∷◌, ◌++◌, Option, none, some, arith, str_eq, if◌then◌else◌,
}
use mathlib.Core.Option
use cloudflared_fips.Fleet.Db.{Db, Driver, TokenRow, increment_usage}
use cloudflared_fips.Fleet.Tokens.{
  find_hash, count_use, create_token, list_tokens, increment_token_usage, delete_token,
}
use cloudflared_fips.Fleet.Types.{EnrollmentToken}

abbrev or_else : {A : Type 0} → Option A → Option A → Option A
or_else (some a) b = some a
or_else none b = b

pub find_hash-append :
    (h : String) (rows : List TokenRow) (r : TokenRow)
    → find_hash h (rows ++ r ∷ [])
      ≡ or_else (find_hash h rows) (if str_eq r.token_hash h then some r else none)
unfolding find_hash
find_hash-append h [] r = refl
find_hash-append h (s ∷ rows) r = ground (arith, find_hash-append h rows r)

-- the row with one more use, if it has the id
abbrev pub used : String → TokenRow → TokenRow
used id r = if str_eq r.id id then record r { used_count = r.used_count + 1 } else r

pub find_hash-count_use :
    (h id : String) (rows : List TokenRow)
    → find_hash h (count_use id rows) ≡ Option.map (used id) (find_hash h rows)
unfolding find_hash count_use
find_hash-count_use h id [] = refl
find_hash-count_use h id (r ∷ rows) = ground (arith, find_hash-count_use h id rows)

pub increment_token_usage-lem :
    (d : Driver) (id : String) (db : Db)
    → (increment_token_usage d id db).0
      ≡ (if d.fails increment_usage then db else record db { tokens = count_use id db.tokens })
unfolding increment_token_usage
increment_token_usage-lem d id db = ground arith

-- Creating, listing and deleting tokens writes no node.
pub nodes-create_token :
    (d : Driver) (t : EnrollmentToken) (hash : String) (db : Db)
    → (create_token d t hash db).0.nodes ≡ db.nodes
unfolding create_token
nodes-create_token d t hash db = ground arith

pub nodes-list_tokens : (d : Driver) (db : Db) → (list_tokens d db).0.nodes ≡ db.nodes
unfolding list_tokens
nodes-list_tokens d db = ground arith

pub nodes-delete_token :
    (d : Driver) (id : String) (db : Db) → (delete_token d id db).0.nodes ≡ db.nodes
unfolding delete_token
nodes-delete_token d id db = ground arith
