-- ===== src/Fleet/Nodes/Laws.antt =====
-- Laws of the statements on the table of nodes of pkg/fleet/sqlite.go: what each leaves to be found.
use cloudflared_fips.Prelude.{
  ℕ, ◌≡◌, refl, String, false, List, [], ◌∷◌, ◌++◌, Option, none, some, arith, str_eq, eq_iff,
  if◌then◌else◌, Bool-cases, Option-cases, inl, inr,
}
use mathlib.Core.Option
use mathlib.Core.List.{map}
use cloudflared_fips.Fleet.Types.{Node, NodeFilter}
use cloudflared_fips.Fleet.Db.{
  Db, NodeRow, Driver, ok, err, insert_node, select_node_by_key, update_compliance,
  update_compliance_status, update_status, update_heartbeat, select_nodes,
}
use cloudflared_fips.Fleet.Nodes.{
  find_node, find_key, new_row, create_node, update_row, without_node, select_rows, scan_node,
  heartbeat, update_node_status, update_node_heartbeat, update_node_compliance,
  update_node_compliance_status, list_nodes, get_node, get_node_by_api_key,
}

-- No two rows have one id.
abbrev pub UniqueIds : List NodeRow → Type 0
UniqueIds [] = Unit
UniqueIds (r ∷ rows) = (find_node r.id rows ≡ none) × UniqueIds rows

abbrev pub or_else : {A : Type 0} → Option A → Option A → Option A
or_else (some a) b = some a
or_else none b = b

pub find_node-append :
    (j : String) (rows : List NodeRow) (r : NodeRow)
    → find_node j (rows ++ r ∷ [])
      ≡ or_else (find_node j rows) (if str_eq r.id j then some r else none)
unfolding find_node
find_node-append j [] r = refl
find_node-append j (s ∷ rows) r = ground (arith, find_node-append j rows r)

pub find_node-update_row :
    (j id : String) (f : NodeRow → NodeRow) (rows : List NodeRow)
    → ((r : NodeRow) → (f r).id ≡ r.id)
    → find_node j (update_row id f rows)
      ≡ (if str_eq id j then Option.map f (find_node j rows) else find_node j rows)
unfolding find_node update_row
find_node-update_row j id f [] keeps = ground arith
find_node-update_row j id f (r ∷ rows) keeps = ground (
  arith,
  keeps r,
  eq_iff r.id id,
  eq_iff r.id j,
  eq_iff id j,
  find_node-update_row j id f rows keeps,
)

find_node-without_node :
    (j id : String) (rows : List NodeRow)
    → find_node j (without_node id rows) ≡ (if str_eq id j then none else find_node j rows)
unfolding find_node without_node
find_node-without_node j id [] = ground arith
find_node-without_node j id (r ∷ rows) =
    ground (arith, eq_iff r.id id, eq_iff r.id j, eq_iff id j, find_node-without_node j id rows)

pub update_row-UniqueIds :
    (id : String) (f : NodeRow → NodeRow) (rows : List NodeRow)
    → ((r : NodeRow) → (f r).id ≡ r.id)
    → UniqueIds rows
    → UniqueIds (update_row id f rows)
unfolding update_row
update_row-UniqueIds id f [] keeps u = tt
update_row-UniqueIds id f (r ∷ rows) keeps u = (
  ground (arith, keeps r, find_node-update_row r.id id f rows keeps),
  update_row-UniqueIds id f rows keeps u.1,
)

pub without_node-UniqueIds :
    (id : String) (rows : List NodeRow) → UniqueIds rows → UniqueIds (without_node id rows)
unfolding without_node
without_node-UniqueIds id [] u = tt
without_node-UniqueIds id (r ∷ rows) u = elim (Bool-cases (str_eq r.id id)) [
  | inl gone ↦ rw (gone, without_node) (without_node-UniqueIds id rows u.1)
  | inr kept ↦
      rw (kept, without_node)
        (ground (arith, find_node-without_node r.id id rows), without_node-UniqueIds id rows u.1)
]

-- Where the driver does not fail, a statement writes its columns of the rows with the id.
pub update_node_status-done :
    (d : Driver) (id status : String) (db : Db)
    → d.fails (update_status id) ≡ false
    → update_node_status d id status db
      ≡ (record db { nodes = update_row id (λ r. record r { status = status }) db.nodes }, ok tt)
unfolding update_node_status
update_node_status-done d id status db h = ground arith

pub update_node_heartbeat-done :
    (d : Driver) (id : String) (t : ℕ) (db : Db)
    → d.fails update_heartbeat ≡ false
    → update_node_heartbeat d id t db
      ≡ (record db { nodes = update_row id (heartbeat t) db.nodes }, ok tt)
unfolding update_node_heartbeat
update_node_heartbeat-done d id t db h = ground arith

pub list_nodes-done :
    (d : Driver) (filter : NodeFilter) (db : Db)
    → d.fails select_nodes ≡ false
    → list_nodes d filter db ≡ (db, ok (map scan_node (select_rows filter db.nodes)))
unfolding list_nodes
list_nodes-done d filter db h = ground arith

pub find_node-cons :
    (j : String) (r : NodeRow) (rows : List NodeRow)
    → find_node j (r ∷ rows) ≡ (if str_eq r.id j then some r else find_node j rows)
unfolding find_node
find_node-cons j r rows = refl

pub find_node-empty : (j : String) → find_node j [] ≡ none
unfolding find_node
find_node-empty j = refl

-- A successful insert has found neither the id nor the hash in the table.
pub create_node-inv :
    (d : Driver) (node : Node) (hash : String) (db : Db)
    → (create_node d node hash db).1 ≡ ok tt
    → (find_node node.id db.nodes ≡ none)
      × (find_key hash db.nodes ≡ none)
      × (create_node d node hash db
          ≡ (record db { nodes = db.nodes ++ new_row node hash ∷ [] }, ok tt))
unfolding create_node
create_node-inv d node hash db e = (ground arith, ground arith, ground arith)

-- A failed insert changes nothing.
pub create_node-err :
    (d : Driver) (node : Node) (hash : String) (db : Db) (e : String)
    → (create_node d node hash db).1 ≡ err e
    → create_node d node hash db ≡ (db, err e)
unfolding create_node
create_node-err d node hash db e h = ground arith

-- An insert of a new id and a new hash succeeds.
pub create_node-ok :
    (d : Driver) (node : Node) (hash : String) (db : Db)
    → d.fails insert_node ≡ false
    → find_node node.id db.nodes ≡ none
    → find_key hash db.nodes ≡ none
    → create_node d node hash db ≡ (record db { nodes = db.nodes ++ new_row node hash ∷ [] }, ok tt)
unfolding create_node
create_node-ok d node hash db works new_id new_hash = ground arith

pub find_key-append :
    (h : String) (rows : List NodeRow) (r : NodeRow)
    → find_key h (rows ++ r ∷ [])
      ≡ or_else (find_key h rows) (if str_eq r.api_key_hash h then some r else none)
unfolding find_key
find_key-append h [] r = refl
find_key-append h (s ∷ rows) r = ground (arith, find_key-append h rows r)

-- The lookups change nothing.
pub db-get_node : (d : Driver) (id : String) (db : Db) → (get_node d id db).0 ≡ db
unfolding get_node
db-get_node d id db = ground arith

pub db-get_node_by_api_key :
    (d : Driver) (hash : String) (db : Db) → (get_node_by_api_key d hash db).0 ≡ db
unfolding get_node_by_api_key
db-get_node_by_api_key d hash db = ground arith

-- A lookup by the hash of an API key answers with the row that holds it.
pub get_node_by_api_key-inv :
    (d : Driver) (hash : String) (db : Db) (node : Node)
    → (get_node_by_api_key d hash db).1 ≡ ok node
    → (row : NodeRow) × (find_key hash db.nodes ≡ some row) × (node ≡ scan_node row)
unfolding get_node_by_api_key
get_node_by_api_key-inv d hash db node e = elim (Option-cases (find_key hash db.nodes)) [
  | inl missing ↦ absurd (ground arith)
  | inr (row, known) ↦ (row, known, ground arith)
]

pub db-list_nodes : (d : Driver) (filter : NodeFilter) (db : Db) → (list_nodes d filter db).0 ≡ db
unfolding list_nodes
db-list_nodes d filter db = ground arith

pub update_node_compliance-done :
    (d : Driver) (id : String) (pass fail warn : ℕ) (db : Db)
    → d.fails update_compliance ≡ false
    → update_node_compliance d id pass fail warn db ≡ (
      record db {
        nodes =
            update_row id
              (λ r. record r {
                compliance_pass = pass;
                compliance_fail = fail;
                compliance_warn = warn;
              })
              db.nodes;
      },
      ok tt,
    )
unfolding update_node_compliance
update_node_compliance-done d id pass fail warn db h = ground arith

pub update_node_compliance_status-done :
    (d : Driver) (id status : String) (db : Db)
    → d.fails update_compliance_status ≡ false
    → update_node_compliance_status d id status db ≡ (
      record db { nodes = update_row id (λ r. record r { compliance_status = status }) db.nodes },
      ok tt,
    )
unfolding update_node_compliance_status
update_node_compliance_status-done d id status db h = ground arith

pub get_node_by_api_key-done :
    (d : Driver) (hash : String) (db : Db) (row : NodeRow)
    → d.fails select_node_by_key ≡ false
    → find_key hash db.nodes ≡ some row
    → get_node_by_api_key d hash db ≡ (db, ok (scan_node row))
unfolding get_node_by_api_key
get_node_by_api_key-done d hash db row h e = ground arith
