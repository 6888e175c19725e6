-- ===== src/Fleet/Nodes/Updates.antt =====
-- What the statements of pkg/fleet/sqlite.go that write the row of one node leave of the others, and
-- of the ids of the table.
use cloudflared_fips.Prelude.{
  ◌≡◌, refl, ◌∙◌, ℕ, String, false, List, [], ◌∷◌, ◌++◌, none, arith, str_eq, eq_iff,
}
use cloudflared_fips.Fleet.Db.{Db, NodeRow, Driver}
use cloudflared_fips.Fleet.Along.{Along, Along-statement}
use cloudflared_fips.Fleet.Nodes.{
  find_node, update_node_heartbeat, update_node_status, update_node_compliance, update,
  update_node_compliance_status, delete_node,
}
use cloudflared_fips.Fleet.Nodes.Laws.{
  UniqueIds, find_node-append, find_node-update_row, update_row-UniqueIds, without_node-UniqueIds,
}

-- The row of the id is as before.
abbrev pub SameRow : String → Db → Db → Type 0
SameRow j db db' = find_node j db'.nodes ≡ find_node j db.nodes

SameRow-refl : (j : String) (db : Db) → SameRow j db db
SameRow-refl j db = refl

SameRow-trans : (j : String) (a b c : Db) → SameRow j a b → SameRow j b c → SameRow j a c
SameRow-trans j a b c p q = q ∙ p

-- The ids of the table stay unique.
abbrev pub KeepsIds : Db → Db → Type 0
KeepsIds db db' = UniqueIds db.nodes → UniqueIds db'.nodes

KeepsIds-refl : (db : Db) → KeepsIds db db
KeepsIds-refl db u = u

KeepsIds-trans : (a b c : Db) → KeepsIds a b → KeepsIds b c → KeepsIds a c
KeepsIds-trans a b c p q u = q (p u)

module _ (j : String) (d : Driver) (id : String) (other : str_eq id j ≡ false) where
  update-SameRow :
      (f : NodeRow → NodeRow) → ((r : NodeRow) → (f r).id ≡ r.id) → Along (SameRow j) (update id f)
  update-SameRow f keeps db = ground (arith, other, find_node-update_row j id f db.nodes keeps)

  pub update_node_heartbeat-SameRow : (t : ℕ) → Along (SameRow j) (update_node_heartbeat d id t)
  unfolding update_node_heartbeat
  update_node_heartbeat-SameRow t =
      Along-statement (SameRow j) (SameRow-refl j) (SameRow-trans j) d _ _
        (update-SameRow _ (λ r. refl))

  pub update_node_status-SameRow :
      (status : String) → Along (SameRow j) (update_node_status d id status)
  unfolding update_node_status
  update_node_status-SameRow status =
      Along-statement (SameRow j) (SameRow-refl j) (SameRow-trans j) d _ _
        (update-SameRow _ (λ r. refl))

  pub update_node_compliance-SameRow :
      (pass fail warn : ℕ) → Along (SameRow j) (update_node_compliance d id pass fail warn)
  unfolding update_node_compliance
  update_node_compliance-SameRow pass fail warn =
      Along-statement (SameRow j) (SameRow-refl j) (SameRow-trans j) d _ _
        (update-SameRow _ (λ r. refl))

  pub update_node_compliance_status-SameRow :
      (status : String) → Along (SameRow j) (update_node_compliance_status d id status)
  unfolding update_node_compliance_status
  update_node_compliance_status-SameRow status =
      Along-statement (SameRow j) (SameRow-refl j) (SameRow-trans j) d _ _
        (update-SameRow _ (λ r. refl))

module _ (d : Driver) (id : String) where
  update-KeepsIds :
      (f : NodeRow → NodeRow) → ((r : NodeRow) → (f r).id ≡ r.id) → Along KeepsIds (update id f)
  update-KeepsIds f keeps db u = update_row-UniqueIds id f db.nodes keeps u

  pub update_node_heartbeat-KeepsIds : (t : ℕ) → Along KeepsIds (update_node_heartbeat d id t)
  unfolding update_node_heartbeat
  update_node_heartbeat-KeepsIds t =
      Along-statement KeepsIds KeepsIds-refl KeepsIds-trans d _ _ (update-KeepsIds _ (λ r. refl))

  pub update_node_status-KeepsIds :
      (status : String) → Along KeepsIds (update_node_status d id status)
  unfolding update_node_status
  update_node_status-KeepsIds status =
      Along-statement KeepsIds KeepsIds-refl KeepsIds-trans d _ _ (update-KeepsIds _ (λ r. refl))

  pub update_node_compliance-KeepsIds :
      (pass fail warn : ℕ) → Along KeepsIds (update_node_compliance d id pass fail warn)
  unfolding update_node_compliance
  update_node_compliance-KeepsIds pass fail warn =
      Along-statement KeepsIds KeepsIds-refl KeepsIds-trans d _ _ (update-KeepsIds _ (λ r. refl))

  pub update_node_compliance_status-KeepsIds :
      (status : String) → Along KeepsIds (update_node_compliance_status d id status)
  unfolding update_node_compliance_status
  update_node_compliance_status-KeepsIds status =
      Along-statement KeepsIds KeepsIds-refl KeepsIds-trans d _ _ (update-KeepsIds _ (λ r. refl))

  pub delete_node-KeepsIds : Along KeepsIds (delete_node d id)
  unfolding delete_node
  delete_node-KeepsIds =
      Along-statement KeepsIds KeepsIds-refl KeepsIds-trans d _ _
        (λ db. λ u. ground (arith, without_node-UniqueIds id db.nodes u))

pub append-UniqueIds :
    (rows : List NodeRow) (r : NodeRow)
    → UniqueIds rows
    → find_node r.id rows ≡ none
    → UniqueIds (rows ++ r ∷ [])
unfolding find_node
append-UniqueIds [] r u new = (refl, tt)
append-UniqueIds (s ∷ rows) r u new = (
  ground (arith, find_node-append s.id rows r, u.0, new, eq_iff s.id r.id, eq_iff r.id s.id),
  append-UniqueIds rows r u.1 (ground (arith, new)),
)
