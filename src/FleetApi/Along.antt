-- ===== src/FleetApi/Along.antt =====
-- Relations between the database before and after a handler of internal/dashboard/fleet_handler.go:
-- what holds of each call of the store holds of the handler.
use cloudflared_fips.Prelude.{ℕ, ◌≡◌, refl, ◌⊎◌, String, inl, inr, some, str_eq, Bool-cases}
use cloudflared_fips.Prelude.Text.{trim_prefix}
use cloudflared_fips.Fleet.Types.{Node}
use cloudflared_fips.Fleet.Db.{Db, NodeRow, Driver, Result, Result-cases, ok, err}
use cloudflared_fips.Fleet.Nodes.{find_key, scan_node, get_node_by_api_key}
use cloudflared_fips.Fleet.Nodes.Laws.{db-get_node_by_api_key, get_node_by_api_key-inv}
use cloudflared_fips.FleetApi.{FleetHandler, Handler, Response, as_node, error, emit_found}

pub db-emit_found :
    (kind : String) (r : Result Node) (now : ℕ) (fh : FleetHandler)
    → (emit_found kind r now fh).db ≡ fh.db
db-emit_found kind (ok node) now fh = refl
db-emit_found kind (err e) now fh = refl

-- A node's request is refused and changes nothing, or its handler runs for the row of its API key.
pub as_node-cases :
    (hash : String → String) (d : Driver) (auth : String) (next : Node → Handler)
    (fh : FleetHandler)
    → ((r : Response) × (as_node hash d auth next fh ≡ (fh, r)))
      ⊎ ((row : NodeRow) × (find_key (hash (trim_prefix auth "Bearer ")) fh.db.nodes ≡ some row)
          × (as_node hash d auth next fh ≡ next (scan_node row) fh))
as_node-cases hash d auth next fh =
    let key = hash (trim_prefix auth "Bearer ") in
    let kept = db-get_node_by_api_key d key fh.db in
    elim (Bool-cases (str_eq auth "")) [
      | inl absent ↦
          inl (record { code = 401; body = error "authorization required" }, rw absent refl)
      | inr given ↦ elim (Result-cases (get_node_by_api_key d key fh.db).1) [
        | inr (e, failed) ↦ inl (
          record { code = 403; body = error "invalid credentials" },
          rw (given, failed, kept) refl,
        )
        | inl (node, found) ↦
            let (row, known, scanned) = get_node_by_api_key-inv d key fh.db node found in
            inr (row, known, rw (given, found, kept, scanned) refl)
      ]
    ]

module _ (R : Db → Db → Type 0) where
  abbrev pub Handles : Handler → Type 0
  Handles h = (fh : FleetHandler) → R fh.db (h fh).0.db
