-- ===== src/FleetApi/Views/Routing.antt =====
-- What the routing table of internal/dashboard/fleet_handler.go (`HandleGetRoutes`) routes to.
use cloudflared_fips.Prelude.{
  ◌≡◌, refl, ◌∙◌, ap, String, Bool, false, not, ◌&&◌, ◌||◌, List, [], ◌∷◌, map, Option, none, some,
  arith, str_eq, eq_iff, if◌then◌else◌, Bool-cases, inl, inr,
}
use cloudflared_fips.Fleet.Types.{
  CompliancePolicy, online, compliant, compliance_unknown, role_server,
}
use cloudflared_fips.Fleet.Db.{NodeRow, Driver, select_nodes}
use cloudflared_fips.Fleet.Nodes.{find_node, select_rows, scan_node, selects}
use cloudflared_fips.Fleet.Nodes.Laws.{UniqueIds, list_nodes-done, find_node-cons, find_node-empty}
use cloudflared_fips.Fleet.Nodes.Selection.{keep_selected, find_node-select_rows}
use cloudflared_fips.FleetApi.{FleetHandler, Route, all_routes}
use cloudflared_fips.FleetApi.Views.{is_routable, route_of, servers, handle_get_routes}

abbrev find_route : String → List Route → Option Route
find_route id [] = none
find_route id (r ∷ routes) = if str_eq r.node_id id then some r else find_route id routes

-- The table routes to the node of the id.
abbrev pub routes_to : String → List Route → Bool
routes_to id routes = elim (find_route id routes) [ none ↦ false | some r ↦ r.routable ]

-- A node that traffic may go to: an online server, and a compliant one if the policy is enforced.
abbrev pub serves : CompliancePolicy → Option NodeRow → Bool
serves p none = false
serves p (some r) =
    str_eq r.role role_server
    && str_eq r.status online
    && (not (str_eq p.enforcement_mode "enforce") || str_eq r.compliance_status compliant)

route_for : CompliancePolicy → Option NodeRow → Option Route
route_for p none = none
route_for p (some r) = some (route_of p (scan_node r))

find_route-map :
    (p : CompliancePolicy) (id : String) (rows : List NodeRow)
    → find_route id (map (route_of p) (map scan_node rows)) ≡ route_for p (find_node id rows)
unfolding route_for scan_node
find_route-map p id [] = rw (find_node-empty id) refl
find_route-map p id (r ∷ rows) = ground (arith, find_node-cons id r rows, find_route-map p id rows)

-- A scan turns the empty status into `unknown`, and neither is compliant.
scanned-compliant :
    (status : String)
    → str_eq (if str_eq status "" then compliance_unknown else status) compliant
      ≡ str_eq status compliant
scanned-compliant status = elim (Bool-cases (str_eq status "")) [
  | inl empty ↦ rw (empty, (eq_iff status "").0 empty) refl
  | inr set ↦ rw set refl
]

routable-serves :
    (p : CompliancePolicy) (o : Option NodeRow)
    → (elim (route_for p (keep_selected servers o)) [ none ↦ false | some r ↦ r.routable ])
      ≡ serves p o
unfolding route_for scan_node is_routable selects
routable-serves p none = refl
routable-serves p (some r) = elim (Bool-cases (str_eq r.role role_server)) [
  | inl server ↦ rw server (ground (arith, scanned-compliant r.compliance_status))
  | inr other ↦ rw other refl
]

-- Where the driver does not fail the list of nodes and no two nodes have one id, `handle_get_routes`
-- answers with 200 and a table that routes to a node of an id exactly if it is stored, is an online
-- server and, in the mode `enforce`, is compliant. In every other mode it routes to a server that is
-- not compliant too.
pub handle_get_routes-serves :
    (d : Driver) (fh : FleetHandler)
    → d.fails select_nodes ≡ false
    → UniqueIds fh.db.nodes
    → (routes : List Route) × (handle_get_routes d fh
        ≡ (fh, record { code = 200; body = all_routes routes }))
      × ((id : String) → routes_to id routes ≡ serves fh.policy (find_node id fh.db.nodes))
unfolding handle_get_routes
handle_get_routes-serves d fh works u =
    let rows = select_rows servers fh.db.nodes in
    (
      map (route_of fh.policy) (map scan_node rows),
      ground (arith, list_nodes-done d servers fh.db works),
      λ id.
          ap (λ (o : Option Route). elim o [ none ↦ false | some r ↦ r.routable ])
            (find_route-map fh.policy id rows
              ∙ ap (route_for fh.policy) (find_node-select_rows servers id fh.db.nodes u))
          ∙ routable-serves fh.policy (find_node id fh.db.nodes),
    )
