-- ===== src/Fleet/Monitor/Staleness.antt =====
-- What one check of pkg/fleet/monitor.go makes of each node.
use cloudflared_fips.Prelude.{
  ℕ, ◌+◌, ◌≤◌, ◌≡◌, refl, ◌∙◌, ap, sym, String, false, ◌&&◌, List, [], ◌∷◌, map, Option, none, some,
  arith, ltb, str_eq, eq_iff, eq_refl, if◌then◌else◌, Option-cases, inl, inr,
}
use mathlib.Core.Option
use cloudflared_fips.Fleet.Types.{Node, online, degraded, offline}
use cloudflared_fips.Fleet.Db.{NodeRow, Driver, update_status, select_nodes, parse_time}
use cloudflared_fips.Fleet.Nodes.{find_node, scan_node, select_rows, update_row}
use cloudflared_fips.Fleet.Nodes.Laws.{
  UniqueIds, or_else, update_row-UniqueIds, find_node-cons, find_node-empty, find_node-update_row,
  update_node_status-done, list_nodes-done,
}
use cloudflared_fips.Fleet.Nodes.Selection.{find_node-select_all, select_rows-UniqueIds}
use cloudflared_fips.Fleet.Monitor.{
  Monitor, Fleet, next_status, check_node, check_nodes, check, all_nodes,
}

-- The status that a check leaves: offline past the second limit, degraded past the first if the
-- node was online, and else the old one.
pub aged_status : Monitor → ℕ → ℕ → String → String
aged_status m now heartbeat status =
    if ltb (heartbeat + m.offline_after) now
    then offline
    else if ltb (heartbeat + m.degraded_after) now && str_eq status online
    then degraded
    else status

-- The row with that status, and nothing else changed.
abbrev pub aged : Monitor → ℕ → NodeRow → NodeRow
aged m now r = record r { status = aged_status m now (parse_time r.last_heartbeat) r.status }

-- The driver fails none of the statements of a check.
pub record IsWorking (d : Driver) : Type 0 where
  pub lists : d.fails select_nodes ≡ false
  pub updates : (id : String) → d.fails (update_status id) ≡ false

-- The new status, if there is one, is the aged one.
next_status-aged :
    (m : Monitor) (now : ℕ) (n : Node)
    → or_else (next_status m now n) (some n.status)
      ≡ some (aged_status m now n.last_heartbeat n.status)
unfolding next_status aged_status
next_status-aged m now n =
    ground (arith, eq_iff n.status offline, eq_iff n.status online, eq_iff offline online)

module _ (d : Driver) (m : Monitor) (now : ℕ) (working : IsWorking d) where
  check_node-changed :
      (r : NodeRow) (f : Fleet) (s : String)
      → next_status m now (scan_node r) ≡ some s
      → (check_node d m now (scan_node r) f).db.nodes
        ≡ update_row r.id (λ q. record q { status = s }) f.db.nodes
  unfolding check_node scan_node
  check_node-changed r f s e =
      rw (e, check_node, update_node_status-done d r.id s f.db (working.updates r.id)) refl

  check_node-same :
      (r : NodeRow) (f : Fleet)
      → next_status m now (scan_node r) ≡ none
      → check_node d m now (scan_node r) f ≡ f
  unfolding check_node
  check_node-same r f e = rw (e, check_node)

  -- One node: the row with its id ages, if it is still as it was read.
  find_node-check_node :
      (r : NodeRow) (f : Fleet) (j : String)
      → find_node r.id f.db.nodes ≡ some r
      → find_node j (check_node d m now (scan_node r) f).db.nodes
        ≡ (if str_eq r.id j then some (aged m now r) else find_node j f.db.nodes)
  unfolding scan_node
  find_node-check_node r f j same =
      let to = next_status-aged m now (scan_node r) in
      elim (Option-cases (next_status m now (scan_node r))) [
        | inl e ↦ rw (check_node-same r f e) (ground (arith, e, to, same, eq_iff r.id j))
        | inr (s, e) ↦
            rw (check_node-changed r f s e, find_node-update_row)
              (ground (arith, e, to, same, eq_iff r.id j))
      ]

  -- what the checks of the listed rows leave of the row of an id
  abbrev after : Option NodeRow → Option NodeRow → Option NodeRow
  after none old = old
  after (some r) old = some (aged m now r)

  find_node-check_nodes :
      (rows : List NodeRow) (f : Fleet)
      → UniqueIds rows
      → ((j : String) (r : NodeRow) → find_node j rows ≡ some r → find_node j f.db.nodes ≡ some r)
      → (j : String)
      → find_node j (check_nodes d m now (map scan_node rows) f).db.nodes
        ≡ after (find_node j rows) (find_node j f.db.nodes)
  unfolding check_nodes
  find_node-check_nodes [] f u same j = rw find_node-empty
  find_node-check_nodes (r ∷ rows) f u same j =
      let f' = check_node d m now (scan_node r) f in
      let here = same r.id r (rw (find_node-cons, eq_refl)) in
      let same' : (k : String) (q : NodeRow)
          → find_node k rows ≡ some q
          → find_node k f'.db.nodes ≡ some q =
        λ k q e. ground (
          arith,
          eq_iff r.id k,
          find_node-check_node r f k here,
          find_node-cons k r rows,
          same k q,
        ) in
      find_node-check_nodes rows f' u.1 same' j
      ∙ ground (arith, eq_iff r.id j, find_node-check_node r f j here, find_node-cons j r rows)

  check_node-UniqueIds :
      (r : NodeRow) (f : Fleet)
      → UniqueIds f.db.nodes
      → UniqueIds (check_node d m now (scan_node r) f).db.nodes
  check_node-UniqueIds r f u = elim (Option-cases (next_status m now (scan_node r))) [
    | inl e ↦ rw (check_node-same r f e) u
    | inr (s, e) ↦
        rw (check_node-changed r f s e)
          (update_row-UniqueIds r.id (λ q. record q { status = s }) f.db.nodes (λ q. refl) u)
  ]

  check_nodes-UniqueIds :
      (rows : List NodeRow) (f : Fleet)
      → UniqueIds f.db.nodes
      → UniqueIds (check_nodes d m now (map scan_node rows) f).db.nodes
  unfolding check_nodes
  check_nodes-UniqueIds [] f u = u
  check_nodes-UniqueIds (r ∷ rows) f u =
      check_nodes-UniqueIds rows (check_node d m now (scan_node r) f) (check_node-UniqueIds r f u)

  check-listed :
      (f : Fleet)
      → check d m now f ≡ check_nodes d m now (map scan_node (select_rows all_nodes f.db.nodes)) f
  unfolding check
  check-listed f = rw (list_nodes-done d all_nodes f.db working.lists)

-- One check with a working driver ages the row of every node: a node that was silent for longer than
-- the second limit is offline, an online one that was silent for longer than the first is degraded,
-- any other keeps its status, and nothing else of a row changes. The ids stay unique.
pub check-aged :
    (d : Driver) (m : Monitor) (now : ℕ) (f : Fleet)
    → IsWorking d
    → UniqueIds f.db.nodes
    → ((j : String)
        → find_node j (check d m now f).db.nodes ≡ Option.map (aged m now) (find_node j f.db.nodes))
      × UniqueIds (check d m now f).db.nodes
check-aged d m now f working u =
    let rows = select_rows all_nodes f.db.nodes in
    (
      λ j. rw (check-listed d m now working f) (
          find_node-check_nodes d m now working rows f
            (select_rows-UniqueIds all_nodes f.db.nodes u)
            (λ k r e. sym (find_node-select_all k f.db.nodes u) ∙ e) j
          ∙ ground (arith, find_node-select_all j f.db.nodes u)),
      rw (check-listed d m now working f) (check_nodes-UniqueIds d m now working rows f u),
    )

aged-aged : (m : Monitor) (now : ℕ) (r : NodeRow) → aged m now (aged m now r) ≡ aged m now r
unfolding aged_status
aged-aged m now r = ground (arith, eq_iff degraded online)

map-aged :
    (m : Monitor) (now : ℕ) (o : Option NodeRow)
    → Option.map (aged m now) (Option.map (aged m now) o) ≡ Option.map (aged m now) o
map-aged m now none = refl
map-aged m now (some r) = ap some (aged-aged m now r)

-- A second check at the same time changes no row, where the driver works and the ids are unique.
pub check-settled :
    (d : Driver) (m : Monitor) (now : ℕ) (f : Fleet) (j : String)
    → IsWorking d
    → UniqueIds f.db.nodes
    → find_node j (check d m now (check d m now f)).db.nodes
      ≡ find_node j (check d m now f).db.nodes
check-settled d m now f j working u =
    let (once, unique) = check-aged d m now f working u in
    let (twice, _) = check-aged d m now (check d m now f) working unique in
    twice j
    ∙ ap (Option.map (aged m now)) (once j)
    ∙ map-aged m now (find_node j f.db.nodes)
    ∙ sym (once j)

-- A node that was heard of within both limits keeps its row in a check, where the driver works and the
-- ids are unique.
pub check-fresh :
    (d : Driver) (m : Monitor) (now : ℕ) (f : Fleet) (j : String) (r : NodeRow)
    → IsWorking d
    → UniqueIds f.db.nodes
    → find_node j f.db.nodes ≡ some r
    → now ≤ parse_time r.last_heartbeat + m.degraded_after
    → now ≤ parse_time r.last_heartbeat + m.offline_after
    → find_node j (check d m now f).db.nodes ≡ some r
unfolding aged_status
check-fresh d m now f j r working u e fresh alive =
    (check-aged d m now f working u).0 j ∙ ground (arith, e)
