-- ===== src/Fleet/Monitor.antt =====
-- pkg/fleet/monitor.go: the periodic check that marks silent nodes degraded or offline. The event
-- channel is its buffer: a send is made if there is room, and dropped if there is none.
pub mod Staleness
use cloudflared_fips.Prelude.{
  ℕ, ◌+◌, ◌*◌, String, Bool, true, false, not, ◌&&◌, List, [], ◌∷◌, ◌++◌, Option, none, some, ltb,
  ◌==◌, str_eq, if◌then◌else◌, length,
}
use cloudflared_fips.Prelude.Text.{concat}
use cloudflared_fips.Fleet.Types.{Node, NodeFilter, FleetEvent, online, degraded, offline}
use cloudflared_fips.Fleet.Db.{Db, Driver, Result, ok, err, second}
use cloudflared_fips.Fleet.Nodes.{list_nodes, update_node_status}

-- `none` for a nil channel
pub record Channel : Type 0 where
  pub buffer : List FleetEvent
  pub capacity : ℕ

-- `select { case ch <- e: default: }`
pub try_send : FleetEvent → Option Channel → Option Channel
try_send e none = none
try_send e (some ch) =
    some (
      if ltb (length ch.buffer) ch.capacity then record ch { buffer = ch.buffer ++ e ∷ [] } else ch)

pub record Monitor : Type 0 where
  pub degraded_after : ℕ
  pub offline_after : ℕ
  pub check_interval : ℕ

abbrev or_default : ℕ → ℕ → ℕ
or_default n default = if n == 0 then default else n

-- `NewMonitor`: a zero duration takes its default.
new_monitor : ℕ → ℕ → ℕ → Monitor
new_monitor degraded_after offline_after check_interval = record {
  degraded_after = or_default degraded_after (90 * second);
  offline_after = or_default offline_after (180 * second);
  check_interval = or_default check_interval (30 * second);
}

-- `now.Sub(t) > d`
abbrev elapsed_exceeds : ℕ → ℕ → ℕ → Bool
elapsed_exceeds now t d = ltb (t + d) now

-- the new status of a node, if it changes
pub next_status : Monitor → ℕ → Node → Option String
next_status m now node =
    if elapsed_exceeds now node.last_heartbeat m.offline_after && not (str_eq node.status offline)
    then some offline
    else if elapsed_exceeds now node.last_heartbeat m.degraded_after && str_eq node.status online
    then some degraded
    else none

pub record Fleet : Type 0 where
  pub db : Db
  pub events : Option Channel

abbrev status_event : Node → String → ℕ → FleetEvent
status_event node status now = record {
  kind = concat "node_" status;
  node = record node { status = status };
  time = now;
}

-- `UpdateNodeStatus` and the event, which is not sent if the update failed
abbrev announce : Node → String → ℕ → Option Channel → Db × Result (Unit {0}) → Fleet
announce node status now events (db, ok _) = record {
  db = db;
  events = try_send (status_event node status now) events;
}
announce node status now events (db, err _) = record { db = db; events = events }

pub check_node : Driver → Monitor → ℕ → Node → Fleet → Fleet
unfolding next_status
check_node d m now node f = elim (next_status m now node) [
  | none ↦ f
  | some status ↦ announce node status now f.events (update_node_status d node.id status f.db)
]

pub check_nodes : Driver → Monitor → ℕ → List Node → Fleet → Fleet
check_nodes d m now [] f = f
check_nodes d m now (node ∷ rest) f = check_nodes d m now rest (check_node d m now node f)

abbrev all_nodes : NodeFilter
all_nodes = record { role = ""; region = ""; status = "" }

abbrev check_listed : Driver → Monitor → ℕ → Fleet → Result (List Node) → Fleet
check_listed d m now f (ok nodes) = check_nodes d m now nodes f
check_listed d m now f (err _) = f

pub check : Driver → Monitor → ℕ → Fleet → Fleet
unfolding check_nodes
check d m now f = check_listed d m now f (list_nodes d all_nodes f.db).1
