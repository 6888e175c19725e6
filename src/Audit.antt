-- ===== src/Audit.antt =====
-- pkg/audit/audit.go: the audit logger with its ring buffer of recent events. `time.Now`, the file
-- and syslog belong to the caller: the file and syslog are the lines that are handed to them, and a
-- listener is a handle, `L`. The proofs are in the children.
pub mod Ring
mod Tests
use cloudflared_fips.Prelude.{
  ℕ, zero, suc, ◌+◌, ◌-◌, String, Bool, true, false, not, ◌||◌, List, [], ◌∷◌, ◌++◌, map, Option,
  none, some, ltb, leb, str_eq, set, get_or, replicate, if◌then◌else◌,
}
use cloudflared_fips.Prelude.Int.{ℤ, pos, negsuc, before, pos_part, is_positive}

pub record AuditEvent : Type 0 where
  pub timestamp : String
  pub event_type : String
  pub severity : String
  pub actor : String
  pub resource : String
  pub action : String
  pub detail : String
  pub nist_ref : String

abbrev pub blank : AuditEvent
blank = record {
  timestamp = "";
  event_type = "";
  severity = "";
  actor = "";
  resource = "";
  action = "";
  detail = "";
  nist_ref = "";
}

abbrev pub ring_size : ℕ
ring_size = 1000

-- the method of the syslog writer that a line goes to
pub data SyslogCall : Type 0 where
  crit warn info : SyslogCall

pub record AuditLogger (L : Type 0) : Type 0 where
  pub file : Option (List AuditEvent)
  pub syslog : Option (List (SyslogCall × AuditEvent))
  pub ring : List AuditEvent
  pub ring_idx : ℕ
  pub ring_full : Bool
  pub listeners : List L

-- `NewAuditLogger` once the directory and the file are open; the option is syslog.
pub new_audit_logger : {L : Type 0} → Bool → AuditLogger L
new_audit_logger with_syslog = record {
  file = some [];
  syslog = if with_syslog then some [] else none;
  ring = replicate ring_size blank;
  ring_idx = 0;
  ring_full = false;
  listeners = [];
}

abbrev syslog_call : String → SyslogCall
syslog_call severity =
    if str_eq severity "critical" then crit else if str_eq severity "warning" then warn else info

abbrev append_line : {A : Type 0} → A → Option (List A) → Option (List A)
append_line line none = none
append_line line (some lines) = some (lines ++ line ∷ [])

abbrev pub stamp : String → AuditEvent → AuditEvent
stamp now evt = if str_eq evt.timestamp "" then record evt { timestamp = now } else evt

-- the assignments to the ring, its index and its flag
pub push_ring : {L : Type 0} → AuditEvent → AuditLogger L → AuditLogger L
push_ring evt al =
    let next = al.ring_idx + 1 in
    let wraps = leb ring_size next in
    record al {
      ring = set al.ring al.ring_idx evt;
      ring_idx = if wraps then 0 else next;
      ring_full = wraps || al.ring_full;
    }

-- `Log`: the new state, and the calls of the listeners that are made once the lock is released.
pub log_event :
    {L : Type 0} → String → AuditEvent → AuditLogger L → AuditLogger L × List (L × AuditEvent)
log_event now evt al =
    let e = stamp now evt in
    let al' = push_ring e al in
    (
      record al' {
        file = append_line e al.file;
        syslog = append_line (syslog_call e.severity, e) al.syslog;
      },
      map (λ l. (l, e)) al.listeners,
    )

pub add_listener : {L : Type 0} → L → AuditLogger L → AuditLogger L
add_listener l al = record al { listeners = al.listeners ++ l ∷ [] }

-- `if idx < 0 { idx = ringSize - 1 }`
abbrev wrap_idx : ℤ → ℕ
wrap_idx (pos i) = i
wrap_idx (negsuc _) = ring_size - 1

-- the loop of `RecentEvents`: the rounds left, and `idx`
recent_loop : List AuditEvent → ℕ → ℤ → List AuditEvent
recent_loop ring zero idx = []
recent_loop ring (suc n) idx =
    get_or ring (wrap_idx idx) blank ∷ recent_loop ring n (before (wrap_idx idx))

pub total_events : {L : Type 0} → AuditLogger L → ℕ
total_events al = if al.ring_full then ring_size else al.ring_idx

-- `if limit <= 0 || limit > total { limit = total }`
abbrev pub clip : ℤ → ℕ → ℕ
clip limit total =
    if not (is_positive limit) || ltb total (pos_part limit) then total else pos_part limit

pub recent_events : {L : Type 0} → ℤ → AuditLogger L → List AuditEvent
unfolding recent_loop total_events
recent_events limit al =
    let total = total_events al in recent_loop al.ring (clip limit total) (before al.ring_idx)

pub has_events : {L : Type 0} → AuditLogger L → Bool
has_events al = al.ring_full || ltb 0 al.ring_idx
