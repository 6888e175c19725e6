-- ===== src/Audit/Ring.antt =====
-- The ring buffer of pkg/audit/audit.go holds the last events of the log, newest first.
use cloudflared_fips.Prelude.{
  ℕ, zero, suc, ◌+◌, ◌-◌, ◌≤◌, ◌<◌, ◌≡◌, refl, ap, ◌∙◌, sym, Bool, true, false, List, [], ◌∷◌, ◌++◌,
  String, min, arith, ltb, leb, length, take, drop, get_or, set, length-set, get_or-set_self,
  get_or-set_ne, length-replicate, if◌then◌else◌,
}
use mathlib.Core.List.{map, reverse, reverse-cons, append_assoc, append-nil}
use cloudflared_fips.Prelude.Int.{ℤ, before, pos_part, is_positive}
use cloudflared_fips.Audit.{
  AuditEvent, AuditLogger, blank, ring_size, new_audit_logger, stamp, push_ring, log_event,
  wrap_idx, recent_loop, total_events, clip, recent_events, has_events,
}

-- where the loop of `RecentEvents` stands after `j` rounds
abbrev cursor : ℕ → ℕ → ℕ
cursor idx j = if leb j idx then idx - j else idx + ring_size - j

-- The logger's ring holds what the history, newest first, begins with.
pub record Holds {L : Type 0} (al : AuditLogger L) (h : List AuditEvent) : Type 0 where
  pub size : length al.ring ≡ ring_size
  pub index : al.ring_idx < ring_size
  pub filling : al.ring_full ≡ false → length h ≡ al.ring_idx
  pub wrapped : al.ring_full ≡ true → ring_size ≤ length h
  pub slots :
      (k : ℕ)
      → k < length h
      → k < ring_size
      → get_or al.ring (cursor al.ring_idx (suc k)) blank ≡ get_or h k blank

new-Holds : {L : Type 0} (with_syslog : Bool) → Holds (new_audit_logger {L = L} with_syslog) []
unfolding new_audit_logger
new-Holds s = record {
  size = length-replicate ring_size blank;
  index = omega arith;
  filling = λ e. refl;
  wrapped = λ e. ground arith;
  slots = λ k h. absurd (omega arith);
}

module _ {L : Type 0} (al : AuditLogger L) (h : List AuditEvent) (inv : Holds al h)
    (evt : AuditEvent) where
  next : ℕ
  next = (push_ring evt al).ring_idx

  -- the slot that was `k + 1` steps back is `k + 2` steps back from the next index
  cursor-next : (k : ℕ) → suc k < ring_size → cursor next (suc (suc k)) ≡ cursor al.ring_idx (suc k)
  unfolding next push_ring
  cursor-next k lt = ground (arith, inv.index)

  cursor-next_first : cursor next 1 ≡ al.ring_idx
  unfolding next push_ring
  cursor-next_first = ground (arith, inv.index)

  push_ring-slots :
      (k : ℕ)
      → k < suc (length h)
      → k < ring_size
      → get_or (set al.ring al.ring_idx evt) (cursor next (suc k)) blank ≡ get_or (evt ∷ h) k blank
  push_ring-slots zero lt fits =
      rw cursor-next_first
        (get_or-set_self al.ring al.ring_idx evt blank (omega (arith, inv.size, inv.index)))
  push_ring-slots (suc k) lt fits = rw (cursor-next k fits) (
      get_or-set_ne al.ring al.ring_idx (cursor al.ring_idx (suc k)) evt blank
        (λ e. ground (arith, inv.index))
      ∙ inv.slots k (omega arith) (omega arith))

  pub push_ring-Holds : Holds (push_ring evt al) (evt ∷ h)
  unfolding push_ring next
  push_ring-Holds = record {
    size = length-set al.ring al.ring_idx evt ∙ inv.size;
    index = ground (arith, inv.index);
    filling = λ e. ground (arith, inv.index, inv.filling);
    wrapped = λ e. ground (arith, inv.index, inv.filling, inv.wrapped);
    slots = push_ring-slots;
  }

take-drop_step :
    (h : List AuditEvent) (j n : ℕ)
    → j < length h
    → take (suc n) (drop j h) ≡ get_or h j blank ∷ take n (drop (suc j) h)
take-drop_step [] j n lt = absurd (omega arith)
take-drop_step (x ∷ h) zero n lt = refl
take-drop_step (x ∷ h) (suc j) n lt = take-drop_step h j n (omega arith)

module _ {L : Type 0} (al : AuditLogger L) (h : List AuditEvent) (inv : Holds al h) where
  wrap_idx-cursor :
      (j : ℕ)
      → j < ring_size
      → wrap_idx (before (cursor al.ring_idx j)) ≡ cursor al.ring_idx (suc j)
  wrap_idx-cursor j lt = ground (arith, inv.index)

  recent_loop-take :
      (n j : ℕ)
      → j + n ≤ length h
      → j + n ≤ ring_size
      → recent_loop al.ring n (before (cursor al.ring_idx j)) ≡ take n (drop j h)
  unfolding recent_loop
  recent_loop-take zero j fits caps = refl
  recent_loop-take (suc n) j fits caps =
      rw
        (
          wrap_idx-cursor j (omega arith),
          inv.slots j (omega arith) (omega arith),
          take-drop_step h j n (omega arith),
        )
        (ap (λ r. get_or h j blank ∷ r) (recent_loop-take n (suc j) (omega arith) (omega arith)))

  total_events-min : total_events al ≡ min ring_size (length h)
  unfolding total_events
  total_events-min = ground (arith, inv.index, inv.filling, inv.wrapped)

log_event-Holds :
    {L : Type 0} (now : String) (evt : AuditEvent) (al : AuditLogger L) (h : List AuditEvent)
    → Holds al h
    → Holds (log_event now evt al).0 (stamp now evt ∷ h)
unfolding log_event
log_event-Holds now evt al h inv =
    let pushed = push_ring-Holds al h inv (stamp now evt) in
    record {
      size = pushed.size;
      index = pushed.index;
      filling = pushed.filling;
      wrapped = pushed.wrapped;
      slots = pushed.slots;
    }

-- the events logged one after the other, each with the time of its call
pub log_all : {L : Type 0} → List (String × AuditEvent) → AuditLogger L → AuditLogger L
log_all [] al = al
log_all ((now, evt) ∷ rest) al = log_all rest (log_event now evt al).0

abbrev stamped : String × AuditEvent → AuditEvent
stamped p = stamp p.0 p.1

abbrev history : List (String × AuditEvent) → List AuditEvent
history events = reverse (map stamped events)

log_all-Holds :
    {L : Type 0} (events : List (String × AuditEvent)) (al : AuditLogger L) (h : List AuditEvent)
    → Holds al h
    → Holds (log_all events al) (history events ++ h)
unfolding log_all
log_all-Holds [] al h inv = inv
log_all-Holds ((now, evt) ∷ rest) al h inv =
    rw (reverse-cons, append_assoc)
      (log_all-Holds rest (log_event now evt al).0 (stamp now evt ∷ h)
        (log_event-Holds now evt al h inv))

recent_events-take :
    {L : Type 0} (al : AuditLogger L) (h : List AuditEvent) (limit : ℤ)
    → Holds al h
    → let total = min ring_size (length h) in
      recent_events limit al
      ≡ take (if is_positive limit then min (pos_part limit) total else total) h
unfolding recent_events
recent_events-take al h limit inv =
    let total = total_events al in
    let known = total_events-min al h inv in
    let n = clip limit total in
    let start : cursor al.ring_idx 0 ≡ al.ring_idx = ground arith in
    let fits : n ≤ total = ground arith in
    let same : n ≡ (if is_positive limit then min (pos_part limit) total else total) =
      ground arith in
    rw (← known) (
      ap (λ i. recent_loop al.ring n (before i)) (sym start)
      ∙ recent_loop-take al h inv n 0 (omega arith) (omega arith)
      ∙ ap (λ k. take k h) same)

logged-Holds :
    (L : Type 0) (with_syslog : Bool) (events : List (String × AuditEvent))
    → Holds (log_all events (new_audit_logger {L = L} with_syslog)) (history events)
logged-Holds L with_syslog events =
    rw append-nil at
      (log_all-Holds {L = L} events (new_audit_logger with_syslog) [] (new-Holds with_syslog))

-- However many events a new logger has logged, `RecentEvents` returns the last of them, newest
-- first: as many as the limit asks for, or, where the limit is not positive, as many as there are,
-- and at most the 1000 that the ring holds.
pub recent_events-history :
    (L : Type 0) (with_syslog : Bool) (events : List (String × AuditEvent)) (limit : ℤ)
    → let total = min ring_size (length (history events)) in
      recent_events limit (log_all events (new_audit_logger {L = L} with_syslog))
      ≡ take (if is_positive limit then min (pos_part limit) total else total) (history events)
recent_events-history L with_syslog events limit =
    recent_events-take (log_all events (new_audit_logger with_syslog)) (history events) limit
      (logged-Holds L with_syslog events)

-- `HasEvents` is true exactly when the new logger has logged an event.
has_events-history :
    (L : Type 0) (with_syslog : Bool) (events : List (String × AuditEvent))
    → has_events (log_all events (new_audit_logger {L = L} with_syslog))
      ≡ ltb 0 (length (history events))
unfolding has_events
has_events-history L with_syslog events =
    let inv = logged-Holds L with_syslog events in
    ground (arith, inv.index, inv.filling, inv.wrapped)
