-- ===== src/Auth/Access.antt =====
-- Who passes the middleware of internal/dashboard/auth.go, and what a request does to the tracker.
use cloudflared_fips.Prelude.{
  ℕ, ◌≡◌, ◌≢◌, String, false, [], ◌∷◌, none, arith, eq_iff, eq_refl, Bool-cases, Option-cases, inl,
  inr,
}
use cloudflared_fips.Prelude.Assoc.{
  lookup, remove, lookup-remove, lookup-insert_ne, lookup-remove_ne,
}
use cloudflared_fips.Prelude.Text.{trim_prefix}
use cloudflared_fips.Audit.{AuditEvent}
use cloudflared_fips.Auth.{
  AuthMiddleware, Request, Readings, passed, since_exceeds, is_locked_out, record_failure,
  clear_failures, extract_ip, is_public, serve_http, log_audit,
}

-- A request to a guarded path passes only with the configured token, from an address that is not
-- locked out; then the tracker forgets the failures of the address.
pub serve_http-passed :
    (t : Readings) (r : Request) (am : AuthMiddleware)
    → is_public am.token r ≡ false
    → (serve_http t r am).1 ≡ passed
    → (trim_prefix r.authorization "Bearer " ≡ am.token)
      × ((is_locked_out t.check (extract_ip r) am).1 ≡ false)
      × (lookup (extract_ip r) (serve_http t r am).0.fail_tracker ≡ none)
unfolding serve_http clear_failures is_locked_out
serve_http-passed t r am guarded e = ground (
  arith,
  eq_iff (trim_prefix r.authorization "Bearer ") am.token,
  eq_refl (extract_ip r),
  lookup-remove (extract_ip r) (extract_ip r) am.fail_tracker,
  lookup-remove (extract_ip r) (extract_ip r) (remove (extract_ip r) am.fail_tracker),
)

module _ (sender ip : String) (other : sender ≢ ip) where
  record_failure-other :
      (since now : ℕ) (am : AuthMiddleware)
      → lookup ip (record_failure since now sender am).fail_tracker ≡ lookup ip am.fail_tracker
  unfolding record_failure
  record_failure-other since now am = elim (Option-cases (lookup sender am.fail_tracker)) [
    | inl e ↦ rw (e, record_failure) (lookup-insert_ne sender ip _ am.fail_tracker other)
    | inr (fa, e) ↦ elim (Bool-cases (since_exceeds since fa.last_fail am.fail_window)) [
      | inl old ↦ rw (e, record_failure, old) (lookup-insert_ne sender ip _ am.fail_tracker other)
      | inr new ↦ rw (e, record_failure, new) (lookup-insert_ne sender ip _ am.fail_tracker other)
    ]
  ]

  is_locked_out-other :
      (now : ℕ) (am : AuthMiddleware)
      → lookup ip (is_locked_out now sender am).0.fail_tracker ≡ lookup ip am.fail_tracker
  unfolding is_locked_out
  is_locked_out-other now am = ground (arith, lookup-remove_ne sender ip am.fail_tracker other)

-- A request leaves what the tracker knows of every other address as it was.
pub serve_http-other :
    (t : Readings) (r : Request) (am : AuthMiddleware) (ip : String)
    → extract_ip r ≢ ip
    → lookup ip (serve_http t r am).0.fail_tracker ≡ lookup ip am.fail_tracker
unfolding serve_http clear_failures
serve_http-other t r am ip other =
    let sender = extract_ip r in
    let am' = (is_locked_out t.check sender am).0 in
    ground (
      arith,
      is_locked_out-other sender ip other t.check am,
      record_failure-other sender ip other t.since t.now am',
      lookup-remove_ne sender ip am'.fail_tracker other,
    )

-- Every event that a request audits is an authentication attempt that names no resource.
pub serve_http-event :
    (t : Readings) (r : Request) (am : AuthMiddleware) (evt : AuditEvent)
    → (serve_http t r am).2 ≡ evt ∷ []
    → (evt.event_type ≡ "auth_attempt") × (evt.resource ≡ "")
unfolding serve_http log_audit
serve_http-event t r am evt e = ground arith
