-- ===== src/Alerts/Logins.antt =====
-- The audit events of internal/dashboard/auth.go as pkg/alerts/alerts.go sees them: they name no
-- resource, so refused logins from all addresses share one cooldown.
use cloudflared_fips.Prelude.{
  ℕ, ◌+◌, ◌<◌, ◌≡◌, ◌∙◌, refl, inl, inr, String, List, [], ◌∷◌, none, some, arith, All, Bool-cases,
  str_eq, eq_iff,
}
use cloudflared_fips.Prelude.Assoc.{lookup, lookup-insert, lookup-insert_self}
use cloudflared_fips.Audit.{AuditEvent, stamp}
use cloudflared_fips.Auth.Access.{serve_http-event}
use cloudflared_fips.Auth.{AuthMiddleware, Request, Readings, serve_http}
use cloudflared_fips.Alerts.{AlertManager, WebhookPayload, cooldown_key, cooling, on_event}
use cloudflared_fips.Alerts.Cooldown.{Arrival, on_event-cases}

-- the event reaches the listener as one call of the middleware logs it
pub record IsLoginEvent (evt : AuditEvent) : Type 0 where
  pub readings : Readings
  pub request : Request
  pub middleware : AuthMiddleware
  pub logged_at : String
  pub raw : AuditEvent
  pub logged : (serve_http readings request middleware).2 ≡ raw ∷ []
  pub stamped : evt ≡ stamp logged_at raw

login-key : (evt : AuditEvent) → IsLoginEvent evt → cooldown_key evt ≡ "auth_attempt:"
unfolding cooldown_key
login-key evt l =
    let (kind, place) = serve_http-event l.readings l.request l.middleware l.raw l.logged in
    let kind' : evt.event_type ≡ "auth_attempt" = ground (arith, l.stamped) in
    let place' : evt.resource ≡ "" = ground (arith, l.stamped) in rw (kind', place')

-- A sent alert leaves its time in the entry of its key.
on_event-entry :
    (since now : ℕ) (evt : AuditEvent) (am am' : AlertManager)
    (out : List (String × WebhookPayload))
    → on_event since now evt am ≡ (am', some out)
    → (lookup (cooldown_key evt) am'.cooldowns ≡ some now) × (am'.cooldown ≡ am.cooldown)
unfolding on_event
on_event-entry since now evt am am' out e =
    ground (arith, lookup-insert_self (cooldown_key evt) now am.cooldowns)

-- the manager after the events that come one after the other
pub arrived : List Arrival → AlertManager → AlertManager
arrived [] am = am
arrived (a ∷ rest) am = arrived rest (on_event a.since a.now a.evt am).0

-- While a key cools, an event leaves its entry and the cooldown as they are.
on_event-kept :
    (a : Arrival) (key : String) (last : ℕ) (am : AlertManager)
    → lookup key am.cooldowns ≡ some last
    → a.since < last + am.cooldown
    → let am' = (on_event a.since a.now a.evt am).0 in
      (lookup key am'.cooldowns ≡ some last) × (am'.cooldown ≡ am.cooldown)
unfolding cooling
on_event-kept a key last am known early = elim (on_event-cases am a) [
  | inl e ↦ rw e (known, refl)
  | inr (out, e, warm) ↦ elim (Bool-cases (str_eq (cooldown_key a.evt) key)) [
    | inl same ↦
        let here = (eq_iff (cooldown_key a.evt) key).0 same in
        absurd (let cold = rw here at warm in ground (arith, cold, known, early))
    | inr other ↦ rw (e, lookup-insert, other) (known, refl)
  ]
]

arrived-kept :
    (events : List Arrival) (key : String) (last : ℕ) (am : AlertManager)
    → lookup key am.cooldowns ≡ some last
    → All (λ a. a.since < last + am.cooldown) events
    → (lookup key (arrived events am).cooldowns ≡ some last)
      × ((arrived events am).cooldown ≡ am.cooldown)
unfolding arrived
arrived-kept [] key last am known early = (known, refl)
arrived-kept (a ∷ rest) key last am known (now_early, early) =
    let am' = (on_event a.since a.now a.evt am).0 in
    let (known', kept) = on_event-kept a key last am known now_early in
    let (end, same) = arrived-kept rest key last am' known' (rw kept early) in (end, same ∙ kept)

-- Once an alert has gone out for a login event, no login event, refused or locked out, from whatever
-- address, is alerted before the cooldown has passed: whatever events come in between, each read
-- before then, the event is dropped and leaves the manager as it is.
pub login_alerts-share :
    (evt evt' : AuditEvent) (am am' : AlertManager) (out : List (String × WebhookPayload))
    (since now since' now' : ℕ) (between : List Arrival)
    → IsLoginEvent evt
    → IsLoginEvent evt'
    → on_event since now evt am ≡ (am', some out)
    → All (λ a. a.since < now + am.cooldown) between
    → since' < now + am.cooldown
    → on_event since' now' evt' (arrived between am') ≡ (arrived between am', none)
unfolding on_event cooling
login_alerts-share evt evt' am am' out since now since' now' between l l' sent earlier early =
    let (entry, kept) = on_event-entry since now evt am am' out sent in
    let key' = login-key evt' l' in
    let begun : lookup "auth_attempt:" am'.cooldowns ≡ some now = rw (login-key evt l) at entry in
    let (known, same) = arrived-kept between "auth_attempt:" now am' begun (rw kept earlier) in
    ground (arith, key', known, same, kept)
