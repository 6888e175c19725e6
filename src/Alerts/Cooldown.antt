-- ===== src/Alerts/Cooldown.antt =====
-- The cooldown of pkg/alerts/alerts.go: no two alerts of one event type and resource come closer
-- than the cooldown.
use cloudflared_fips.Prelude.{
  ℕ, ◌+◌, ◌≤◌, ◌≡◌, String, true, false, List, [], ◌∷◌, none, some, arith, str_eq, eq_iff, All,
  Bool-cases, ◌⊎◌, inl, inr,
}
use cloudflared_fips.Prelude.Assoc.{lookup, insert, lookup-insert, lookup-insert_self}
use cloudflared_fips.Audit.{AuditEvent}
use cloudflared_fips.Alerts.{
  AlertManager, WebhookPayload, should_alert, cooldown_key, cooling, payload_of, deliveries,
  on_event,
}

-- an event with the two readings of the clock in its call
pub record Arrival : Type 0 where
  pub since : ℕ
  pub now : ℕ
  pub evt : AuditEvent

-- an alert that went out
pub record Sent : Type 0 where
  pub key : String
  pub time : ℕ

-- the events one after the other: the alerts that go out, in order
pub alerts : AlertManager → List Arrival → List Sent
alerts am [] = []
alerts am (a ∷ rest) =
    let (am', answer) = on_event a.since a.now a.evt am in
    let later = alerts am' rest in
    elim answer [
      | none ↦ later
      | some _ ↦ record { key = cooldown_key a.evt; time = a.now } ∷ later
    ]

-- every later alert of the key comes at least the cooldown after the time
abbrev NotBefore : ℕ → String → ℕ → List Sent → Type 0
NotBefore cooldown key time [] = Unit
NotBefore cooldown key time (s ∷ rest) =
    (str_eq s.key key ≡ true → time + cooldown ≤ s.time) × NotBefore cooldown key time rest

abbrev pub Spaced : ℕ → List Sent → Type 0
Spaced cooldown [] = Unit
Spaced cooldown (s ∷ rest) = NotBefore cooldown s.key s.time rest × Spaced cooldown rest

-- in a call the clock does not go back
abbrev InOrder : List Arrival → Type 0
InOrder = All (λ a. a.since ≤ a.now)

abbrev pub alerted : AlertManager → Arrival → AlertManager
alerted am a = record am { cooldowns = insert (cooldown_key a.evt) a.now am.cooldowns }

-- An event is dropped, or it starts an alert whose key was not cooling.
pub on_event-cases :
    (am : AlertManager) (a : Arrival)
    → (on_event a.since a.now a.evt am ≡ (am, none))
      ⊎ ((out : List (String × WebhookPayload)) × (on_event a.since a.now a.evt am
            ≡ (alerted am a, some out))
          × (cooling a.since (cooldown_key a.evt) am ≡ false))
unfolding on_event
on_event-cases am a = elim (Bool-cases (should_alert a.evt)) [
  | inr skip ↦ inl (rw skip)
  | inl wanted ↦ elim (Bool-cases (cooling a.since (cooldown_key a.evt) am)) [
    | inl cool ↦ inl (rw (wanted, cool))
    | inr warm ↦ inr (deliveries (payload_of a.evt) a.evt am.webhooks, rw (wanted, warm), warm)
  ]
]

module _ (am : AlertManager) (a : Arrival) (rest : List Arrival) where
  alerts-dropped :
      on_event a.since a.now a.evt am ≡ (am, none) → alerts am (a ∷ rest) ≡ alerts am rest
  unfolding alerts
  alerts-dropped e = rw (e, alerts) (rw e)

  alerts-sent :
      (out : List (String × WebhookPayload))
      → on_event a.since a.now a.evt am ≡ (alerted am a, some out)
      → alerts am (a ∷ rest)
        ≡ record { key = cooldown_key a.evt; time = a.now } ∷ alerts (alerted am a) rest
  unfolding alerts
  alerts-sent out e = rw (e, alerts) (rw e)

module _ (key : String) (time : ℕ) where
  -- the entry of the key behind an alert, and how late the alert is if it is of the key
  alerted-entry :
      (am : AlertManager) (a : Arrival) (last : ℕ)
      → a.since ≤ a.now
      → cooling a.since (cooldown_key a.evt) am ≡ false
      → lookup key am.cooldowns ≡ some last
      → time ≤ last
      → (str_eq (cooldown_key a.evt) key ≡ true → time + am.cooldown ≤ a.now)
        × ((last' : ℕ) × (lookup key (alerted am a).cooldowns ≡ some last') × (time ≤ last'))
  unfolding cooling
  alerted-entry am a last order warm known late =
      elim (Bool-cases (str_eq (cooldown_key a.evt) key)) [
        | inl same ↦
            let e = (eq_iff (cooldown_key a.evt) key).0 same in
            let spaced : last + am.cooldown ≤ a.since = ground arith in
            (λ h. omega arith, (a.now, rw (lookup-insert, same), omega arith))
        | inr other ↦ (λ h. cc, (last, rw (lookup-insert, other) known, late))
      ]

  alerts-NotBefore :
      (events : List Arrival) (am : AlertManager) (last : ℕ)
      → InOrder events
      → lookup key am.cooldowns ≡ some last
      → time ≤ last
      → NotBefore am.cooldown key time (alerts am events)
  unfolding alerts
  alerts-NotBefore [] am last order known late = tt
  alerts-NotBefore (a ∷ rest) am last order known late = elim (on_event-cases am a) [
    | inl e ↦ rw (alerts-dropped am a rest e) (alerts-NotBefore rest am last order.1 known late)
    | inr (out, e, warm) ↦
        let (late', (last', known', after)) = alerted-entry am a last order.0 warm known late in
        rw (alerts-sent am a rest out e)
          (late', alerts-NotBefore rest (alerted am a) last' order.1 known' after)
  ]

-- Of the alerts that a manager sends over any sequence of events, any two with the same event type
-- and resource are at least the cooldown apart, provided that within each call the clock does not
-- go back between its two readings.
pub alerts-Spaced :
    (am : AlertManager) (events : List Arrival)
    → InOrder events
    → Spaced am.cooldown (alerts am events)
unfolding alerts
alerts-Spaced am [] order = tt
alerts-Spaced am (a ∷ rest) order = elim (on_event-cases am a) [
  | inl e ↦ rw (alerts-dropped am a rest e) (alerts-Spaced am rest order.1)
  | inr (out, e, warm) ↦
      let key = cooldown_key a.evt in
      rw (alerts-sent am a rest out e) (
        alerts-NotBefore key a.now rest (alerted am a) a.now order.1
            (lookup-insert_self key a.now am.cooldowns) (omega arith),
        alerts-Spaced (alerted am a) rest order.1,
      )
]
