-- ===== src/Live/Expiry.antt =====
-- The certificates that the expiry check of internal/compliance/live.go passes.
use cloudflared_fips.Prelude.{
  ℕ, ◌+◌, ◌*◌, ◌≤◌, ◌<◌, ◌≡◌, ◌≢◌, ◌↔◌, refl, ap, inl, inr, String, true, false, List, [], ◌∷◌,
  ◌++◌, Option, none, some, Option-cases, Bool-cases, ltb, All, arith,
}
use cloudflared_fips.Prelude.Results.{Result, ok, err}
use cloudflared_fips.Compliance.{pass, fail, unknown}
use cloudflared_fips.Compliance.Items.{is_empty}
use cloudflared_fips.Live.{System, LiveChecker, Pem, no_block, unparsed, not_after}
use cloudflared_fips.Live.Service.{base}
use cloudflared_fips.Live.Credentials.{
  day, Expiries, is_sooner, note_expiry, scan_certs, judge_soonest, check_tls_cert_expiry,
}

abbrev with_time : Result Pem → List ℕ → List ℕ
with_time (err _) times = times
with_time (ok no_block) times = times
with_time (ok unparsed) times = times
with_time (ok (not_after t)) times = t ∷ times

-- the expiry times of the certificates that can be read
unfoldable pub expiries : System → List String → List ℕ
expiries s [] = []
expiries s (path ∷ paths) = with_time (s.read_pem path) (expiries s paths)

-- the earliest time, where there is one, is no earlier than the given one
abbrev Later : ℕ → Option (ℕ × String) → Type 0
Later k none = Unit
Later k (some (t, _)) = k ≤ t

-- what the scan keeps, for a list of times that it has still to see
abbrev Kept : ℕ → Expiries → List ℕ → Expiries → Type 0
Kept now e times out =
    ((out.expired ≡ []) ↔ (e.expired ≡ []) × All (λ t. now ≤ t) times)
    × ((k : ℕ)
        → All (λ t. now ≤ t) times
        → Later k out.soonest ↔ Later k e.soonest × All (λ t. k ≤ t) times)
    × (All (λ t. now ≤ t) times → (out.soonest ≡ none) ↔ (e.soonest ≡ none) × (times ≡ []))

append-not_nil : {A : Type 0} (xs : List A) (x : A) → xs ++ x ∷ [] ≢ []
append-not_nil [] x e = ground arith
append-not_nil (y ∷ xs) x e = ground arith

expired-Kept :
    (now t : ℕ) (e : Expiries) (name : String) (times : List ℕ) (out : Expiries)
    → t < now
    → Kept now (record e { expired = e.expired ++ name ∷ [] }) times out
    → Kept now e (t ∷ times) out
expired-Kept now t e name times out old (failed, _, _) = (
  (
    λ none_failed. absurd (append-not_nil e.expired name (failed.0 none_failed).0),
    λ p. absurd (omega (arith, p.1.0)),
  ),
  λ k all. absurd (omega (arith, all.0)),
  λ all. absurd (omega (arith, all.0)),
)

sooner-Kept :
    (now t : ℕ) (e : Expiries) (name : String) (times : List ℕ) (out : Expiries)
    → now ≤ t
    → is_sooner t e.soonest ≡ true
    → Kept now (record e { soonest = some (t, name) }) times out
    → Kept now e (t ∷ times) out
sooner-Kept now t e name times out new sooner (failed, later, found) =
    elim (Option-cases e.soonest) [
      | inl s ↦ (
        ground (arith, failed, new),
        λ k all. rw s (ground (arith, later k all.1)),
        λ all. (
          λ p. absurd (let q = (found all.1).0 p in ground (arith, q)),
          λ p. absurd (ground (arith, p.1)),
        ),
      )
      | inr ((u, n), s) ↦ (
        ground (arith, failed, new),
        λ k all. rw s (let l = later k all.1 in let q = rw s at sooner in ground (arith, l, q)),
        λ all. (
          λ p. absurd (let q = (found all.1).0 p in ground (arith, q)),
          λ p. absurd (ground (arith, p.1)),
        ),
      )
    ]

passed-Kept :
    (now t : ℕ) (e : Expiries) (times : List ℕ) (out : Expiries)
    → now ≤ t
    → is_sooner t e.soonest ≡ false
    → Kept now e times out
    → Kept now e (t ∷ times) out
passed-Kept now t e times out new sooner (failed, later, found) = elim (Option-cases e.soonest) [
  | inl s ↦ absurd (let q = rw s at sooner in ground (arith, q))
  | inr ((u, n), s) ↦ (
    ground (arith, failed, new),
    λ k all. rw s (let l = rw s at later k all.1 in let q = rw s at sooner in ground (arith, l, q)),
    λ all. (
      λ p. absurd (let q = (found all.1).0 p in ground (arith, q, s)),
      λ p. absurd (ground (arith, p.1)),
    ),
  )
]

note_expiry-Kept :
    (s : System) (path : String) (r : Result Pem) (e : Expiries) (times : List ℕ) (out : Expiries)
    → Kept s.now (note_expiry s path r e) times out
    → Kept s.now e (with_time r times) out
note_expiry-Kept s path (err m) e times out kept = kept
note_expiry-Kept s path (ok no_block) e times out kept = kept
note_expiry-Kept s path (ok unparsed) e times out kept = kept
note_expiry-Kept s path (ok (not_after t)) e times out kept = elim (Bool-cases (ltb t s.now)) [
  | inl old ↦ expired-Kept s.now t e (base path) times out (ground (arith, old)) (rw old at kept)
  | inr new ↦ elim (Bool-cases (is_sooner t e.soonest)) [
    | inl before ↦
        sooner-Kept s.now t e (base path) times out (ground (arith, new)) before
          (rw (new, before) at kept)
    | inr after ↦
        passed-Kept s.now t e times out (ground (arith, new)) after (rw (new, after) at kept)
  ]
]

scan_certs-Kept :
    (s : System) (e : Expiries) (paths : List String)
    → Kept s.now e (expiries s paths) (scan_certs s e paths)
unfolding expiries scan_certs
scan_certs-Kept s e [] = (
  (λ none_failed. (none_failed, tt), λ p. p.0),
  λ k all. (λ l. (l, tt), λ p. p.0),
  λ all. (λ p. (p, refl), λ p. p.0),
)
scan_certs-Kept s e (path ∷ paths) =
    note_expiry-Kept s path (s.read_pem path) e (expiries s paths)
      (scan_certs s (note_expiry s path (s.read_pem path) e) paths)
      (scan_certs-Kept s (note_expiry s path (s.read_pem path) e) paths)

judge_soonest-passes :
    (s : System) (o : Option (ℕ × String))
    → Later s.now o
    → let item = judge_soonest s o in
      ((item.status ≡ pass) ↔ (o ≢ none) × Later (s.now + 30 * day) o)
      × (item.status ≢ fail)
      × ((item.status ≡ unknown) ↔ (o ≡ none))
judge_soonest-passes s none later = ground arith
judge_soonest-passes s (some (t, name)) later = ground (arith, later)

is_empty-nil : {A : Type 0} (xs : List A) → (is_empty xs ≡ true) ↔ (xs ≡ [])
is_empty-nil [] = (λ _. refl, λ _. refl)
is_empty-nil (x ∷ xs) = ground arith

Later-All :
    (now : ℕ) (times : List ℕ) → All (λ t. now + 30 * day ≤ t) times → All (λ t. now ≤ t) times
Later-All now [] all = tt
Later-All now (t ∷ times) (far, all) = (omega (arith, far), Later-All now times all)

-- The check of the certificates fails exactly where one of them that can be read has expired, it
-- passes exactly where there is one that can be read and each of those is valid for thirty more
-- days, and it is unknown exactly where none can be read.
pub check_tls_cert_expiry-expiries :
    (s : System) (lc : LiveChecker)
    → let status = (check_tls_cert_expiry s lc).status in
      let times = expiries s lc.cert_paths in
      ((status ≡ fail) ↔ ¬ All (λ t. s.now ≤ t) times)
      × ((status ≡ pass) ↔ (times ≢ []) × All (λ t. s.now + 30 * day ≤ t) times)
      × ((status ≡ unknown) ↔ (times ≡ []))
unfolding check_tls_cert_expiry expiries
check_tls_cert_expiry-expiries s lc =
    let begun : Expiries = record { soonest = none; expired = [] } in
    let e = scan_certs s begun lc.cert_paths in
    let times = expiries s lc.cert_paths in
    let (failed, later, found) = scan_certs-Kept s begun lc.cert_paths in
    elim (Bool-cases (is_empty lc.cert_paths)) [
      | inl none_there ↦
          let empty : times ≡ [] = ap (expiries s) ((is_empty-nil lc.cert_paths).0 none_there) in
          rw (check_tls_cert_expiry, none_there, empty) (ground arith)
      | inr some_there ↦ elim (Bool-cases (is_empty e.expired)) [
        | inl fresh ↦
            let none_failed = (is_empty-nil e.expired).0 fresh in
            let valid = (failed.0 none_failed).1 in
            let judged = judge_soonest-passes s e.soonest ((later s.now valid).1 (tt, valid)) in
            rw (check_tls_cert_expiry, some_there, fresh)
              (ground (
                arith,
                judged,
                valid,
                found valid,
                later (s.now + 30 * day) valid,
                Later-All s.now times,
              ))
        | inr old ↦
            let invalid : ¬ All (λ t. s.now ≤ t) times =
              λ valid. ground (arith, old, (is_empty-nil e.expired).1 (failed.1 (refl, valid))) in
            let some_times : times ≢ [] = λ none_left. invalid (rw none_left tt) in
            rw (check_tls_cert_expiry, some_there, old)
              (
                (λ _. invalid, λ _. refl),
                (λ p. ground arith, λ p. absurd (invalid (Later-All s.now times p.1))),
                (λ p. ground arith, λ none_left. absurd (some_times none_left)),
              )
      ]
    ]
