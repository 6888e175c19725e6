-- ===== src/Live/Integrity.antt =====
-- When the hash checks of internal/compliance/live.go pass, fail and panic.
use cloudflared_fips.Prelude.{
  ◌<◌, ◌≤◌, ◌≡◌, ◌≢◌, ◌↔◌, ◌⊎◌, [], ◌∷◌, refl, inl, inr, String, Option, none, some, Option-cases,
  Bool-cases, str_eq, ltb, arith, eq_iff, ap, sym, ◌∙◌,
}
use cloudflared_fips.Prelude.Results.{Result, ok, err, Result-cases}
use cloudflared_fips.Compliance.{unknown, warning, Status, pass, fail, ChecklistItem}
use cloudflared_fips.Live.{System, LiveChecker, first_found}
use cloudflared_fips.Live.Tunnel.{text_length, short_hash}
use cloudflared_fips.Live.Operations.{compare_upstream, upstream_at, check_upstream_integrity}

short_hash-none : (h : String) → (short_hash h ≡ none) ↔ (text_length h < 8)
unfolding short_hash
short_hash-none h = elim (Bool-cases (ltb (text_length h) 8)) [
  | inl e ↦ rw e (λ _. ground (arith, e), λ _. refl)
  | inr e ↦ rw e (λ p. ground arith, λ lt. absurd (ground (arith, e)))
]

abbrev pub status_of : Option ChecklistItem → Option Status
status_of none = none
status_of (some item) = some item.status

compare_upstream-panics :
    (hash expected : String)
    → 8 ≤ text_length hash
    → ((status_of (compare_upstream hash expected) ≡ some pass) ↔ (hash ≡ expected))
      × ((status_of (compare_upstream hash expected) ≡ some fail)
          ↔ (hash ≢ expected) × (8 ≤ text_length expected))
      × ((compare_upstream hash expected ≡ none) ↔ (text_length expected < 8))
unfolding compare_upstream
compare_upstream-panics hash expected long =
    let same = eq_iff hash expected in
    elim (Option-cases (short_hash hash)) [
      | inl none_short ↦ absurd (omega (arith, (short_hash-none hash).0 none_short))
      | inr (h, s) ↦ elim (Bool-cases (str_eq hash expected)) [
        | inl e ↦
            let equal = same.0 e in
            let long_too : 8 ≤ text_length expected = rw equal at long in
            rw (compare_upstream, e, s)
              (
                (λ _. equal, λ _. refl),
                (λ p. ground arith, λ p. absurd (p.0 equal)),
                (λ p. ground arith, λ lt. absurd (omega arith)),
              )
        | inr e ↦
            let other : hash ≢ expected = λ p. ground (arith, e, same.1 p) in
            elim (Option-cases (short_hash expected)) [
              | inl f ↦
                  let short = (short_hash-none expected).0 f in
                  rw (compare_upstream, e, s, f)
                    (
                      (λ p. ground arith, λ p. absurd (other p)),
                      (λ p. ground arith, λ p. absurd (omega (arith, p.1))),
                      (λ _. short, λ _. refl),
                    )
              | inr (g, f) ↦
                  let long_too : 8 ≤ text_length expected =
                    ground (arith, short_hash-none expected, f) in
                  rw (compare_upstream, e, s, f)
                    (
                      (λ p. ground arith, λ p. absurd (other p)),
                      (λ _. (other, long_too), λ _. refl),
                      (λ p. ground arith, λ lt. absurd (omega arith)),
                    )
            ]
      ]
    ]

-- what the check reads, where it finds the binary
abbrev pub upstream_hash : System → Option (Result String)
upstream_hash s =
    elim (first_found s ("/usr/local/bin/cloudflared" ∷ "/usr/bin/cloudflared" ∷ [])) [
      | none ↦ none
      | some path ↦ some (s.read_hash path)
    ]

-- When the check of the upstream binary has each of its ends, by the hash that is read of it and by
-- the configured checksum.
abbrev pub Judged : Option (Result String) → String → Option ChecklistItem → Type 0
Judged found expected item =
    ((status_of item ≡ some pass) ↔ (found ≡ some (ok expected)))
    × ((status_of item ≡ some fail) ↔ (
        (hash : String) × (found ≡ some (ok hash))
        × (hash ≢ expected)
        × (8 ≤ text_length expected)))
    × ((status_of item ≡ some warning) ↔ (found ≢ none) × (expected ≡ ""))
    × ((status_of item ≡ some unknown)
        ↔ ((found ≡ none) ⊎ ((e : String) × (found ≡ some (err e)) × (expected ≢ ""))))
    × ((item ≡ none) ↔ (
        (hash : String) × (found ≡ some (ok hash)) × (expected ≢ "") × (text_length expected < 8)))

missing-Judged :
    (expected : String) (item : ChecklistItem)
    → item.status ≡ unknown
    → Judged none expected (some item)
missing-Judged expected item e = (
  (λ p. ground (arith, p, e), λ p. ground (arith, p)),
  (λ p. ground (arith, p, e), λ (h, p, q, l). ground (arith, p)),
  (λ p. ground (arith, p, e), λ p. absurd (p.0 refl)),
  (λ _. inl refl, λ _. ap some e),
  (λ p. ground (arith, p), λ (h, p, q, l). ground (arith, p)),
)

ok-of : {a : Result String} {b : String} → some a ≡ some (ok b) → a ≡ ok b
ok-of e = ground (arith, e)

short_unset : (expected : String) → expected ≡ "" → text_length expected < 8
short_unset expected unset = rw unset (omega arith)

unset-Judged :
    (read : Result String) (expected : String) (item : ChecklistItem)
    → expected ≡ ""
    → ((hash : String) → read ≡ ok hash → 8 ≤ text_length hash)
    → item.status ≡ warning
    → Judged (some read) expected (some item)
unset-Judged read expected item unset long e = (
  (
    λ p. ground (arith, p, e),
    λ p. absurd (omega (arith, long expected (ok-of p), short_unset expected unset)),
  ),
  (
    λ p. ground (arith, p, e),
    λ (h, p, q, l). absurd (omega (arith, l, short_unset expected unset)),
  ),
  (λ p. (λ q. ground (arith, q), unset), λ _. ap some e),
  (
    λ p. ground (arith, p, e),
    λ x. elim x [ inl p ↦ ground (arith, p) | inr (m, p, q) ↦ absurd (q unset) ],
  ),
  (λ p. ground (arith, p), λ (h, p, q, l). absurd (q unset)),
)

unreadable-Judged :
    (m expected : String) (item : ChecklistItem)
    → expected ≢ ""
    → item.status ≡ unknown
    → Judged (some (err m)) expected (some item)
unreadable-Judged m expected item set e = (
  (λ p. ground (arith, p, e), λ p. ground (arith, p)),
  (λ p. ground (arith, p, e), λ (h, p, q, l). ground (arith, p)),
  (λ p. ground (arith, p, e), λ p. absurd (set p.1)),
  (λ _. inr (m, refl, set), λ _. ap some e),
  (λ p. ground (arith, p), λ (h, p, q, l). ground (arith, p)),
)

compare_upstream-decides :
    (hash expected : String)
    → (status_of (compare_upstream hash expected) ≢ some warning)
      × (status_of (compare_upstream hash expected) ≢ some unknown)
unfolding compare_upstream
compare_upstream-decides hash expected = ground arith

compared-Judged :
    (hash expected : String)
    → expected ≢ ""
    → 8 ≤ text_length hash
    → Judged (some (ok hash)) expected (compare_upstream hash expected)
compared-Judged hash expected set long =
    let (passes, fails, panics) = compare_upstream-panics hash expected long in
    let (no_warning, no_unknown) = compare_upstream-decides hash expected in
    (
      (λ p. ap (λ h. some (ok h)) (passes.0 p), λ p. passes.1 (same p)),
      (
        λ p. (hash, refl, (fails.0 p).0, (fails.0 p).1),
        λ (h, p, q, l). fails.1 (λ e. q (sym (same p) ∙ e), l),
      ),
      (λ p. absurd (no_warning p), λ p. absurd (set p.1)),
      (
        λ p. absurd (no_unknown p),
        λ x. elim x [ inl p ↦ ground (arith, p) | inr (m, p, q) ↦ ground (arith, p) ],
      ),
      (λ p. (hash, refl, set, panics.0 p), λ (h, p, q, l). panics.1 l),
    )
  where
    same : {a b : String} → ◌≡◌ {A = Option (Result String)} (some (ok a)) (some (ok b)) → a ≡ b
    same e = ground (arith, e)

upstream_at-Judged :
    (s : System) (lc : LiveChecker) (path : String)
    → ((hash : String) → s.read_hash path ≡ ok hash → 8 ≤ text_length hash)
    → Judged (some (s.read_hash path)) lc.upstream_checksum (upstream_at s lc path)
upstream_at-Judged s lc path long = elim (Bool-cases (str_eq lc.upstream_checksum "")) [
  | inl e ↦ rw e (
      unset-Judged (s.read_hash path) lc.upstream_checksum _ ((eq_iff lc.upstream_checksum "").0 e)
        long refl)
  | inr e ↦
      let set : lc.upstream_checksum ≢ "" =
        λ p. ground (arith, e, (eq_iff lc.upstream_checksum "").1 p) in
      elim (Result-cases (s.read_hash path)) [
        | inl (hash, f) ↦ rw (e, f) (compared-Judged hash lc.upstream_checksum set (long hash f))
        | inr (m, f) ↦ rw (e, f) (unreadable-Judged m lc.upstream_checksum _ set refl)
      ]
]

-- The check of the upstream binary, where every hash that can be read has at least eight characters,
-- as each SHA-256 has. It passes exactly where the hash of the binary is the configured checksum. It
-- fails exactly where the checksum is another text of at least eight characters. It warns exactly
-- where the binary is there and no checksum is configured. It is unknown exactly where there is no
-- binary, or a checksum is configured and the binary cannot be read. And it panics exactly where the
-- binary is read and a checksum of one to seven characters is configured.
pub check_upstream_integrity-panics :
    (s : System) (lc : LiveChecker)
    → ((path hash : String) → s.read_hash path ≡ ok hash → 8 ≤ text_length hash)
    → Judged (upstream_hash s) lc.upstream_checksum (check_upstream_integrity s lc)
unfolding check_upstream_integrity
check_upstream_integrity-panics s lc long =
    elim (Option-cases
      (first_found s ("/usr/local/bin/cloudflared" ∷ "/usr/bin/cloudflared" ∷ []))) [
        | inl e ↦
            rw (check_upstream_integrity, upstream_hash, e)
              (missing-Judged lc.upstream_checksum _ refl)
        | inr (path, e) ↦
            rw (check_upstream_integrity, upstream_hash, e)
              (upstream_at-Judged s lc path (long path))
      ]
