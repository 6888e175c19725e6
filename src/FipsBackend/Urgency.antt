-- ===== src/FipsBackend/Urgency.antt =====
-- How the urgency of pkg/fipsbackend/migration.go moves with the clock.
use cloudflared_fips.Prelude.{
  ℕ, zero, suc, ◌+◌, ◌*◌, ◌≤◌, ◌≡◌, refl, inl, inr, String, Bool, true, Option-cases, Bool-cases,
  str_eq, leb, ltb, if◌then◌else◌, arith,
}
use cloudflared_fips.FipsBackend.{Build, fips_standard, detect}
use cloudflared_fips.FipsBackend.Migration.{
  sunset, negated, days_until, at_most, MigrationStatus, begun, alternative, alternative, for_140_2,
  pending_140_3, by_standard, get_migration_status,
}

-- how urgent the text is
abbrev pub rank : String → ℕ
rank urgency =
    if str_eq urgency "none"
    then 0
    else if str_eq urgency "low"
    then 1
    else if str_eq urgency "medium"
    then 2
    else if str_eq urgency "high"
    then 3
    else 4

negated-within : (k n : ℕ) → at_most (negated k) n ≡ true
unfolding at_most
negated-within zero n = ground arith
negated-within (suc k) n = refl

days_until-within : (now n : ℕ) → at_most (days_until now) n ≡ ltb sunset (now + (n + 1) * 86400)
unfolding days_until at_most
days_until-within now n = elim (Bool-cases (leb now sunset)) [
  | inl e ↦ rw e (ground (arith, e))
  | inr e ↦ rw (e, negated-within) (ground (arith, e))
]

-- the rank by the four tests on the days that are left
abbrev level : Bool → Bool → Bool → Bool → ℕ
level past within_30 within_90 within_180 =
    if past
    then 4
    else if within_30
    then 4
    else if within_90
    then 3
    else if within_180
    then 2
    else 1

for_140_2-level :
    (s : MigrationStatus)
    → rank (for_140_2 s).migration_urgency
      ≡ level
          (at_most s.days_until_sunset 0)
          (at_most s.days_until_sunset 30)
          (at_most s.days_until_sunset 90)
          (at_most s.days_until_sunset 180)
for_140_2-level s = elim (Bool-cases (at_most s.days_until_sunset 0)) [
  | inl e ↦ rw e refl
  | inr e ↦ elim (Bool-cases (at_most s.days_until_sunset 30)) [
    | inl f ↦ rw (e, f) refl
    | inr f ↦ elim (Bool-cases (at_most s.days_until_sunset 90)) [
      | inl g ↦ rw (e, f, g) refl
      | inr g ↦ elim (Bool-cases (at_most s.days_until_sunset 180)) [
        | inl h ↦ rw (e, f, g, h) refl
        | inr h ↦ rw (e, f, g, h) refl
      ]
    ]
  ]
]

level_mono :
    (now later : ℕ)
    → now ≤ later
    → level
        (at_most (days_until now) 0)
        (at_most (days_until now) 30)
        (at_most (days_until now) 90)
        (at_most (days_until now) 180)
      ≤ level
          (at_most (days_until later) 0)
          (at_most (days_until later) 30)
          (at_most (days_until later) 90)
          (at_most (days_until later) 180)
level_mono now later le =
    rw
      (
        days_until-within now 0,
        days_until-within now 30,
        days_until-within now 90,
        days_until-within now 180,
        days_until-within later 0,
        days_until-within later 30,
        days_until-within later 90,
        days_until-within later 180,
      )
      (ground (arith, le))

pending_mono :
    (now later : ℕ) (s t : MigrationStatus)
    → now ≤ later
    → rank (pending_140_3 now s).migration_urgency ≤ rank (pending_140_3 later t).migration_urgency
pending_mono now later s t le = elim (Bool-cases (ltb sunset now)) [
  | inl e ↦ elim (Bool-cases (ltb sunset later)) [
    | inl f ↦ rw (e, f) (omega arith)
    | inr f ↦ absurd (ground (arith, e, f, le))
  ]
  | inr e ↦ elim (Bool-cases (ltb sunset later)) [
    | inl f ↦ rw (e, f) (omega arith)
    | inr f ↦ rw (e, f) (omega arith)
  ]
]

abbrev at_140_2 : ℕ → String → MigrationStatus
at_140_2 now standard = record (begun now standard) { alternative_backend = alternative }

by_standard_mono :
    (now later : ℕ) (standard : String)
    → now ≤ later
    → rank (by_standard now standard (begun now standard)).migration_urgency
      ≤ rank (by_standard later standard (begun later standard)).migration_urgency
unfolding by_standard
by_standard_mono now later standard le = elim (Bool-cases (str_eq standard "140-2")) [
  | inl e ↦ rw e (
      rw (for_140_2-level (at_140_2 now standard), for_140_2-level (at_140_2 later standard))
        (level_mono now later le))
  | inr e ↦ elim (Bool-cases (str_eq standard "140-3")) [
    | inl f ↦ rw (e, f) (omega arith)
    | inr f ↦ elim (Bool-cases (str_eq standard "140-3 (pending)")) [
      | inl g ↦ rw (e, f, g) (pending_mono now later (begun now standard) (begun later standard) le)
      | inr g ↦ rw (e, f, g) (omega arith)
    ]
  ]
]

-- On one build the urgency of the migration never falls as time passes.
get_migration_status_mono :
    (b : Build) (now later : ℕ)
    → now ≤ later
    → rank (get_migration_status b now).migration_urgency
      ≤ rank (get_migration_status b later).migration_urgency
unfolding get_migration_status
get_migration_status_mono b now later le = elim (Option-cases (detect b)) [
  | inl e ↦ rw e (omega arith)
  | inr (backend, e) ↦ rw e (by_standard_mono now later (fips_standard b backend) le)
]
