-- ===== src/Fleet/Summary/Groups.antt =====
-- The GROUP BY queries of pkg/fleet/sqlite.go: each key once, with the number of its rows.
use cloudflared_fips.Prelude.{
  ℕ, ◌+◌, ◌≡◌, refl, String, Bool, true, false, ◌&&◌, List, [], ◌∷◌, arith, str_eq, eq_iff,
  if◌then◌else◌, Bool-cases, inl, inr,
}
use cloudflared_fips.Prelude.Assoc.{Assoc}
use cloudflared_fips.Fleet.Db.{NodeRow}
use cloudflared_fips.Fleet.Summary.{count_rows, count_key, group_by}

-- the number of a key, 0 where the table has no row of it
abbrev pub number : String → Assoc ℕ → ℕ
number k [] = 0
number k ((j, n) ∷ groups) = if str_eq j k then n else number k groups

abbrev pub total : Assoc ℕ → ℕ
total [] = 0
total ((j, n) ∷ groups) = n + total groups

abbrev Absent : String → Assoc ℕ → Type 0
Absent k [] = Unit
Absent k ((j, n) ∷ groups) = (str_eq j k ≡ false) × Absent k groups

abbrev pub Distinct : Assoc ℕ → Type 0
Distinct [] = Unit
Distinct ((j, n) ∷ groups) = Absent j groups × Distinct groups

number-Absent : (k : String) (g : Assoc ℕ) → Absent k g → number k g ≡ 0
number-Absent k [] a = refl
number-Absent k ((j, n) ∷ g) a = ground (arith, a.0, number-Absent k g a.1)

number-count_key :
    (k j : String) (g : Assoc ℕ)
    → number k (count_key j g) ≡ number k g + (if str_eq j k then 1 else 0)
unfolding count_key
number-count_key k j [] = ground arith
number-count_key k j ((i, n) ∷ g) =
    ground (arith, number-count_key k j g, eq_iff i j, eq_iff i k, eq_iff j k)

total-count_key : (j : String) (g : Assoc ℕ) → total (count_key j g) ≡ total g + 1
unfolding count_key
total-count_key j [] = refl
total-count_key j ((i, n) ∷ g) = ground (arith, total-count_key j g)

Absent-count_key :
    (k j : String) (g : Assoc ℕ) → str_eq j k ≡ false → Absent k g → Absent k (count_key j g)
unfolding count_key
Absent-count_key k j [] ne a = (ne, tt)
Absent-count_key k j ((i, n) ∷ g) ne a = elim (Bool-cases (str_eq i j)) [
  | inl e ↦ rw (e, count_key) a
  | inr e ↦ rw (e, count_key) (a.0, Absent-count_key k j g ne a.1)
]

count_key-Distinct : (j : String) (g : Assoc ℕ) → Distinct g → Distinct (count_key j g)
unfolding count_key
count_key-Distinct j [] u = (tt, tt)
count_key-Distinct j ((i, n) ∷ g) u = elim (Bool-cases (str_eq i j)) [
  | inl e ↦ rw (e, count_key) u
  | inr e ↦
      rw (e, count_key)
        (
          Absent-count_key i j g (ground (arith, e, eq_iff i j, eq_iff j i)) u.0,
          count_key-Distinct j g u.1,
        )
]

module _ (p : NodeRow → Bool) (key : NodeRow → String) where
  pub number-group_by :
      (k : String) (rows : List NodeRow)
      → number k (group_by p key rows) ≡ count_rows (λ r. p r && str_eq (key r) k) rows
  unfolding group_by count_rows
  number-group_by k [] = refl
  number-group_by k (r ∷ rows) =
      ground (arith, number-group_by k rows, number-count_key k (key r) (group_by p key rows))

  pub total-group_by : (rows : List NodeRow) → total (group_by p key rows) ≡ count_rows p rows
  unfolding group_by count_rows
  total-group_by [] = refl
  total-group_by (r ∷ rows) =
      ground (arith, total-group_by rows, total-count_key (key r) (group_by p key rows))

  pub group_by-Distinct : (rows : List NodeRow) → Distinct (group_by p key rows)
  unfolding group_by
  group_by-Distinct [] = tt
  group_by-Distinct (r ∷ rows) = elim (Bool-cases (p r)) [
    | inl e ↦
        rw (e, group_by) (count_key-Distinct (key r) (group_by p key rows) (group_by-Distinct rows))
    | inr e ↦ rw (e, group_by) (group_by-Distinct rows)
  ]

abbrev pub or_number : String → Assoc ℕ → ℕ → ℕ
or_number k [] n = n
or_number k ((j, m) ∷ g) n = if str_eq j k then m else or_number k g n

pub or_number-zero : (k : String) (g : Assoc ℕ) → or_number k g 0 ≡ number k g
or_number-zero k [] = refl
or_number-zero k ((j, m) ∷ g) = ground (arith, or_number-zero k g)

or_number-Absent :
    (k j : String) (g : Assoc ℕ) (n : ℕ) → Absent j g → str_eq j k ≡ true → or_number k g n ≡ n
or_number-Absent k j [] n a e = refl
or_number-Absent k j ((i, m) ∷ g) n a e =
    ground (arith, a.0, e, eq_iff j k, eq_iff i k, eq_iff i j, or_number-Absent k j g n a.1 e)

pub or_number-next :
    (k j : String) (g : Assoc ℕ) (n m : ℕ)
    → Absent j g
    → or_number k g (if str_eq j k then n else m) ≡ (if str_eq j k then n else or_number k g m)
or_number-next k j g n m a = elim (Bool-cases (str_eq j k)) [
  | inl e ↦ ground (arith, e, or_number-Absent k j g n a e)
  | inr e ↦ ground (arith, e)
]
