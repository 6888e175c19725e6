-- ===== src/Live/Secrets.antt =====
-- The permissions of secret files that internal/compliance/live.go passes.
use cloudflared_fips.Prelude.{
  ℕ, ◌/◌, ◌%◌, ◌≤◌, ◌≡◌, ◌↔◌, refl, ap, inl, inr, String, true, List, [], ◌∷◌, Bool-cases, All,
  length, ◌&&◌, arith,
}
use cloudflared_fips.Prelude.Results.{Result, ok, err, Result-cases}
use cloudflared_fips.Compliance.{pass, fail}
use cloudflared_fips.Compliance.Items.{is_empty}
use cloudflared_fips.Live.{System, LiveChecker, FileInfo}
use cloudflared_fips.Live.Credentials.{
  add_path, sort_secrets, judge_secrets, check_secrets_at_rest, collect_secret_files,
}

abbrev with_perm : Result FileInfo → List ℕ → List ℕ
with_perm (err _) perms = perms
with_perm (ok i) perms = i.perm ∷ perms

-- the permissions of the files that can be found
pub permissions : System → List String → List ℕ
permissions s [] = []
permissions s (path ∷ paths) = with_perm (s.stat path) (permissions s paths)

abbrev pub Private : ℕ → Type 0
Private perm = perm % 8 ≡ 0

abbrev pub Narrow : ℕ → Type 0
Narrow perm = perm / 8 % 8 ≤ 4

abbrev Sorted : List ℕ → List String × List String → Type 0
Sorted perms (world, wide) =
    ((is_empty world ≡ true) ↔ All Private perms)
    × ((is_empty world && is_empty wide ≡ true) ↔ All (λ p. Private p × Narrow p) perms)

add_path-Sorted :
    (path : String) (perm : ℕ) (perms : List ℕ) (r : List String × List String)
    → Sorted perms r
    → Sorted (perm ∷ perms) (add_path path perm r)
add_path-Sorted path perm perms (world, wide) sorted = ground (arith, sorted)

sort_secrets-Sorted :
    (s : System) (paths : List String) → Sorted (permissions s paths) (sort_secrets s paths)
unfolding permissions sort_secrets
sort_secrets-Sorted s [] = ground arith
sort_secrets-Sorted s (path ∷ paths) = elim (Result-cases (s.stat path)) [
  | inl (i, e) ↦
      rw (permissions, sort_secrets, e)
        (add_path-Sorted path i.perm (permissions s paths) (sort_secrets s paths)
          (sort_secrets-Sorted s paths))
  | inr (m, e) ↦ rw (permissions, sort_secrets, e) (sort_secrets-Sorted s paths)
]

judge_secrets-Sorted :
    (total : ℕ) (perms : List ℕ) (r : List String × List String)
    → Sorted perms r
    → (((judge_secrets total r).status ≡ fail) ↔ ¬ All Private perms)
      × (((judge_secrets total r).status ≡ pass) ↔ All (λ p. Private p × Narrow p) perms)
unfolding judge_secrets
judge_secrets-Sorted total perms (world, wide) (private, narrow) = ground (arith, private, narrow)

is_empty-nil : {A : Type 0} (xs : List A) → is_empty xs ≡ true → xs ≡ []
is_empty-nil [] e = refl
is_empty-nil (x ∷ xs) e = ground (arith, e)

-- The check of the secret files fails exactly where others may use one of the files that can be
-- found, and it passes exactly where others may use none of them and the group's permissions of
-- each, as a number, are at most 4: those are reading alone and whatever leaves reading out.
pub check_secrets_at_rest-permissions :
    (s : System) (lc : LiveChecker)
    → let status = (check_secrets_at_rest s lc).status in
      let perms = permissions s (collect_secret_files s lc) in
      ((status ≡ fail) ↔ ¬ All Private perms)
      × ((status ≡ pass) ↔ All (λ p. Private p × Narrow p) perms)
unfolding check_secrets_at_rest permissions
check_secrets_at_rest-permissions s lc =
    let files = collect_secret_files s lc in
    let judged =
      judge_secrets-Sorted (length files) (permissions s files) (sort_secrets s files)
        (sort_secrets-Sorted s files) in
    elim (Bool-cases (is_empty files)) [
      | inl e ↦
          let none_there : permissions s files ≡ [] = ap (permissions s) (is_empty-nil files e) in
          rw (check_secrets_at_rest, e, none_there) (ground arith)
      | inr e ↦ rw (check_secrets_at_rest, e) judged
    ]
