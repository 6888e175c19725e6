-- ===== src/Prelude/Assoc.antt =====
-- A Go map with text keys as an association list, and its laws. The program never depends on the
-- order of a map's entries.
use cloudflared_fips.Prelude.Tests.{str_eq, str_eq-ne, if◌then◌else◌}
use Prim.Native.String.{String}
use mathlib.Core.Path.{◌≡◌, refl}
use mathlib.Core.Option.{Option, none, some}
use mathlib.Core.List.{List, [], ◌∷◌}
use native.Mathlib.Omega.{arith}
use text.Mathlib.TextEquality.{eq_iff}
use text.Mathlib.TextPositions.{eq_refl}
use mathlib.Core.Logic.{◌≢◌}

abbrev pub Assoc {ℓ} : Type ℓ → Type ℓ
Assoc V = List (String × V)

module _ {ℓ} {V : Type ℓ} where
  unfoldable pub lookup : String → Assoc V → Option V
  lookup wanted [] = none
  lookup wanted ((key, value) ∷ rest) = if str_eq key wanted then some value else lookup wanted rest

  pub lookup-empty : (wanted : String) → lookup wanted [] ≡ none
  unfolding lookup
  lookup-empty wanted = refl

  -- Every entry of the key goes, so that the law below needs no invariant.
  unfoldable pub remove : String → Assoc V → Assoc V
  remove gone [] = []
  remove gone (entry ∷ rest) =
      let others = remove gone rest in if str_eq entry.0 gone then others else entry ∷ others

  pub lookup-remove :
      (gone wanted : String) (entries : Assoc V)
      → lookup wanted (remove gone entries)
        ≡ (if str_eq gone wanted then none else lookup wanted entries)
  unfolding lookup remove
  lookup-remove gone wanted [] = ground arith
  lookup-remove gone wanted ((key, value) ∷ rest) =
      let ih = lookup-remove gone wanted rest in
      ground (arith, eq_iff gone wanted, ih, eq_iff key wanted, eq_iff key gone)

  unfoldable pub insert : String → V → Assoc V → Assoc V
  insert put value [] = (put, value) ∷ []
  insert put value (entry ∷ rest) =
      let others = insert put value rest in
      if str_eq entry.0 put then (put, value) ∷ rest else entry ∷ others

  pub lookup-insert :
      (put wanted : String) (value : V) (entries : Assoc V)
      → lookup wanted (insert put value entries)
        ≡ (if str_eq put wanted then some value else lookup wanted entries)
  unfolding lookup insert
  lookup-insert put wanted value [] = refl
  lookup-insert put wanted value ((key, old) ∷ rest) =
      let ih = lookup-insert put wanted value rest in
      ground (arith, eq_iff key wanted, eq_iff key put, eq_iff put wanted, ih)

pub ruleset assoc_laws = (lookup-empty, lookup-insert, lookup-remove)

module _ {ℓ} {V : Type ℓ} where
  pub lookup-insert_self : (k : String) (v : V) (m : Assoc V) → lookup k (insert k v m) ≡ some v
  lookup-insert_self k v m = rw (lookup-insert, eq_refl)

  pub lookup-insert_ne :
      (k j : String) (v : V) (m : Assoc V) → k ≢ j → lookup j (insert k v m) ≡ lookup j m
  lookup-insert_ne k j v m h = rw (lookup-insert, str_eq-ne k j h)

  pub lookup-remove_self : (k : String) (m : Assoc V) → lookup k (remove k m) ≡ none
  lookup-remove_self k m = rw (lookup-remove, eq_refl)

  pub lookup-remove_ne : (k j : String) (m : Assoc V) → k ≢ j → lookup j (remove k m) ≡ lookup j m
  lookup-remove_ne k j m h = rw (lookup-remove, str_eq-ne k j h)
