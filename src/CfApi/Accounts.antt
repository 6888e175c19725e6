-- ===== src/CfApi/Accounts.antt =====
-- `DiscoverAccountsFromZones` of pkg/cfapi/zone.go: the accounts that the zones name.
use cloudflared_fips.Prelude.{
  ◌≡◌, refl, inl, inr, String, Bool, true, false, not, ◌&&◌, ◌||◌, List, [], ◌∷◌, map, Bool-cases,
  str_eq, arith, eq_iff,
}
use cloudflared_fips.CfApi.Zone.{Account, Zone}

-- `seen` as the list of the ids in it
pub has_id : String → List String → Bool
has_id id [] = false
has_id id (other ∷ seen) = str_eq other id || has_id id seen

abbrev is_new : List String → Zone → Bool
is_new seen z = not (str_eq z.account.id "") && not (has_id z.account.id seen)

discover : List String → List Zone → List Account
discover seen [] = []
discover seen (z ∷ zones) = elim (is_new seen z) [
  | true ↦ z.account ∷ discover (z.account.id ∷ seen) zones
  | false ↦ discover seen zones
]

pub discover_accounts_from_zones : List Zone → List Account
discover_accounts_from_zones zones = discover [] zones

abbrev pub ids : List Account → List String
ids = map (λ a. a.id)

-- no id stands twice in the list, or once more in the other
pub is_distinct : List String → List String → Bool
is_distinct seen [] = true
is_distinct seen (id ∷ rest) = not (has_id id seen) && is_distinct (id ∷ seen) rest

discover-is_distinct :
    (seen : List String) (zones : List Zone) → is_distinct seen (ids (discover seen zones)) ≡ true
unfolding discover is_distinct
discover-is_distinct seen [] = refl
discover-is_distinct seen (z ∷ zones) = elim (Bool-cases (is_new seen z)) [
  | inl e ↦ rw (discover, e) (ground (arith, e, discover-is_distinct (z.account.id ∷ seen) zones))
  | inr e ↦ rw (discover, e) (discover-is_distinct seen zones)
]

-- whether a zone of the list names the account's id
pub is_named : String → List Zone → Bool
is_named id [] = false
is_named id (z ∷ zones) = str_eq z.account.id id || is_named id zones

discover-has_id :
    (id : String) (seen : List String) (zones : List Zone)
    → (has_id id seen || has_id id (ids (discover seen zones)))
      ≡ (has_id id seen || (not (str_eq id "") && is_named id zones))
unfolding discover has_id is_named
discover-has_id id seen [] = ground arith
discover-has_id id seen (z ∷ zones) = elim (Bool-cases (is_new seen z)) [
  | inl e ↦
      rw (discover, e)
        (ground (arith, e, eq_iff z.account.id id, discover-has_id id (z.account.id ∷ seen) zones))
  | inr e ↦
      rw (discover, e) (ground (arith, e, eq_iff z.account.id id, discover-has_id id seen zones))
]

-- The accounts are found once each: no two have one id, and an id is among them exactly where it is
-- not empty and some zone names it.
discover_accounts-once :
    (zones : List Zone)
    → let found = ids (discover_accounts_from_zones zones) in
      (is_distinct [] found ≡ true)
      × ((id : String) → has_id id found ≡ (not (str_eq id "") && is_named id zones))
unfolding discover_accounts_from_zones has_id
discover_accounts-once zones = (discover-is_distinct [] zones, λ id. discover-has_id id [] zones)
