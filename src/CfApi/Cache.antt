-- ===== src/CfApi/Cache.antt =====
-- The cache of pkg/cfapi/client.go against the history of the calls.
use cloudflared_fips.Prelude.{
  ◌+◌, ◌<◌, ◌≡◌, ◌⊎◌, inl, inr, refl, sym, ap, ◌∙◌, String, Bool, true, false, ◌&&◌, List, [], ◌∷◌,
  none, some, Option-cases, Bool-cases, str_eq, ltb, arith, eq_iff,
}
use cloudflared_fips.Prelude.Assoc.{lookup, lookup-empty, lookup-insert, lookup-remove}
use cloudflared_fips.Prelude.Results.{Result, ok, err, Result-cases}
use cloudflared_fips.CfApi.{
  CacheEntry, Client, Wire, fresh_entry, request, get, invalidating, patch, post, put, delete,
  clear_cache,
}

pub data Op : Type 0 where
  read : Wire → String → Op
  patched : Wire → String → Result String → Op
  posted : Wire → String → Result String → Op
  replaced : Wire → String → Result String → Op
  deleted : Wire → String → Op
  cleared : Op

unfoldable pub step : Op → Client → Client
step (read w path) c = (get w path c).1
step (patched w path body) c = (patch w path body c).1
step (posted w path body) c = (post w path body c).1
step (replaced w path body) c = (put w path body c).1
step (deleted w path) c = (delete w path c).1
step cleared c = clear_cache c

-- the client after the calls of a history, the last one first
unfoldable pub run : Client → List Op → Client
run c [] = c
run c (op ∷ ops) = step op (run c ops)

abbrev succeeded {ℓ} : {A : Type ℓ} → Result A → Bool
succeeded (ok _) = true
succeeded (err _) = false

-- what a call of the client would get, where it gets as far as the request
abbrev sent : Client → Wire → String → String → Result String → Result String
sent c w method path (err e) = err e
sent c w method path (ok payload) = request w method path payload c

-- whether the call drops the path from the cache
pub clears : Client → String → Op → Bool
clears c path (read _ _) = false
clears c path (patched w p body) = str_eq p path && succeeded (sent c w "PATCH" p body)
clears c path (posted _ _ _) = false
clears c path (replaced w p body) = str_eq p path && succeeded (sent c w "PUT" p body)
clears c path (deleted w p) = str_eq p path && succeeded (request w "DELETE" p "" c)
clears c path cleared = true

-- The entry is the answer to a GET of the path, it expires the lifetime after that answer came, and
-- no later call has dropped the path from the cache.
pub data Backed (c : Client) (path : String) (e : CacheEntry) : List Op → Type 0 where
  answered :
      (w : Wire) (ops : List Op)
      → request w "GET" path "" c ≡ ok e.data_json
      → e.expires_at ≡ w.later + c.ttl
      → Backed c path e (read w path ∷ ops)
  kept :
      (op : Op) (ops : List Op)
      → clears c path op ≡ false
      → Backed c path e ops
      → Backed c path e (op ∷ ops)

abbrev Same : Client → Client → Type 0
Same a b = (a.token ≡ b.token) × (a.base_url ≡ b.base_url) × (a.ttl ≡ b.ttl)

request-Same :
    (a b : Client) (w : Wire) (method path payload : String)
    → Same a b
    → request w method path payload a ≡ request w method path payload b
request-Same a b w method path payload (token, url, _) = rw (token, url) refl

step-Same : (op : Op) (c : Client) → Same (step op c) c
unfolding step get patch post put delete clear_cache
step-Same (read w path) c = ground arith
step-Same (patched w path (err e)) c = ground arith
step-Same (patched w path (ok payload)) c = ground arith
step-Same (posted w path (err e)) c = ground arith
step-Same (posted w path (ok payload)) c = ground arith
step-Same (replaced w path (err e)) c = ground arith
step-Same (replaced w path (ok payload)) c = ground arith
step-Same (deleted w path) c = ground arith
step-Same cleared c = ground arith

run-Same : (c : Client) (ops : List Op) → Same (run c ops) c
unfolding run
run-Same c [] = (refl, refl, refl)
run-Same c (op ∷ ops) = ground (arith, step-Same op (run c ops), run-Same c ops)

module _ (c : Client) (path : String) (e : CacheEntry) (ops : List Op)
    (older : lookup path (run c ops).cache ≡ some e → Backed c path e ops) where
  read-Backed :
      (w : Wire) (p : String)
      → lookup path (get w p (run c ops)).1.cache ≡ some e
      → Backed c path e (read w p ∷ ops)
  unfolding step get clears
  read-Backed w p found =
      let now = run c ops in
      elim (Option-cases (fresh_entry w.now (lookup p now.cache))) [
        | inr (data_json, f) ↦ kept (read w p) ops refl (older (rw (get, f) at found))
        | inl f ↦ elim (Result-cases (request w "GET" p "" now)) [
          | inr (message, g) ↦ kept (read w p) ops refl (older (rw (get, f, g) at found))
          | inl (result, g) ↦
              let fetched = rw (get, f, g, lookup-insert) at found in
              elim (Bool-cases (str_eq p path)) [
                | inr other ↦ kept (read w p) ops refl (older (rw other at fetched))
                | inl same ↦
                    let entry = rw same at fetched in
                    let here = (eq_iff p path).0 same in
                    let kept_fields = run-Same c ops in
                    let payload : result ≡ e.data_json = ground (arith, entry) in
                    let expiry : w.later + now.ttl ≡ e.expires_at = ground (arith, entry) in
                    rw here (
                      answered w ops
                        (sym (request-Same now c w "GET" path "" kept_fields)
                          ∙ ap (λ x. request w "GET" x "" now) (sym here)
                          ∙ g
                          ∙ ap ok payload)
                        (sym expiry ∙ ap (λ t. w.later + t) kept_fields.2))
              ]
        ]
      ]

  clearing-Backed :
      (op : Op) (p : String) (r s : Result String)
      → r ≡ s
      → clears c path op ≡ (str_eq p path && succeeded s)
      → lookup path (invalidating p (run c ops) r).1.cache ≡ some e
      → Backed c path e (op ∷ ops)
  clearing-Backed op p (err m) s same drops found =
      kept op ops (ground (arith, same, drops)) (older found)
  clearing-Backed op p (ok m) s same drops found =
      let left = rw lookup-remove at found in
      kept op ops (ground (arith, same, drops, left)) (older (ground (arith, left)))

run-Backed :
    (c : Client) (ops : List Op) (path : String) (e : CacheEntry)
    → c.cache ≡ []
    → lookup path (run c ops).cache ≡ some e
    → Backed c path e ops
unfolding run step clears patch post put delete clear_cache
run-Backed c [] path e empty found =
    absurd
      (ground (arith, found, ap (λ m. lookup path m) empty, lookup-empty {V = CacheEntry} path))
run-Backed c (read w p ∷ ops) path e empty found =
    read-Backed c path e ops (run-Backed c ops path e empty) w p found
run-Backed c (patched w p (err m) ∷ ops) path e empty found =
    kept (patched w p (err m)) ops (ground arith) (run-Backed c ops path e empty found)
run-Backed c (patched w p (ok payload) ∷ ops) path e empty found =
    clearing-Backed c path e ops (run-Backed c ops path e empty) (patched w p (ok payload)) p
      (request w "PATCH" p payload (run c ops)) (request w "PATCH" p payload c)
      (request-Same (run c ops) c w "PATCH" p payload (run-Same c ops)) refl found
run-Backed c (posted w p (err m) ∷ ops) path e empty found =
    kept (posted w p (err m)) ops refl (run-Backed c ops path e empty found)
run-Backed c (posted w p (ok payload) ∷ ops) path e empty found =
    kept (posted w p (ok payload)) ops refl (run-Backed c ops path e empty found)
run-Backed c (replaced w p (err m) ∷ ops) path e empty found =
    kept (replaced w p (err m)) ops (ground arith) (run-Backed c ops path e empty found)
run-Backed c (replaced w p (ok payload) ∷ ops) path e empty found =
    clearing-Backed c path e ops (run-Backed c ops path e empty) (replaced w p (ok payload)) p
      (request w "PUT" p payload (run c ops)) (request w "PUT" p payload c)
      (request-Same (run c ops) c w "PUT" p payload (run-Same c ops)) refl found
run-Backed c (deleted w p ∷ ops) path e empty found =
    clearing-Backed c path e ops (run-Backed c ops path e empty) (deleted w p) p
      (request w "DELETE" p "" (run c ops)) (request w "DELETE" p "" c)
      (request-Same (run c ops) c w "DELETE" p "" (run-Same c ops)) refl found
run-Backed c (cleared ∷ ops) path e empty found =
    absurd (ground (arith, found, lookup-empty {V = CacheEntry} path))

get-missed :
    (c now : Client) (w : Wire) (path answer : String)
    → Same now c
    → fresh_entry w.now (lookup path now.cache) ≡ none
    → (get w path now).0 ≡ ok answer
    → request w "GET" path "" c ≡ ok answer
unfolding get
get-missed c now w path answer same missed got = elim (Result-cases (request w "GET" path "" now)) [
  | inl (result, g) ↦ sym (request-Same now c w "GET" path "" same) ∙ g ∙ rw (get, missed, g) at got
  | inr (message, g) ↦ absurd (let wrong = rw (get, missed, g) at got in ground (arith, wrong))
]

-- What a GET may answer after any history of calls of a client that began with an empty cache:
-- either the answer comes from the API now, or it is one that the API gave to an earlier GET of the
-- same path less than the lifetime ago, and since then no PATCH, PUT or DELETE of that path has
-- succeeded and the cache has not been cleared. A POST in between may have succeeded.
pub get-Backed :
    (c : Client) (ops : List Op) (w : Wire) (path answer : String)
    → c.cache ≡ []
    → (get w path (run c ops)).0 ≡ ok answer
    → (request w "GET" path "" c ≡ ok answer)
      ⊎ ((e : CacheEntry) × (e.data_json ≡ answer) × (w.now < e.expires_at) × Backed c path e ops)
unfolding get
get-Backed c ops w path answer empty got =
    let now = run c ops in
    elim (Option-cases (lookup path now.cache)) [
      | inl none_there ↦
          inl (get-missed c now w path answer (run-Same c ops) (rw none_there refl) got)
      | inr (e, there) ↦ elim (Bool-cases (ltb w.now e.expires_at)) [
        | inl fresh ↦ inr (
          e,
          (let given = rw (get, there, fresh) at got in ground (arith, given)),
          ground (arith, fresh),
          run-Backed c ops path e empty there,
        )
        | inr stale ↦
            inl (get-missed c now w path answer (run-Same c ops) (rw (there, stale) refl) got)
      ]
    ]
