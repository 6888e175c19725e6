-- ===== src/ClientDetect/Fingerprint.antt =====
-- The JA4-style fingerprint of pkg/clientdetect/clientdetect.go and the table of known clients.
use cloudflared_fips.Prelude.{
  ℕ, suc, ◌≡◌, refl, ap, ◌∙◌, String, Bool, true, false, List, [], ◌∷◌, Option, none, some, length,
  leb, ltb, ◌==◌, if◌then◌else◌, arith,
}
use cloudflared_fips.Prelude.Assoc.{Assoc, lookup}
use cloudflared_fips.Prelude.Text.{concat, decimal, split_cuts}
use cloudflared_fips.ClientDetect.{ClientHello}
use cloudflared_fips.ClientDetect.Ciphers.{hex4}
use mathlib.Core.List.{Perm, Permᴰ}
use mathlib.Core.Logic.{∥∥₁_elim}

-- `sort.Slice` by the numbers, which any stable or unstable sort orders alike
insert_suite : ℕ → List ℕ → List ℕ
insert_suite x [] = x ∷ []
insert_suite x (y ∷ ys) = let rest = insert_suite x ys in if leb x y then x ∷ y ∷ ys else y ∷ rest

sort_suites : List ℕ → List ℕ
unfolding insert_suite
sort_suites [] = []
sort_suites (x ∷ xs) = insert_suite x (sort_suites xs)

abbrev join_from : String → List ℕ → String
join_from text [] = text
join_from text (id ∷ suites) = join_from (concat text (concat "," (hex4 id))) suites

-- `strings.Join` of the `%04x` of each
abbrev join_suites : List ℕ → String
join_suites [] = ""
join_suites (id ∷ suites) = join_from (hex4 id) suites

abbrev version_text : ℕ → String
version_text v =
    if v == 0x0304
    then "13"
    else if v == 0x0303
    then "12"
    else if v == 0x0302
    then "11"
    else if v == 0x0301
    then "10"
    else "00"

abbrev offered_version : List ℕ → String
offered_version [] = "00"
offered_version (v ∷ _) = version_text v

-- `alpn[:2]` where it is longer than two bytes; protocol names are of single-byte characters
abbrev first_two : String → String
first_two String.[] = String.[]
first_two (String.◌∷◌ c String.[]) = String.◌∷◌ c String.[]
first_two (String.◌∷◌ c (String.◌∷◌ d _)) = String.◌∷◌ c (String.◌∷◌ d String.[])

abbrev offered_alpn : List String → String
offered_alpn [] = "00"
offered_alpn (alpn ∷ _) = first_two alpn

-- `%02d`
abbrev two_digits : ℕ → String
two_digits n = if ltb n 10 then concat "0" (decimal n) else decimal n

module _ (hash : String → String) where
  -- `hash` is the hexadecimal text of the first six bytes of SHA-256.
  pub compute_ja4 : ClientHello → String
  compute_ja4 hello = concat "t" (
      concat (offered_version hello.supported_versions) (
        concat "_" (
          concat (two_digits (length hello.cipher_suites)) (
            concat "_" (
              concat (offered_alpn hello.supported_protos)
                (concat "_" (hash (join_suites (sort_suites hello.cipher_suites)))))))))

abbrev known_fips_fingerprints : Assoc String
known_fips_fingerprints =
    ("t13_04_h2", "Windows FIPS mode (Edge/Chrome via Schannel CNG)")
    ∷ ("t12_04_h2", "Windows FIPS mode (TLS 1.2 only, Edge/Chrome via Schannel CNG)")
    ∷ ("t12_06_h2", "Windows FIPS mode (legacy Edge, AES-GCM + AES-CBC suites)")
    ∷ ("t13_06_h2", "Windows FIPS mode (legacy Edge with TLS 1.3, mixed suites)")
    ∷ ("t13_08_h2", "RHEL Firefox (NSS FIPS mode, TLS 1.3)")
    ∷ ("t12_08_h2", "RHEL Firefox (NSS FIPS mode, TLS 1.2)")
    ∷ ("t13_06_00", "RHEL curl/OpenSSL FIPS (no ALPN)")
    ∷ ("t12_06_00", "RHEL curl/OpenSSL FIPS (TLS 1.2, no ALPN)")
    ∷ ("t13_03_h2", "macOS Safari (restricted profile, FIPS-approved suites only)")
    ∷ ("t13_09_h2", "Go client (BoringCrypto FIPS build)")
    ∷ ("t13_05_h2", "Cloudflare WARP (FIPS enforcement enabled)")
    ∷ []

abbrev described : Option String → String × Bool
described none = ("", false)
described (some desc) = (desc, true)

abbrev by_prefix : List String → String × Bool
by_prefix (version ∷ count ∷ alpn ∷ _) =
    described (
      lookup (concat version (concat "_" (concat count (concat "_" alpn)))) known_fips_fingerprints)
by_prefix _ = ("", false)

match_known_fips_client : String → String × Bool
match_known_fips_client ja4_hash = elim (lookup ja4_hash known_fips_fingerprints) [
  | some desc ↦ (desc, true)
  | none ↦ by_prefix (split_cuts b'_' 3 ja4_hash)
]

insert_suite_comm :
    (a b : ℕ) (l : List ℕ) → insert_suite a (insert_suite b l) ≡ insert_suite b (insert_suite a l)
unfolding insert_suite
insert_suite_comm a b [] = ground arith
insert_suite_comm a b (y ∷ ys) = ground (arith, insert_suite_comm a b ys)

sort_suites-Permᴰ :
    {l r : List ℕ} → Permᴰ l r → (sort_suites l ≡ sort_suites r) × (length l ≡ length r)
unfolding sort_suites
sort_suites-Permᴰ Permᴰ.nil = (refl, refl)
sort_suites-Permᴰ (Permᴰ.cons e p) =
    let (sorted, sizes) = sort_suites-Permᴰ p in (λ i. insert_suite (e i) (sorted i), ap suc sizes)
sort_suites-Permᴰ (Permᴰ.swap {a = a} {b = b} {l = l} e f) = (
  insert_suite_comm a b (sort_suites l)
      ∙ (λ i. insert_suite (f i) (insert_suite (e i) (sort_suites l))),
  refl,
)
sort_suites-Permᴰ (Permᴰ.trans p q) =
    let (sorted, sizes) = sort_suites-Permᴰ p in
    let (sorted_too, sizes_too) = sort_suites-Permᴰ q in (sorted ∙ sorted_too, sizes ∙ sizes_too)

suites-IsSet : IsSet (List ℕ)
suites-IsSet = hlevel

size-IsSet : IsSet ℕ
size-IsSet = hlevel

-- The fingerprint does not depend on the order in which a client offers its cipher suites: two
-- ClientHellos that differ in that order alone have one fingerprint.
compute_ja4-Perm :
    (hash : String → String) (hello : ClientHello) (suites : List ℕ)
    → Perm hello.cipher_suites suites
    → compute_ja4 hash hello ≡ compute_ja4 hash (record hello { cipher_suites = suites })
unfolding compute_ja4
compute_ja4-Perm hash hello suites p =
    let sorted =
      ∥∥₁_elim p (suites-IsSet (sort_suites hello.cipher_suites) (sort_suites suites))
        (λ d. (sort_suites-Permᴰ d).0) in
    let sizes =
      ∥∥₁_elim p (size-IsSet (length hello.cipher_suites) (length suites))
        (λ d. (sort_suites-Permᴰ d).1) in
    rw (sorted, sizes) refl
