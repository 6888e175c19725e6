-- ===== src/ClientDetect/Ciphers.antt =====
-- `tls.CipherSuiteName` of Go's library, as far as pkg/clientdetect/clientdetect.go uses it: the names
-- of the suites that Go knows, and the hexadecimal number of any other.
use cloudflared_fips.Prelude.{
  ℕ, ◌≡◌, refl, suc, ◌/◌, ◌%◌, String, List, [], ◌∷◌, Option, none, some, ◌==◌, if◌then◌else◌,
}
use cloudflared_fips.Prelude.Text.{concat}
use Prim.Native.String.{slice}

abbrev suite_names : List (ℕ × String)
suite_names =
    (0x0005, "TLS_RSA_WITH_RC4_128_SHA")
    ∷ (0x000a, "TLS_RSA_WITH_3DES_EDE_CBC_SHA")
    ∷ (0x002f, "TLS_RSA_WITH_AES_128_CBC_SHA")
    ∷ (0x0035, "TLS_RSA_WITH_AES_256_CBC_SHA")
    ∷ (0x003c, "TLS_RSA_WITH_AES_128_CBC_SHA256")
    ∷ (0x009c, "TLS_RSA_WITH_AES_128_GCM_SHA256")
    ∷ (0x009d, "TLS_RSA_WITH_AES_256_GCM_SHA384")
    ∷ (0xc007, "TLS_ECDHE_ECDSA_WITH_RC4_128_SHA")
    ∷ (0xc009, "TLS_ECDHE_ECDSA_WITH_AES_128_CBC_SHA")
    ∷ (0xc00a, "TLS_ECDHE_ECDSA_WITH_AES_256_CBC_SHA")
    ∷ (0xc011, "TLS_ECDHE_RSA_WITH_RC4_128_SHA")
    ∷ (0xc012, "TLS_ECDHE_RSA_WITH_3DES_EDE_CBC_SHA")
    ∷ (0xc013, "TLS_ECDHE_RSA_WITH_AES_128_CBC_SHA")
    ∷ (0xc014, "TLS_ECDHE_RSA_WITH_AES_256_CBC_SHA")
    ∷ (0xc023, "TLS_ECDHE_ECDSA_WITH_AES_128_CBC_SHA256")
    ∷ (0xc027, "TLS_ECDHE_RSA_WITH_AES_128_CBC_SHA256")
    ∷ (0xc02b, "TLS_ECDHE_ECDSA_WITH_AES_128_GCM_SHA256")
    ∷ (0xc02c, "TLS_ECDHE_ECDSA_WITH_AES_256_GCM_SHA384")
    ∷ (0xc02f, "TLS_ECDHE_RSA_WITH_AES_128_GCM_SHA256")
    ∷ (0xc030, "TLS_ECDHE_RSA_WITH_AES_256_GCM_SHA384")
    ∷ (0xcca8, "TLS_ECDHE_RSA_WITH_CHACHA20_POLY1305_SHA256")
    ∷ (0xcca9, "TLS_ECDHE_ECDSA_WITH_CHACHA20_POLY1305_SHA256")
    ∷ (0x1301, "TLS_AES_128_GCM_SHA256")
    ∷ (0x1302, "TLS_AES_256_GCM_SHA384")
    ∷ (0x1303, "TLS_CHACHA20_POLY1305_SHA256")
    ∷ []

unfoldable pub find_name : ℕ → List (ℕ × String) → Option String
find_name id [] = none
find_name id ((known, name) ∷ rest) =
    let later = find_name id rest in if known == id then some name else later

-- the digit of the power of sixteen in a number below 2^16
abbrev hex_digit : String → ℕ → ℕ → String
hex_digit digits n power = slice digits (n / power % 16) (suc (n / power % 16))

unfoldable pub hex4_of : String → ℕ → String
hex4_of digits n =
    concat (hex_digit digits n 4096)
      (concat (hex_digit digits n 256) (concat (hex_digit digits n 16) (hex_digit digits n 1)))

-- `%04x` and `%04X` of a `uint16`
pub hex4 : ℕ → String
unfolding hex4_of
hex4 n = hex4_of "0123456789abcdef" n

abbrev or_number : ℕ → Option String → String
or_number id none = concat "0x" (hex4_of "0123456789ABCDEF" id)
or_number id (some name) = name

-- `tls.CipherSuiteName`
unfoldable pub cipher_suite_name : ℕ → String
unfolding find_name hex4_of
cipher_suite_name id = or_number id (find_name id suite_names)

known_name : cipher_suite_name 0x1303 ≡ "TLS_CHACHA20_POLY1305_SHA256"
unfolding cipher_suite_name find_name
known_name = refl

unknown_name : cipher_suite_name 0x0a0a ≡ "0x0A0A"
unfolding cipher_suite_name find_name hex4_of
unknown_name = refl
