-- ===== src/ClientDetect.antt =====
-- pkg/clientdetect/clientdetect.go: what a TLS ClientHello says about the client, and the log of the
-- clients that the inspector has seen. The posture store, the checks and the MDM client are children.
mod Ciphers
pub mod Fingerprint
pub mod Log
pub mod Posture
pub mod Checks
pub mod Evidence
pub mod Mdm
mod Tests
use cloudflared_fips.Prelude.{
  ℕ, suc, ◌+◌, ◌-◌, String, Bool, true, false, not, ◌&&◌, ◌||◌, List, [], ◌∷◌, ◌++◌, length, drop,
  ltb, if◌then◌else◌,
}
use cloudflared_fips.Prelude.Int.{ℤ, pos, negsuc}
use cloudflared_fips.Prelude.Text.{contains}
use cloudflared_fips.ClientDetect.Ciphers.{cipher_suite_name}

-- what the source reads of a `tls.ClientHelloInfo`
pub record ClientHello : Type 0 where
  pub remote_addr : String
  pub server_name : String
  pub cipher_suites : List ℕ
  pub supported_versions : List ℕ
  pub supported_protos : List String

pub record ClientInfo : Type 0 where
  pub remote_addr : String
  pub server_name : String
  pub tls_version : ℕ
  pub cipher_suites : List ℕ
  pub ja4_hash : String
  pub fips_capable : Bool
  pub fips_reason : String
  pub detected_at : ℕ

pub record Inspector : Type 0 where
  pub clients : List ClientInfo
  pub max_log : ℕ

pub new_inspector : ℤ → Inspector
new_inspector (pos (suc n)) = record { clients = []; max_log = suc n }
new_inspector _ = record { clients = []; max_log = 1000 }

-- the three flags of the loop over the suites
pub record Offered : Type 0 where
  pub has_chacha : Bool
  pub has_rc4_or_des : Bool
  pub has_aes_gcm : Bool

-- Every name is in capitals but for the `0x` of a number, which the tests do not look for, so that
-- the source's `ToUpper` changes none of them.
pub is_chacha : String → Bool
is_chacha name = contains name "CHACHA20"

pub is_rc4_or_des : String → Bool
is_rc4_or_des name = contains name "RC4" || contains name "3DES" || contains name "DES_CBC"

pub is_aes_gcm : String → Bool
is_aes_gcm name = contains name "AES" && contains name "GCM"

-- the body of the loop
pub note_suite : Offered → String → Offered
note_suite o name = record {
  has_chacha = o.has_chacha || is_chacha name;
  has_rc4_or_des = o.has_rc4_or_des || is_rc4_or_des name;
  has_aes_gcm = o.has_aes_gcm || is_aes_gcm name;
}

pub note_suites : Offered → List ℕ → Offered
note_suites o [] = o
note_suites o (id ∷ suites) = note_suites (note_suite o (cipher_suite_name id)) suites

pub verdict : Offered → Bool × String
verdict o =
    if o.has_rc4_or_des
    then (false, "Client offers banned ciphers (RC4/DES/3DES)")
    else if not o.has_chacha && o.has_aes_gcm
    then (true, "No ChaCha20, AES-GCM present — consistent with FIPS mode")
    else if o.has_chacha
    then (false, "Client offers ChaCha20-Poly1305 (non-FIPS cipher)")
    else if not o.has_aes_gcm
    then (false, "Client does not offer AES-GCM ciphers")
    else (false, "Indeterminate")

pub analyze_fips_capability : List ℕ → Bool × String
analyze_fips_capability suites = verdict (
    note_suites (record { has_chacha = false; has_rc4_or_des = false; has_aes_gcm = false }) suites)

abbrev first_version : List ℕ → ℕ
first_version [] = 0
first_version (v ∷ _) = v

-- `append`, then the trim to the newest `maxLog` records
pub log_client : ClientInfo → Inspector → Inspector
log_client info ins =
    let clients = ins.clients ++ info ∷ [] in
    if ltb ins.max_log (length clients)
    then record ins { clients = drop (length clients - ins.max_log) clients }
    else record ins { clients = clients }

-- The fingerprint comes from the child `Fingerprint`; the clock is an argument.
pub info_of : (ClientHello → String) → ℕ → ClientHello → ClientInfo
info_of ja4 now hello =
    let (capable, reason) = analyze_fips_capability hello.cipher_suites in
    record {
      remote_addr = hello.remote_addr;
      server_name = hello.server_name;
      tls_version = first_version hello.supported_versions;
      cipher_suites = hello.cipher_suites;
      ja4_hash = ja4 hello;
      fips_capable = capable;
      fips_reason = reason;
      detected_at = now;
    }

-- The callback always returns nil and no error, which keeps the server's configuration.
pub get_config_for_client : (ClientHello → String) → ℕ → ClientHello → Inspector → Inspector
get_config_for_client ja4 now hello ins = log_client (info_of ja4 now hello) ins

-- the number of records that a positive request within the log asks for, and all of them otherwise
abbrev pub asked : ℤ → ℕ → ℕ
asked (negsuc _) total = total
asked (pos n) total = if ltb 0 n && not (ltb total n) then n else total

pub recent_clients : ℤ → Inspector → List ClientInfo
recent_clients n ins = drop (length ins.clients - asked n (length ins.clients)) ins.clients

pub record FipsSummary : Type 0 where
  pub total : ℕ
  pub fips_capable : ℕ
  pub non_fips : ℕ

pub count_clients : FipsSummary → List ClientInfo → FipsSummary
count_clients s [] = s
count_clients s (c ∷ clients) =
    count_clients
      (if c.fips_capable
        then record s { total = s.total + 1; fips_capable = s.fips_capable + 1 }
        else record s { total = s.total + 1; non_fips = s.non_fips + 1 })
      clients

pub fips_stats : Inspector → FipsSummary
fips_stats ins = count_clients (record { total = 0; fips_capable = 0; non_fips = 0 }) ins.clients
