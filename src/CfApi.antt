-- ===== src/CfApi.antt =====
-- pkg/cfapi/client.go: the client of the Cloudflare API, whose GET answers are cached for a while.
pub mod Zone
pub mod Tunnels
pub mod Cache
pub mod Items
pub mod Edge
pub mod Accounts
mod Tests
use cloudflared_fips.Prelude.{
  ℕ, ◌+◌, String, Bool, true, false, List, [], ◌∷◌, Option, none, some, ◌==◌, ltb, if◌then◌else◌,
}
use cloudflared_fips.Prelude.Assoc.{Assoc, lookup, insert, remove}
use cloudflared_fips.Prelude.Results.{Result, ok, err}
use cloudflared_fips.Prelude.Text.{concat, decimal}

-- `data` is the raw JSON of a result.
pub record CacheEntry : Type 0 where
  pub data_json : String
  pub expires_at : ℕ

pub record Client : Type 0 where
  pub token : String
  pub base_url : String
  pub cache : Assoc CacheEntry
  pub ttl : ℕ

-- `WithBaseURL` and `WithCacheTTL`
with_base_url : String → Client → Client
with_base_url url c = record c { base_url = url }

with_cache_ttl : ℕ → Client → Client
with_cache_ttl ttl c = record c { ttl = ttl }

apply_all : List (Client → Client) → Client → Client
apply_all [] c = c
apply_all (opt ∷ opts) c = apply_all opts (opt c)

-- times in seconds
new_client : String → List (Client → Client) → Client
unfolding apply_all
new_client token opts = apply_all opts (record {
  token = token;
  base_url = "https://api.cloudflare.com/client/v4";
  cache = [];
  ttl = 60;
})

pub record ApiError : Type 0 where
  pub code : ℕ
  pub message : String

pub record ApiResponse : Type 0 where
  pub success : Bool
  pub errors : List ApiError
  pub result : String

-- What becomes of a request: it cannot be built, it gets no answer, the answer cannot be read, or
-- there is a status with a body, which is an envelope or not.
pub data Reply : Type 0 where
  unbuilt : String → Reply
  unreachable : String → Reply
  unread : String → Reply
  replied : ℕ → Result ApiResponse → Reply

-- The clock before the request and after the answer, and the network: by the token, the method, the
-- URL and the payload.
pub record Wire : Type 0 where
  pub now : ℕ
  pub later : ℕ
  pub send : String → String → String → String → Reply

abbrev pub Call {ℓ} : Type ℓ → Type ℓ
Call A = Client → Result A × Client

abbrev error_of : List ApiError → String
error_of [] = "API returned success=false"
error_of (e ∷ _) =
    concat "API error: " (concat e.message (concat " (code " (concat (decimal e.code) ")")))

abbrev unpack_response : ApiResponse → Result String
unpack_response r = if r.success then ok r.result else err (error_of r.errors)

abbrev unpack_body : Result ApiResponse → Result String
unpack_body (err e) = err (concat "parse API response: " e)
unpack_body (ok r) = unpack_response r

-- the part that every method shares, from the request to the result
pub unpack : Reply → Result String
unpack (unbuilt e) = err (concat "create request: " e)
unpack (unreachable e) = err (concat "API request failed: " e)
unpack (unread e) = err (concat "read response: " e)
unpack (replied status body) =
    if status == 429 then err "rate limited by Cloudflare API (429)" else unpack_body body

abbrev pub fresh_entry : ℕ → Option CacheEntry → Option String
fresh_entry now none = none
fresh_entry now (some e) = if ltb now e.expires_at then some e.data_json else none

abbrev pub request : Wire → String → String → String → Client → Result String
request w method path payload c = unpack (w.send c.token method (concat c.base_url path) payload)

pub get : Wire → String → Call String
get w path c = elim (fresh_entry w.now (lookup path c.cache)) [
  | some data_json ↦ (ok data_json, c)
  | none ↦ elim (request w "GET" path "" c) [
    | err e ↦ (err e, c)
    | ok result ↦ (
      ok result,
      record c {
        cache = insert path (record { data_json = result; expires_at = w.later + c.ttl }) c.cache;
      },
    )
  ]
]

-- the cache after a write that succeeded
abbrev pub invalidating : String → Client → Result String → Result String × Client
invalidating path c (err e) = (err e, c)
invalidating path c (ok result) = (ok result, record c { cache = remove path c.cache })

-- The payload is the JSON of the body, if it can be written.
abbrev with_payload : Result String → (String → Call String) → Call String
with_payload (err e) send c = (err (concat "marshal request: " e), c)
with_payload (ok payload) send c = send payload c

pub patch : Wire → String → Result String → Call String
patch w path body =
    with_payload body (λ payload. λ c. invalidating path c (request w "PATCH" path payload c))

pub post : Wire → String → Result String → Call String
post w path body = with_payload body (λ payload. λ c. (request w "POST" path payload c, c))

pub put : Wire → String → Result String → Call String
put w path body =
    with_payload body (λ payload. λ c. invalidating path c (request w "PUT" path payload c))

pub delete : Wire → String → Call String
delete w path c = invalidating path c (request w "DELETE" path "" c)

pub clear_cache : Client → Client
clear_cache c = record c { cache = [] }
