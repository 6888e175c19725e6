-- ===== src/CfApi/Tunnels.antt =====
-- pkg/cfapi/tunnel_mgmt.go: tunnels and DNS records that the client makes, finds and deletes.
use cloudflared_fips.Prelude.{String, Bool, true, List, Option, none, some}
use cloudflared_fips.Prelude.Results.{Result, ok, err}
use cloudflared_fips.Prelude.Text.{concat}
use cloudflared_fips.CfApi.{Client, Call, Wire, get, post, put, delete}

pub record TunnelWithToken : Type 0 where
  pub id : String
  pub name : String
  pub token : String

pub record CreateTunnelResponse : Type 0 where
  pub id : String
  pub name : String

pub record TunnelIngressRule : Type 0 where
  pub hostname : String
  pub service : String

pub record DnsRecord : Type 0 where
  pub kind : String
  pub name : String
  pub content : String
  pub proxied : Bool
  pub comment : String

pub record DnsRecordResult : Type 0 where
  pub id : String
  pub kind : String
  pub name : String
  pub content : String

-- Go's JSON and base64 for the bodies and answers here, a secret as its bytes in a text
pub record TunnelCodec : Type 0 where
  pub base64 : String → String
  pub token_json : String → String → String → String
  pub write_tunnel : String → String → Result String
  pub write_ingress : List TunnelIngressRule → Result String
  pub write_record : DnsRecord → Result String
  pub read_tunnel : String → Result CreateTunnelResponse
  pub read_text : String → Result String
  pub read_record : String → Result DnsRecordResult
  pub read_records : String → Result (List DnsRecordResult)

abbrev of_account : String → String → String
of_account account_id rest = concat "/accounts/" (concat account_id rest)

abbrev of_dns : String → String → String
of_dns zone_id rest = concat "/zones/" (concat zone_id (concat "/dns_records" rest))

generate_tunnel_token : TunnelCodec → String → String → String → String
generate_tunnel_token j account_id tunnel_id secret =
    j.base64 (j.token_json account_id tunnel_id (j.base64 secret))

module _ {ℓ} {A B : Type ℓ} where
  -- the two wrapped errors of a call, of the request and of what is decoded, and the value made of it
  abbrev finished : String → (A → B) → Result A → Result B
  finished parse make (err e) = err (concat parse (concat ": " e))
  finished parse make (ok a) = ok (make a)

  abbrev made : String → String → (String → Result A) → (A → B) → Result String → Result B
  made call parse read make (err e) = err (concat call (concat ": " e))
  made call parse read make (ok data_json) = finished parse make (read data_json)

abbrev same {ℓ} : {A : Type ℓ} → A → A
same a = a

abbrev with_token : TunnelCodec → String → String → CreateTunnelResponse → TunnelWithToken
with_token j account_id secret resp = record {
  id = resp.id;
  name = resp.name;
  token = generate_tunnel_token j account_id resp.id secret;
}

-- the random secret, or the error of the source of randomness
create_tunnel : TunnelCodec → Result String → Wire → String → String → Call TunnelWithToken
create_tunnel j (err e) w account_id name c = (err (concat "generate tunnel secret: " e), c)
create_tunnel j (ok secret) w account_id name c =
    let (got, next) =
      post w (of_account account_id "/cfd_tunnel") (j.write_tunnel name (j.base64 secret)) c in
    (
      made "create tunnel" "parse tunnel response" j.read_tunnel (with_token j account_id secret)
          got,
      next,
    )

get_tunnel_token : TunnelCodec → Wire → String → String → Call String
get_tunnel_token j w account_id tunnel_id c =
    let (got, next) =
      get w (of_account account_id (concat "/cfd_tunnel/" (concat tunnel_id "/token"))) c in
    (made "get tunnel token" "parse tunnel token" j.read_text same got, next)

-- the error alone, wrapped
abbrev failure : String → Result String → Option String
failure label (ok _) = none
failure label (err e) = some (concat label (concat ": " e))

configure_tunnel_ingress :
    TunnelCodec → Wire → String → String → List TunnelIngressRule → Client → Option String × Client
configure_tunnel_ingress j w account_id tunnel_id ingress c =
    let (got, next) =
      put w (of_account account_id (concat "/cfd_tunnel/" (concat tunnel_id "/configurations")))
        (j.write_ingress ingress) c in
    (failure "configure tunnel ingress" got, next)

abbrev cname : String → String → DnsRecord
cname hostname tunnel_id = record {
  kind = "CNAME";
  name = hostname;
  content = concat tunnel_id ".cfargotunnel.com";
  proxied = true;
  comment = "Created by cloudflared-fips TUI wizard";
}

create_dns_cname : TunnelCodec → Wire → String → String → String → Call DnsRecordResult
create_dns_cname j w zone_id hostname tunnel_id c =
    let (got, next) = post w (of_dns zone_id "") (j.write_record (cname hostname tunnel_id)) c in
    (made "create DNS CNAME" "parse DNS record response" j.read_record same got, next)

delete_tunnel : Wire → String → String → Client → Option String × Client
delete_tunnel w account_id tunnel_id c =
    let (got, next) = delete w (of_account account_id (concat "/cfd_tunnel/" tunnel_id)) c in
    (failure "delete tunnel" got, next)

delete_dns_record : Wire → String → String → Client → Option String × Client
delete_dns_record w zone_id record_id c =
    let (got, next) = delete w (of_dns zone_id (concat "/" record_id)) c in
    (failure "delete DNS record" got, next)

find_dns_record : TunnelCodec → Wire → String → String → String → Call (List DnsRecordResult)
find_dns_record j w zone_id name record_type c =
    let (got, next) =
      get w (of_dns zone_id (concat "?type=" (concat record_type (concat "&name=" name)))) c in
    (made "find DNS records" "parse DNS records response" j.read_records same got, next)
