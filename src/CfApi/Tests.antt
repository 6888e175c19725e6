-- ===== src/CfApi/Tests.antt =====
-- The theorems on pkg/cfapi at a history that reads a path and writes another, and at a network that
-- reaches nothing.
use cloudflared_fips.Prelude.{
  ℕ, ◌+◌, ◌<◌, ◌≡◌, ◌⊎◌, refl, All, length, none, String, true, [], ◌∷◌, List,
}
use cloudflared_fips.Prelude.Assoc.{lookup, insert, remove}
use cloudflared_fips.Prelude.Results.{ok, err}
use cloudflared_fips.CfApi.{
  ApiResponse, CacheEntry, Client, Wire, replied, unreachable, request, unpack, get, patch,
}
use cloudflared_fips.Compliance.{unknown}
use cloudflared_fips.CfApi.Zone.{Codec}
use cloudflared_fips.CfApi.Edge.Run.{ComplianceChecker, run_edge_checks}
use cloudflared_fips.CfApi.Edge.Closed.{run_edge_checks-Closed}
use cloudflared_fips.CfApi.Cache.{Op, read, patched, run, step, Backed, get-Backed}

abbrev answering : String → ApiResponse
answering text = record { success = true; errors = []; result = text }

abbrev wire : ℕ → String → Wire
wire now text = record {
  now = now;
  later = now + 1;
  send = λ token method url payload. replied 200 (ok (answering text));
}

abbrev client : Client
client = record { token = "t"; base_url = "https://api"; cache = []; ttl = 60 }

-- the last call first
abbrev calls : List Op
calls =
    patched (wire 20 "done") "/zones/z/ciphers" (ok "[]")
    ∷ read (wire 10 "strict") "/zones/z/ssl"
    ∷ []

get-Backed_example :
    (request (wire 30 "flexible") "GET" "/zones/z/ssl" "" client ≡ ok "strict")
    ⊎ ((e : CacheEntry) × (e.data_json ≡ "strict")
        × (30 < e.expires_at)
        × Backed client "/zones/z/ssl" e calls)
unfolding run step get patch unpack lookup insert remove
get-Backed_example = get-Backed client calls (wire 30 "flexible") "/zones/z/ssl" "strict" refl refl

abbrev codec : Codec
codec = record {
  setting = λ text. ok text;
  text = λ text. ok text;
  texts = λ text. ok (text ∷ []);
  header = λ text. err "no header";
  packs = λ text. ok [];
  apps = λ text. ok [];
  tunnel = λ text. err "no tunnel";
  tunnels = λ text. ok [];
  keyless = λ text. ok [];
  regional = λ text. err "no setting";
  accounts = λ text. ok [];
  zones = λ text. ok [];
}

abbrev cut_off : ℕ → Wire
cut_off n = record {
  now = n;
  later = n + 1;
  send = λ token method url payload. unreachable "no route to host";
}

abbrev edge : ComplianceChecker
edge = record { zone_id = "z"; account_id = "a"; tunnel_id = "t" }

run_edge_checks-Closed_example :
    let (section, next) = run_edge_checks codec (λ text. none) cut_off edge client in
    (length section.items ≡ 11)
    × All (λ item. item.status ≡ unknown) section.items
    × (next ≡ client)
unfolding unpack
run_edge_checks-Closed_example =
    run_edge_checks-Closed codec (λ text. none) cut_off edge client refl
      (λ n path. ("API request failed: no route to host", refl))
