-- ===== src/Fleet/Tests.antt =====
-- The theorems on pkg/fleet at the sample fleet.
use cloudflared_fips.Prelude.{
  ◌-◌, ◌*◌, ◌≤◌, ◌<◌, ◌≡◌, refl, String, [], ◌∷◌, none, some, arith, str_eq, if◌then◌else◌,
}
use cloudflared_fips.Fleet.Types.{EnrollmentToken, online, degraded, offline, compliance_unknown}
use cloudflared_fips.Fleet.Db.{NodeRow, TokenRow, ok, second}
use cloudflared_fips.Fleet.Nodes.{find_node, find_key, create_node}
use cloudflared_fips.Fleet.Nodes.Laws.{UniqueIds}
use cloudflared_fips.Fleet.Tokens
use cloudflared_fips.Fleet.Tokens.{find_hash, scan_token, token_row}
use cloudflared_fips.Fleet.Summary.{summarise}
use cloudflared_fips.Fleet.Summary.Groups.{number}
use cloudflared_fips.Fleet.Summary.Totals.{with_value, summarise-counts}
use cloudflared_fips.Fleet.Monitor.{Monitor, Fleet, check}
use cloudflared_fips.Fleet.Monitor.Staleness.{IsWorking, aged, check-aged}
use cloudflared_fips.Fleet.Enrollment.{add_seconds, create_token, enroll, check_token, admit}
use cloudflared_fips.Fleet.Enrollment.Create.{enroll-create_token, enroll-stored}
use cloudflared_fips.Fleet.Enrollment.Limit.{Call, granted, granted-le}
use cloudflared_fips.Fleet.Enrollment.Race.{caller, enroll_both, enroll_both-overrun}
use cloudflared_fips.Fleet.Sample.{hash, driver, token, sample, asking, drawn, wanted, fresh}
use mathlib.Core.Option

abbrev monitor : Monitor
monitor = record {
  degraded_after = 90 * second;
  offline_after = 180 * second;
  check_interval = 30 * second;
}

abbrev fleet : Fleet
fleet = record { db = sample; events = none }

driver-IsWorking : IsWorking driver
driver-IsWorking = record { lists = refl; updates = λ id. refl }

sample-UniqueIds : UniqueIds sample.nodes
unfolding find_node
sample-UniqueIds = (refl, (refl, tt))

check-aged_example :
    ((j : String)
      → find_node j (check driver monitor (1000 * second) fleet).db.nodes
        ≡ Option.map (aged monitor (1000 * second)) (find_node j sample.nodes))
    × UniqueIds (check driver monitor (1000 * second) fleet).db.nodes
check-aged_example =
    check-aged driver monitor (1000 * second) fleet driver-IsWorking sample-UniqueIds

summarise-counts_example :
    ((summarise 1 sample.nodes).total_nodes ≡ 2)
    × ((summarise 1 sample.nodes).online ≡ with_value (λ r. r.status) online sample.nodes)
    × ((summarise 1 sample.nodes).degraded ≡ with_value (λ r. r.status) degraded sample.nodes)
    × ((summarise 1 sample.nodes).offline ≡ with_value (λ r. r.status) offline sample.nodes)
    × ((role : String)
        → number role (summarise 1 sample.nodes).by_role
          ≡ with_value (λ r. r.role) role sample.nodes)
    × ((region : String)
        → number region (summarise 1 sample.nodes).by_region
          ≡ (if str_eq region "" then 0 else with_value (λ r. r.region) region sample.nodes))
summarise-counts_example = summarise-counts 1 sample.nodes

abbrev made : EnrollmentToken
made = record {
  id = "t2";
  token = "new";
  role = "server";
  region = "eu";
  expires_at = 950 * second;
  max_uses = 3;
  used_count = 0;
  created_at = 891 * second;
}

enroll-create_token_example :
    (enroll hash driver
      (drawn "c")
      (asking "new")
      (create_token hash driver fresh wanted sample).0).1
    ≡ ok (record { node_id = "c"; api_key = "key c"; report_interval = 30 })
unfolding create_token add_seconds Tokens.create_token Tokens.find_token find_hash find_node
    find_key
enroll-create_token_example =
    enroll-create_token hash driver fresh wanted sample made (drawn "c") (asking "new") "c" "key c"
      refl refl refl refl (omega arith) refl refl refl refl refl refl

enroll-stored_example :
    (r : TokenRow) × (node : NodeRow) × (find_hash "h:raw" sample.tokens ≡ some r)
    × (find_node "c" (enroll hash driver (drawn "c") (asking "raw") sample).0.nodes ≡ some node)
    × (node.api_key_hash ≡ "h:key c")
    × (node.name ≡ "c")
    × (node.role ≡ r.role)
    × (node.region ≡ r.region)
    × (node.last_heartbeat ≡ 901)
    × (node.status ≡ online)
    × (node.compliance_status ≡ compliance_unknown)
    × (node.service_json ≡ none)
unfolding enroll check_token admit Tokens.get_token Tokens.increment_token_usage find_hash
    create_node find_node find_key
enroll-stored_example =
    enroll-stored hash driver (drawn "c") (asking "raw") sample
      (record { node_id = "c"; api_key = "key c"; report_interval = 60 }) refl

abbrev call : String → Call
call id = record { driver = driver; input = drawn id; req = asking "raw" }

granted-le_example : granted hash "h:raw" (call "c" ∷ call "d" ∷ []) sample ≤ 2 - 1
unfolding find_hash
granted-le_example =
    granted-le hash "h:raw" (call "c" ∷ call "d" ∷ []) sample token (refl, (refl, tt)) refl
      (omega arith)

enroll_both-overrun_example :
    (r : TokenRow) × ((enroll_both hash driver
        (caller (asking "raw") 900 "c" "key c")
        (caller (asking "raw") 900 "d" "key d")
        sample).1
      ≡ ok (
        record { node_id = "c"; api_key = "key c"; report_interval = 60 },
        record { node_id = "d"; api_key = "key d"; report_interval = 60 },
      ))
    × (find_hash "h:raw"
          (enroll_both hash driver
            (caller (asking "raw") 900 "c" "key c")
            (caller (asking "raw") 900 "d" "key d")
            sample).0.tokens
        ≡ some r)
    × (r.max_uses < r.used_count)
unfolding find_hash find_node find_key
enroll_both-overrun_example =
    enroll_both-overrun hash driver sample token (asking "raw") (asking "raw") 900 900 "c" "d"
      "key c" "key d" refl refl refl refl refl refl refl refl refl refl (omega arith) refl refl refl
      refl refl refl
