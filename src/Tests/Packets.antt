-- ===== src/Tests/Packets.antt =====
-- A query for the gateway's name and the answers of rust/src/dns.rs to it, and the theorems on them.
use megaserver.Common.{ℕ, ◌+◌, ◌≡◌, ◌≢◌, refl, false, some, List, map, length, All, arith}
use megaserver.Common.Texts.{split, to_ascii_lowercase}
use megaserver.Common.Utf8.{bytes, from_utf8_lossy}
use megaserver.Result.{ok, err}
use megaserver.Exec.Outcomes.{Gives}
use megaserver.State.Sandboxes.{list_sandboxes}
use megaserver.Dns.{ParsedQuery, DnsError, parse_query, build_response, build_a_query, answer_bytes}
use megaserver.Dns.Packets.{parse_query-rounds, build_response-parse_query}
use megaserver.Dns.RoundTrip.{IsLabel, parse_query-build_a_query}
use megaserver.Dns.Lookup.{Lookup, gateway_ip, lookup_rows, respond}
use megaserver.Dns.Answers.{IsLookup, lookup_rows-IsLookup, lookup_rows-to_ascii_lowercase}
use megaserver.Dns.Responses.{IsResponse, respond-IsResponse}
use megaserver.Tests.Systems.{host, running_db, host_ip}

abbrev name : List ℕ
name = bytes "gateway.megaserver"

abbrev query : List ℕ
query = build_a_query name

abbrev question : ParsedQuery
question = record { name = name; qtype = 1; qclass = 1; end_offset = length query }

labels : All IsLabel (split b'.' name)
unfolding bytes from_utf8_lossy
labels = (
  record { nonempty = omega arith; short = omega arith; decodes = refl },
  (record { nonempty = omega arith; short = omega arith; decodes = refl }, tt),
)

parse_query-build_a_query_example : parse_query query ≡ ok question
parse_query-build_a_query_example = parse_query-build_a_query name labels

build_response-parse_query_example :
    (out : List ℕ) × (build_response query (length query) (some gateway_ip) 0 ≡ some out)
    × (length out ≡ length query + length (answer_bytes (some gateway_ip)))
build_response-parse_query_example =
    build_response-parse_query query question (some gateway_ip) 0
      (parse_query-build_a_query name labels)

parse_query-rounds_example : parse_query query ≢ err DnsError.out_of_rounds
parse_query-rounds_example = parse_query-rounds query

lookup_test : lookup_rows (list_sandboxes running_db) (bytes "Web") ≡ Lookup.found (host_ip 1)
unfolding lookup_rows list_sandboxes megaserver.Rows.Order.order_by bytes megaserver.Ipv4.parse
    megaserver.Dns.Lookup.answer_of
lookup_test = refl

lookup_rows-IsLookup_example :
    IsLookup
      (bytes "Web")
      (list_sandboxes running_db)
      (lookup_rows (list_sandboxes running_db) (bytes "Web"))
lookup_rows-IsLookup_example = lookup_rows-IsLookup (list_sandboxes running_db) (bytes "Web")

lookup_rows-to_ascii_lowercase_example :
    lookup_rows (list_sandboxes running_db) (map to_ascii_lowercase (bytes "Web"))
    ≡ lookup_rows (list_sandboxes running_db) (bytes "Web")
lookup_rows-to_ascii_lowercase_example =
    lookup_rows-to_ascii_lowercase (list_sandboxes running_db) (bytes "Web")

respond-IsResponse_example :
    Gives
      (λ db. Unit {0})
      (respond (host false) query)
      (λ out db. (q : ParsedQuery) × (parse_query query ≡ ok q) × IsResponse query q db out)
respond-IsResponse_example = respond-IsResponse (host false) query
