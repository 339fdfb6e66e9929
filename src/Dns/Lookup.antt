-- ===== src/Dns/Lookup.antt =====
-- `lookup_name` and `respond` of rust/src/dns.rs.
use megaserver.Common.{
  ℕ, String, ◌≡◌, refl, Bool, ◌&&◌, ◌||◌, Option, none, some, List, [], ◌∷◌, ◌==◌, nat_eq,
  if◌then◌else◌,
}
use megaserver.Common.Texts.{eq_ignore_case}
use megaserver.Common.Utf8.{bytes}
use megaserver.Result.{Result, ok, err, or_error}
use megaserver.Ipv4.{Ipv4, parse}
use megaserver.Model.{SandboxRecord}
use megaserver.State.Sandboxes.{list_sandboxes}
use megaserver.Exec.{AppError, io, bad_dns, M, pure, raise, ◌>>=◌, ◌>>◌, lift}
use megaserver.Host.{Host}
use megaserver.Host.Database.{open_db, query}
use megaserver.Dns.{DnsError, ParsedQuery, parse_query, build_response}

-- An address, a row whose address is no address, or no row.
pub data Lookup : Type 0 where
  found : Ipv4 → Lookup
  bad_ip : Lookup
  missing : Lookup

-- `crate::network::sandbox_gateway().parse()`
abbrev pub gateway_ip : Ipv4
gateway_ip = record { a = 10; b = 42; c = 0; d = 254 }

gateway_test : parse "10.42.0.254" ≡ some gateway_ip
unfolding parse
gateway_test = refl

abbrev pub is_gateway : List ℕ → Bool
is_gateway name = eq_ignore_case name (bytes "gateway.megaserver")

abbrev pub matches : List ℕ → SandboxRecord → Bool
matches name r =
    eq_ignore_case name (bytes r.service_name) || eq_ignore_case name (bytes r.hostname)

abbrev pub ip_of : String → Lookup
ip_of text = elim (parse text) [ none ↦ bad_ip | some ip ↦ found ip ]

-- One round of the loop: nothing where the loop goes on.
unfoldable pub answer_of : List ℕ → SandboxRecord → Option Lookup
answer_of name r = if r.status == "stopped" then none else elim r.ip_address [
  | none ↦ none
  | some text ↦ if matches name r then some (ip_of text) else none
]

unfoldable pub lookup_rows : List SandboxRecord → List ℕ → Lookup
unfolding answer_of
lookup_rows [] name = missing
lookup_rows (r ∷ rs) name =
    let rest = lookup_rows rs name in elim (answer_of name r) [ none ↦ rest | some answer ↦ answer ]

abbrev pub rcode_of : Option Ipv4 → ℕ
rcode_of none = 3
rcode_of (some ip) = 0

abbrev pub is_address_query : ParsedQuery → Bool
is_address_query q = nat_eq q.qtype 1 && nat_eq q.qclass 1

abbrev pub parsed : Result DnsError ParsedQuery → Result AppError ParsedQuery
parsed (ok q) = ok q
parsed (err e) = err (bad_dns e)

module _ (host : Host) where
  open host use {World}

  unfoldable pub outcome : Lookup → M World (Option Ipv4)
  outcome (found ip) = pure (some ip)
  outcome bad_ip = raise (io "parse sandbox ip")
  outcome missing = pure none

  unfoldable pub lookup_name : List ℕ → M World (Option Ipv4)
  unfolding outcome lookup_rows
  lookup_name name =
      if is_gateway name
      then pure (some gateway_ip)
      else do open_db host; rows ← query host list_sandboxes; outcome (lookup_rows rows name)

  -- A response that cannot be built would be a panic.
  unfoldable pub answer_query : List ℕ → ParsedQuery → M World (List ℕ)
  unfolding lookup_name
  answer_query packet q =
      if is_address_query q
      then (do
        answer ← lookup_name q.name
        lift (or_error (build_response packet q.end_offset answer (rcode_of answer)) (io "panic")))
      else lift (or_error (build_response packet q.end_offset none 4) (io "panic"))

  unfoldable pub respond : List ℕ → M World (List ℕ)
  unfolding answer_query
  respond packet = do q ← lift (parsed (parse_query packet)); answer_query packet q
