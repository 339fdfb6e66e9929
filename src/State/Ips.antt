-- ===== src/State/Ips.antt =====
-- `allocate_sandbox_ip` of rust/src/state.rs. The hosts of the subnet 10.42.0.0/24 come from the crate
-- `ipnet` and are an argument, in the order in which its iterator gives them.
pub mod Laws
use megaserver.Common.{
  String, Bool, true, false, Option, none, some, List, [], ◌∷◌, any, if◌then◌else◌,
}
use megaserver.Model.{SandboxRecord}
use megaserver.Ipv4.{Ipv4, same_ip, show, parse}
use megaserver.State.{Db}
use megaserver.State.Sandboxes.{sandbox_by_service, list_sandboxes}

-- The address, a stored text that is no address, or no host left.
pub data IpResult : Type 0 where
  allocated : String → IpResult
  bad_stored_ip : IpResult
  exhausted : IpResult

-- `filter_map(|sandbox| sandbox.ip_address).filter_map(|ip| ip.parse().ok())`
abbrev pub address_of : SandboxRecord → Option Ipv4
address_of r = elim r.ip_address [ none ↦ none | some text ↦ parse text ]

unfoldable pub used_addresses : List SandboxRecord → List Ipv4
used_addresses [] = []
used_addresses (r ∷ rs) =
    let rest = used_addresses rs in elim (address_of r) [ none ↦ rest | some ip ↦ ip ∷ rest ]

abbrev pub contains : List Ipv4 → Ipv4 → Bool
contains used ip = any (same_ip ip) used

-- The loop over the hosts.
unfoldable pub first_free : List Ipv4 → List Ipv4 → IpResult
first_free used [] = exhausted
first_free used (host ∷ hosts) =
    let rest = first_free used hosts in if contains used host then rest else allocated (show host)

-- `existing.ip_address` of the service's own sandbox row, if there is one.
unfoldable pub stored_ip : Db → String → Option String
stored_ip db service_name = elim (sandbox_by_service db service_name) [
  | none ↦ none
  | some existing ↦ existing.ip_address
]

abbrev pub check_stored : String → IpResult
check_stored text = elim (parse text) [ none ↦ bad_stored_ip | some ip ↦ allocated text ]

unfoldable pub allocate_sandbox_ip : List Ipv4 → Db → String → IpResult
unfolding used_addresses first_free stored_ip
allocate_sandbox_ip hosts db service_name = elim (stored_ip db service_name) [
  | none ↦ first_free (used_addresses (list_sandboxes db)) hosts
  | some text ↦ check_stored text
]
