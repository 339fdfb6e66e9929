-- ===== src/State/Ips/Laws.antt =====
-- Which address `allocate_sandbox_ip` gives.
use megaserver.Common.{
  String, ◌≡◌, ◌≢◌, ◌↔◌, true, false, none, some, List, [], ◌∷◌, ◌++◌, all, All, All-weaken, arith,
  Bool-cases, inl, inr, sym, ◌∙◌, ap,
}
use megaserver.Model.{SandboxRecord}
use megaserver.Rows.Order.{All-order_by, text_before}
use megaserver.Ipv4.{Ipv4, same_ip, show, parse}
use megaserver.State.{Db}
use megaserver.State.Services.{sandbox_key}
use megaserver.State.Sandboxes.{list_sandboxes}
use megaserver.State.Ips.{
  allocated, bad_stored_ip, exhausted, address_of, used_addresses, contains, first_free, stored_ip,
  allocate_sandbox_ip,
}

same_ip_refl : (x : Ipv4) → same_ip x x ≡ true
same_ip_refl x = ground arith

-- An address outside the list is the address of no row.
not_contained :
    (ip : Ipv4) (rs : List SandboxRecord)
    → contains (used_addresses rs) ip ≡ false
    → All (λ r. address_of r ≢ some ip) rs
unfolding used_addresses
not_contained ip [] h = tt
not_contained ip (r ∷ rs) h =
    (λ e. ground (arith, same_ip_refl ip), not_contained ip rs (ground arith))

module _ (P : Ipv4 → Type 0) (used : List Ipv4) where
  first_free-eq-allocated :
      (hosts : List Ipv4) (text : String)
      → All P hosts
      → first_free used hosts ≡ allocated text
      → (host : Ipv4) × (show host ≡ text) × (contains used host ≡ false) × P host
  unfolding first_free
  first_free-eq-allocated [] text h e = cc
  first_free-eq-allocated (x ∷ xs) text (p, h) e = elim (Bool-cases (contains used x)) [
    | inl taken ↦ first_free-eq-allocated xs text h (rw taken at e)
    | inr free ↦ (x, ground arith, free, p)
  ]

first_free-eq-exhausted :
    (used hosts : List Ipv4)
    → (first_free used hosts ≡ exhausted) ↔ (all (contains used) hosts ≡ true)
unfolding first_free
first_free-eq-exhausted used [] = ground arith
first_free-eq-exhausted used (x ∷ xs) = ground (arith, first_free-eq-exhausted used xs)

-- The first host that is free comes after a front of hosts that are not.
first_free-append :
    (used front : List Ipv4) (host : Ipv4) (hosts : List Ipv4)
    → all (contains used) front ≡ true
    → contains used host ≡ false
    → first_free used (front ++ host ∷ hosts) ≡ allocated (show host)
unfolding first_free
first_free-append used [] host hosts h free = rw free
first_free-append used (x ∷ xs) host hosts h free =
    ground (arith, first_free-append used xs host hosts)

-- Every host's text parses back, which `Ipv4Addr` promises.
abbrev pub RoundTrips : List Ipv4 → Type 0
RoundTrips hosts = All (λ h. parse (show h) ≡ some h) hosts

-- No row holds a text for the same address.
abbrev pub IsFree : Db → String → Type 0
IsFree db text =
    All (λ r. (u : String) → r.ip_address ≡ some u → parse u ≢ parse text) db.sandboxes.rows

address_of_text : (r : SandboxRecord) (u : String) → r.ip_address ≡ some u → address_of r ≡ parse u
address_of_text r u e = ground arith

IsFree_of_not_contained :
    (ip : Ipv4) (text : String)
    → parse text ≡ some ip
    → (r : SandboxRecord) → address_of r ≢ some ip
    → (u : String) → r.ip_address ≡ some u
    → parse u ≢ parse text
IsFree_of_not_contained ip text p r ne u e same = ne (address_of_text r u e ∙ same ∙ p)

allocate_sandbox_ip-fresh :
    (hosts : List Ipv4) (db : Db) (service : String)
    → stored_ip db service ≡ none
    → allocate_sandbox_ip hosts db service ≡ first_free (used_addresses (list_sandboxes db)) hosts
unfolding allocate_sandbox_ip
allocate_sandbox_ip-fresh hosts db service fresh = rw (fresh, allocate_sandbox_ip)

-- If the service has no stored address and an address is given, no sandbox row holds a text for that address,
-- provided that the hosts' texts parse back.
pub allocate_sandbox_ip-IsFree :
    (hosts : List Ipv4) (db : Db) (service text : String)
    → RoundTrips hosts
    → stored_ip db service ≡ none
    → allocate_sandbox_ip hosts db service ≡ allocated text
    → IsFree db text
unfolding list_sandboxes
allocate_sandbox_ip-IsFree hosts db service text trips fresh e =
    let (host, shown, free, trip) =
      first_free-eq-allocated (λ h. parse (show h) ≡ some h) (used_addresses (list_sandboxes db))
        hosts text trips (sym (allocate_sandbox_ip-fresh hosts db service fresh) ∙ e) in
    All-weaken (IsFree_of_not_contained host text (ap parse (sym shown) ∙ trip)) db.sandboxes.rows (
      All-order_by (text_before sandbox_key) (λ r. address_of r ≢ some host) db.sandboxes.rows
        (not_contained host (list_sandboxes db) free))

-- The allocation fails for want of addresses exactly if the service has no stored address and every host is the
-- address of a listed sandbox.
pub allocate_sandbox_ip-eq-exhausted_iff :
    (hosts : List Ipv4) (db : Db) (service : String)
    → (allocate_sandbox_ip hosts db service ≡ exhausted) ↔ (
        (stored_ip db service ≡ none)
        × (all (contains (used_addresses (list_sandboxes db))) hosts ≡ true))
unfolding allocate_sandbox_ip
allocate_sandbox_ip-eq-exhausted_iff hosts db service =
    ground (arith, first_free-eq-exhausted (used_addresses (list_sandboxes db)) hosts)

-- A service keeps the address that its row stores, if that is an address; else the allocation fails.
pub allocate_sandbox_ip-stored :
    (hosts : List Ipv4) (db : Db) (service text : String)
    → stored_ip db service ≡ some text
    → allocate_sandbox_ip hosts db service
      ≡ (elim (parse text) [ none ↦ bad_stored_ip | some ip ↦ allocated text ])
unfolding allocate_sandbox_ip
allocate_sandbox_ip-stored hosts db service text e = ground arith

-- If every host before some host is taken and that one is not, a service without a stored address gets it, whichever
-- host it is: the loop skips no address, the bridge's own included.
pub allocate_sandbox_ip_first :
    (front : List Ipv4) (host : Ipv4) (rest : List Ipv4) (db : Db) (service : String)
    → stored_ip db service ≡ none
    → all (contains (used_addresses (list_sandboxes db))) front ≡ true
    → contains (used_addresses (list_sandboxes db)) host ≡ false
    → allocate_sandbox_ip (front ++ host ∷ rest) db service ≡ allocated (show host)
allocate_sandbox_ip_first front host rest db service fresh taken free =
    allocate_sandbox_ip-fresh (front ++ host ∷ rest) db service fresh
    ∙ first_free-append (used_addresses (list_sandboxes db)) front host rest taken free
