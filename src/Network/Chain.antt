-- ===== src/Network/Chain.antt =====
-- A chain of iptables rules: the first rule that matches a packet decides. This describes iptables, to say what the
-- rules of rust/src/network.rs come to.
use megaserver.Common.{
  String, Bool, false, not, ◌&&◌, Option, none, some, List, [], ◌∷◌, if◌then◌else◌,
}
use megaserver.Network.{
  Nets, Rule, pair, for_source, for_destination, to_target, out_of_subnet, into_subnet,
}

module _ (nets : Nets) where
  open nets use {Address, parse_ip, contains, same}

  abbrev pub is_address : String → Address → Bool
  is_address text ip = elim (parse_ip text) [ none ↦ false | some a ↦ same a ip ]

  -- Does a packet between two addresses match a rule, and what does the rule then say?
  abbrev pub rule_matches : Address → Address → Rule nets → Bool
  rule_matches source target (pair s t allowed) = is_address s source && is_address t target
  rule_matches source target (for_source s net allowed) = is_address s source && contains net target
  rule_matches source target (for_destination net t allowed) =
      contains net source && is_address t target
  rule_matches source target (to_target t) = is_address t target
  rule_matches source target (out_of_subnet s net allowed) =
      is_address s source && not (contains net target)
  rule_matches source target (into_subnet s net) = is_address s source && contains net target

  abbrev pub rule_action : Rule nets → Bool
  rule_action (pair s t allowed) = allowed
  rule_action (for_source s net allowed) = allowed
  rule_action (for_destination net t allowed) = allowed
  rule_action (to_target t) = false
  rule_action (out_of_subnet s net allowed) = allowed
  rule_action (into_subnet s net) = false

  -- The action of the first match, or nothing where the chain returns.
  unfoldable pub verdict : Address → Address → List (Rule nets) → Option Bool
  verdict source target [] = none
  verdict source target (rule ∷ rules) =
      let rest = verdict source target rules in
      if rule_matches source target rule then some (rule_action rule) else rest
