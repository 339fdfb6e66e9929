-- ===== src/Network.antt =====
-- The network policies of rust/src/network.rs: `policy_allows` and `compile_policy_rules`. Addresses and networks are
-- those of `IpAddr` and of the crate `ipnet`.
pub mod Chain
pub mod Verdicts
use megaserver.Common.{
  String, ◌≡◌, ◌↔◌, Bool, true, false, ◌&&◌, ◌||◌, Option, none, some, List, [], ◌∷◌, ◌++◌, any,
  ◌==◌, if◌then◌else◌,
}
use megaserver.Result.{Result, ok, err, or_error, ◌>>=◌}
use megaserver.Manifest.{NetworkPolicyDefault, NetworkAccessPolicy, NetworkPolicySection}
use megaserver.Host.{SandboxNetworkPolicyBinding}

pub record Nets : Type 1 where
  pub Address : Type 0
  pub Net : Type 0
  pub parse_ip : String → Option Address
  pub parse_net : String → Option Net
  pub show_net : Net → String
  pub contains : Net → Address → Bool
  pub same : Address → Address → Bool
  pub same_iff : (a b : Address) → (same a b ≡ true) ↔ (a ≡ b)

pub data NetworkError : Type 0 where
  bad_subnet : NetworkError
  bad_sandbox_ip : String → NetworkError
  bad_cidr : String → NetworkError

abbrev pub is_allow : NetworkPolicyDefault → Bool
is_allow NetworkPolicyDefault.allow = true
is_allow NetworkPolicyDefault.deny = false

abbrev pub policy_chain : String
policy_chain = "MEGASERVER-POLICY"

abbrev pub action_text : Bool → String
action_text true = "ACCEPT"
action_text false = "DROP"

module _ (nets : Nets) where
  open nets use {Address, Net, parse_ip, parse_net, show_net, contains}

  -- `.filter_map(|cidr| cidr.parse().ok()).any(|cidr| cidr.contains(&peer_ip))`
  abbrev pub any_contains : Address → List String → Bool
  any_contains ip [] = false
  any_contains ip (cidr ∷ cidrs) =
      elim (parse_net cidr) [ none ↦ false | some net ↦ contains net ip ] || any_contains ip cidrs

  -- The callers always have the peer's service name.
  unfoldable pub policy_allows : NetworkAccessPolicy → String → Address → Bool
  policy_allows policy service ip =
      if any (λ candidate. candidate == service) policy.deny_services
      then false
      else if any_contains ip policy.deny_cidrs
      then false
      else if any (λ candidate. candidate == service) policy.allow_services
      then true
      else if any_contains ip policy.allow_cidrs
      then true
      else is_allow policy.default

  pub record CompiledBinding : Type 0 where
    pub service_name : String
    pub ip : Address
    pub ip_text : String
    pub policy : NetworkPolicySection

  -- A rule of the policy chain: from one sandbox to another; from a sandbox to a network; from a network to a
  -- sandbox; everything to a sandbox, which is dropped; from a sandbox out of the subnet; and from a sandbox into
  -- the subnet, which is dropped.
  pub data Rule : Type 0 where
    pair : String → String → Bool → Rule
    for_source : String → Net → Bool → Rule
    for_destination : Net → String → Bool → Rule
    to_target : String → Rule
    out_of_subnet : String → Net → Bool → Rule
    into_subnet : String → Net → Rule

  -- The arguments of iptables.
  unfoldable pub rule_args : Rule → List String
  rule_args (pair source target allowed) =
      "-A" ∷ policy_chain ∷ "-s" ∷ source ∷ "-d" ∷ target ∷ "-j" ∷ action_text allowed ∷ []
  rule_args (for_source source net allowed) =
      "-A" ∷ policy_chain ∷ "-s" ∷ source ∷ "-d" ∷ show_net net ∷ "-j" ∷ action_text allowed ∷ []
  rule_args (for_destination net target allowed) =
      "-A" ∷ policy_chain ∷ "-s" ∷ show_net net ∷ "-d" ∷ target ∷ "-j" ∷ action_text allowed ∷ []
  rule_args (to_target target) = "-A" ∷ policy_chain ∷ "-d" ∷ target ∷ "-j" ∷ "DROP" ∷ []
  rule_args (out_of_subnet source net allowed) =
      "-A"
      ∷ policy_chain
      ∷ "-s"
      ∷ source
      ∷ "!"
      ∷ "-d"
      ∷ show_net net
      ∷ "-j"
      ∷ action_text allowed
      ∷ []
  rule_args (into_subnet source net) =
      "-A" ∷ policy_chain ∷ "-s" ∷ source ∷ "-d" ∷ show_net net ∷ "-j" ∷ "DROP" ∷ []

  unfoldable pub compile_binding : SandboxNetworkPolicyBinding → Result NetworkError CompiledBinding
  compile_binding binding = do
    ip ← or_error (parse_ip binding.sandbox_ip) (bad_sandbox_ip binding.service_name)
    ok (record {
      service_name = binding.service_name;
      ip = ip;
      ip_text = binding.sandbox_ip;
      policy = binding.policy;
    })

  unfoldable pub compile_bindings :
      List SandboxNetworkPolicyBinding → Result NetworkError (List CompiledBinding)
  unfolding compile_binding
  compile_bindings [] = ok []
  compile_bindings (binding ∷ bindings) =
      let rest = compile_bindings bindings in
      compile_binding binding >>= λ first. rest >>= λ others. ok (first ∷ others)

  unfoldable pub pair_allowed : CompiledBinding → CompiledBinding → Bool
  pair_allowed source target =
      policy_allows source.policy.egress target.service_name target.ip
      && policy_allows target.policy.ingress source.service_name source.ip

  -- The inner loop over the targets, and the outer one over the sources.
  unfoldable pub rules_from : CompiledBinding → List CompiledBinding → List Rule
  rules_from source [] = []
  rules_from source (target ∷ targets) =
      let rest = rules_from source targets in
      if source.service_name == target.service_name
      then rest
      else pair source.ip_text target.ip_text (pair_allowed source target) ∷ rest

  unfoldable pub pair_rules : List CompiledBinding → List CompiledBinding → List Rule
  unfolding rules_from
  pair_rules [] targets = []
  pair_rules (source ∷ sources) targets = rules_from source targets ++ pair_rules sources targets

  unfoldable pub cidr_rules : (Net → Rule) → List String → Result NetworkError (List Rule)
  cidr_rules rule [] = ok []
  cidr_rules rule (cidr ∷ cidrs) =
      let rest = cidr_rules rule cidrs in
      or_error (parse_net cidr) (bad_cidr cidr) >>= λ net. rest >>= λ rules. ok (rule net ∷ rules)

  abbrev pub default_in : String → NetworkPolicyDefault → List Rule
  default_in target NetworkPolicyDefault.allow = []
  default_in target NetworkPolicyDefault.deny = to_target target ∷ []

  unfoldable pub ingress_rules : List CompiledBinding → Result NetworkError (List Rule)
  unfolding cidr_rules
  ingress_rules [] = ok []
  ingress_rules (target ∷ targets) =
      let rest = ingress_rules targets in
      cidr_rules (λ net. for_destination net target.ip_text false) target.policy.ingress.deny_cidrs
      >>= λ denied.
          cidr_rules (λ net. for_destination net target.ip_text true)
            target.policy.ingress.allow_cidrs
          >>= λ allowed. rest >>= λ others. ok (
              denied
              ++ allowed
              ++ default_in target.ip_text target.policy.ingress.default
              ++ others)

  unfoldable pub egress_rules : Net → List CompiledBinding → Result NetworkError (List Rule)
  unfolding cidr_rules
  egress_rules subnet [] = ok []
  egress_rules subnet (source ∷ sources) =
      let rest = egress_rules subnet sources in
      cidr_rules (λ net. for_source source.ip_text net false) source.policy.egress.deny_cidrs
      >>= λ denied.
          cidr_rules (λ net. for_source source.ip_text net true) source.policy.egress.allow_cidrs
          >>= λ allowed. rest >>= λ others. ok (
              denied
              ++ allowed
              ++ out_of_subnet source.ip_text subnet (is_allow source.policy.egress.default)
                ∷ into_subnet source.ip_text subnet
                ∷ []
              ++ others)

  unfoldable pub compile_policy_rules :
      List SandboxNetworkPolicyBinding → Result NetworkError (List Rule)
  unfolding compile_bindings pair_rules ingress_rules egress_rules
  compile_policy_rules bindings = do
    subnet ← or_error (parse_net "10.42.0.0/24") bad_subnet
    compiled ← compile_bindings bindings
    ingress ← ingress_rules compiled
    egress ← egress_rules subnet compiled
    ok (pair_rules compiled compiled ++ ingress ++ egress)
