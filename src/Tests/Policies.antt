-- ===== src/Tests/Policies.antt =====
-- The network policies of two sandboxes, and the theorem on them.
use megaserver.Common.{
  ◌&&◌, String, ◌≡◌, ◌≢◌, refl, sym, true, false, some, List, [], ◌∷◌, ◌==◌, inl, inr, eq_iff,
  arith,
}
use megaserver.Result.{ok}
use megaserver.Manifest.{NetworkAccessPolicy, NetworkPolicyDefault, default_access}
use megaserver.Host.{SandboxNetworkPolicyBinding}
use megaserver.Network.{
  Nets, Rule, CompiledBinding, compile_bindings, compile_policy_rules, pair_allowed, policy_allows,
  rule_args, pair, into_subnet, out_of_subnet, to_target,
}
use megaserver.Network.Chain.{verdict}
use megaserver.Network.Verdicts.{verdict-compile_policy_rules}

-- Addresses and networks by their texts; a network has the one address.
abbrev nets : Nets
nets = record {
  Address = String;
  Net = String;
  parse_ip = λ text. some text;
  parse_net = λ text. some text;
  show_net = λ net. net;
  contains = λ net ip. net == ip;
  same = λ a b. a == b;
  same_iff = λ a b. eq_iff a b;
}

abbrev closed : NetworkAccessPolicy
closed = record {
  default = NetworkPolicyDefault.deny;
  allow_services = "web" ∷ [];
  allow_cidrs = [];
  deny_services = [];
  deny_cidrs = [];
}

abbrev web : CompiledBinding nets
web = record {
  service_name = "web";
  ip = "10.42.0.1";
  ip_text = "10.42.0.1";
  policy = record { ingress = closed; egress = default_access };
}

abbrev api : CompiledBinding nets
api = record {
  service_name = "api";
  ip = "10.42.0.2";
  ip_text = "10.42.0.2";
  policy = record { ingress = closed; egress = default_access };
}

abbrev bindings : List SandboxNetworkPolicyBinding
bindings =
    record { service_name = "web"; sandbox_ip = "10.42.0.1"; policy = web.policy }
    ∷ record { service_name = "api"; sandbox_ip = "10.42.0.2"; policy = api.policy }
    ∷ []

abbrev rules : List (Rule nets)
rules =
    pair "10.42.0.1" "10.42.0.2" true
    ∷ pair "10.42.0.2" "10.42.0.1" false
    ∷ to_target "10.42.0.1"
    ∷ to_target "10.42.0.2"
    ∷ out_of_subnet "10.42.0.1" "10.42.0.0/24" true
    ∷ into_subnet "10.42.0.1" "10.42.0.0/24"
    ∷ out_of_subnet "10.42.0.2" "10.42.0.0/24" true
    ∷ into_subnet "10.42.0.2" "10.42.0.0/24"
    ∷ []

compiled_test : compile_bindings nets bindings ≡ ok (web ∷ api ∷ [])
unfolding compile_bindings
compiled_test = refl

rules_test : compile_policy_rules nets bindings ≡ ok rules
unfolding compile_policy_rules pair_allowed policy_allows
rules_test = refl

args_test :
    rule_args nets (pair "10.42.0.2" "10.42.0.1" false)
    ≡ "-A" ∷ "MEGASERVER-POLICY" ∷ "-s" ∷ "10.42.0.2" ∷ "-d" ∷ "10.42.0.1" ∷ "-j" ∷ "DROP" ∷ []
unfolding rule_args
args_test = refl

api≢web : ◌≢◌ {A = String} "api" "web"
api≢web = ground (arith, eq_iff "api" "web")

first≢second : ◌≢◌ {A = String} "10.42.0.1" "10.42.0.2"
first≢second = ground (arith, eq_iff "10.42.0.1" "10.42.0.2")

verdict-compile_policy_rules_example :
    verdict nets "10.42.0.2" "10.42.0.1" rules
    ≡ some (
        policy_allows nets default_access "web" "10.42.0.1"
        && policy_allows nets closed "api" "10.42.0.2")
verdict-compile_policy_rules_example =
    verdict-compile_policy_rules nets bindings (web ∷ api ∷ []) rules api web compiled_test
      rules_test (inr (inl refl)) (inl refl) api≢web
      ((λ e. absurd (first≢second e)), ((λ e. refl), tt))
      ((λ e. refl), ((λ e. absurd (first≢second (sym e))), tt))
