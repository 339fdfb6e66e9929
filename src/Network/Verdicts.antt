-- ===== src/Network/Verdicts.antt =====
-- What the rules of `compile_policy_rules` in rust/src/network.rs decide: iptables takes the first rule that matches.
use mathlib.Core.List.{append_assoc}
use mathlib.Core.Path.{subst}
use megaserver.Common.{
  String, ◌≡◌, ◌≢◌, ◌⊎◌, inl, inr, refl, sym, ap, ◌∙◌, Bool, true, false, ◌&&◌, none, some, List,
  [], ◌∷◌, ◌++◌, ◌==◌, All, if◌then◌else◌, Bool-cases, arith, eq_iff,
}
use megaserver.Result.{
  ok, or_error, OnOk, OnOk-ok, OnOk-self, OnOk-or_error, OnOk-bind, ok-injective,
}
use megaserver.Host.{SandboxNetworkPolicyBinding}
use megaserver.Network.Chain.{is_address, rule_matches, verdict}
use megaserver.Network.{
  Nets, bad_subnet, CompiledBinding, Rule, pair, compile_binding, compile_bindings, pair_allowed,
  policy_allows, rules_from, pair_rules, ingress_rules, egress_rules, compile_policy_rules,
}

module _ (nets : Nets) where
  open nets use {Address, Net, parse_ip, contains, same, same_iff}

  abbrev pub Member : CompiledBinding nets → List (CompiledBinding nets) → Type 0
  Member c [] = ⊥
  Member c (d ∷ ds) = (d ≡ c) ⊎ Member c ds

  -- The text of the address is the address's.
  abbrev IsParsed : CompiledBinding nets → Type 0
  IsParsed c = parse_ip c.ip_text ≡ some c.ip

  -- Whoever has the address is this binding.
  abbrev pub IsAlone : CompiledBinding nets → List (CompiledBinding nets) → Type 0
  IsAlone c cs = All (λ d. d.ip ≡ c.ip → d ≡ c) cs

  same_refl : (a : Address) → same a a ≡ true
  same_refl a = (same_iff a a).1 refl

  is_address-eq :
      (text : String) (a ip : Address)
      → parse_ip text ≡ some a
      → is_address nets text ip ≡ same a ip
  is_address-eq text a ip e = ap (λ o. elim o [ none ↦ false | some x ↦ same x ip ]) e

  -- The rule of a pair matches exactly the packets between the two addresses.
  pair-matches :
      (c d : CompiledBinding nets) (source target : Address) (allowed : Bool)
      → IsParsed c
      → IsParsed d
      → rule_matches nets source target (pair c.ip_text d.ip_text allowed)
        ≡ (same c.ip source && same d.ip target)
  pair-matches c d source target allowed pc pd =
      let first = is_address-eq c.ip_text c.ip source pc in
      let second = is_address-eq d.ip_text d.ip target pd in λ i. first i && second i

  verdict-pair :
      (source target : Address) (s t : String) (allowed b : Bool) (rest : List (Rule nets))
      → rule_matches nets source target (pair s t allowed) ≡ b
      → verdict nets source target (pair s t allowed ∷ rest)
        ≡ (if b then some allowed else verdict nets source target rest)
  unfolding verdict
  verdict-pair source target s t allowed b rest e =
      ap (λ x. if x then some allowed else verdict nets source target rest) e

  later :
      {c : CompiledBinding nets} (d : CompiledBinding nets) (ds : List (CompiledBinding nets))
      → Member c (d ∷ ds)
      → same d.ip c.ip ≡ false
      → Member c ds
  later {c} d ds (inl e) miss =
      absurd (ground (arith, sym miss ∙ ap (λ x. same x.ip c.ip) e ∙ same_refl c.ip))
  later d ds (inr here) miss = here

  All_Member :
      (c : CompiledBinding nets) (cs : List (CompiledBinding nets))
      → All IsParsed cs
      → Member c cs
      → IsParsed c
  All_Member c [] parsed here = absurd here
  All_Member c (d ∷ ds) (p, parsed) (inl e) = subst IsParsed e p
  All_Member c (d ∷ ds) (p, parsed) (inr here) = All_Member c ds parsed here

  module _ (s t : CompiledBinding nets) (other : s.service_name ≢ t.service_name) (ps : IsParsed s)
      (pt : IsParsed t) where
    names_differ : (s.service_name == t.service_name) ≡ false
    names_differ = ground (arith, eq_iff s.service_name t.service_name)

    verdict-hit :
        (targets : List (CompiledBinding nets)) (rest : List (Rule nets))
        → verdict nets s.ip t.ip (rules_from nets s (t ∷ targets) ++ rest)
          ≡ some (pair_allowed nets s t)
    unfolding rules_from
    verdict-hit targets rest = rw names_differ (
        verdict-pair s.ip t.ip s.ip_text t.ip_text (pair_allowed nets s t) true _ (
          pair-matches s t s.ip t.ip (pair_allowed nets s t) ps pt
          ∙ rw (same_refl s.ip, same_refl t.ip) refl))

    verdict-miss :
        (source target : CompiledBinding nets) (targets : List (CompiledBinding nets))
        (rest : List (Rule nets))
        → IsParsed source
        → IsParsed target
        → (same source.ip s.ip && same target.ip t.ip) ≡ false
        → verdict nets s.ip t.ip (rules_from nets source (target ∷ targets) ++ rest)
          ≡ verdict nets s.ip t.ip (rules_from nets source targets ++ rest)
    unfolding rules_from
    verdict-miss source target targets rest pc pd e =
        elim (Bool-cases (source.service_name == target.service_name)) [
          | inl self ↦ rw self refl
          | inr pushed ↦ rw pushed (
              verdict-pair s.ip t.ip source.ip_text target.ip_text (pair_allowed nets source target)
                false _
                (pair-matches source target s.ip t.ip (pair_allowed nets source target) pc pd ∙ e))
        ]

    verdict-rules_from :
        (targets : List (CompiledBinding nets)) (rest : List (Rule nets))
        → All IsParsed targets
        → IsAlone t targets
        → Member t targets
        → verdict nets s.ip t.ip (rules_from nets s targets ++ rest) ≡ some (pair_allowed nets s t)
    verdict-rules_from [] rest parsed alone here = absurd here
    verdict-rules_from (target ∷ targets) rest (p, parsed) (a, alone) here =
        elim (Bool-cases (same target.ip t.ip)) [
          | inl hit ↦
              ap (λ d. verdict nets s.ip t.ip (rules_from nets s (d ∷ targets) ++ rest))
                (a ((same_iff target.ip t.ip).0 hit))
              ∙ verdict-hit targets rest
          | inr miss ↦
              verdict-miss s target targets rest ps p (rw (same_refl s.ip, miss) refl)
              ∙ verdict-rules_from targets rest parsed alone (later target targets here miss)
        ]

    -- The rules of a source with another address do not match.
    verdict-rules_from_other :
        (source : CompiledBinding nets) (targets : List (CompiledBinding nets))
        (rest : List (Rule nets))
        → IsParsed source
        → same source.ip s.ip ≡ false
        → All IsParsed targets
        → verdict nets s.ip t.ip (rules_from nets source targets ++ rest)
          ≡ verdict nets s.ip t.ip rest
    unfolding rules_from
    verdict-rules_from_other source [] rest pc miss parsed = refl
    verdict-rules_from_other source (target ∷ targets) rest pc miss (p, parsed) =
        verdict-miss source target targets rest pc p (rw miss refl)
        ∙ verdict-rules_from_other source targets rest pc miss parsed

    verdict-pair_rules :
        (sources targets : List (CompiledBinding nets)) (rest : List (Rule nets))
        → All IsParsed sources
        → All IsParsed targets
        → IsAlone s sources
        → IsAlone t targets
        → Member s sources
        → Member t targets
        → verdict nets s.ip t.ip (pair_rules nets sources targets ++ rest)
          ≡ some (pair_allowed nets s t)
    unfolding pair_rules
    verdict-pair_rules [] targets rest pss pts alone_s alone_t hs ht = absurd hs
    verdict-pair_rules (source ∷ sources) targets rest (p, pss) pts (a, alone_s) alone_t hs ht =
        let whole =
          append_assoc (rules_from nets source targets) (pair_rules nets sources targets) rest in
        let tail = pair_rules nets sources targets ++ rest in
        ap (verdict nets s.ip t.ip) whole ∙ elim (Bool-cases (same source.ip s.ip)) [
          | inl hit ↦
              ap (λ d. verdict nets s.ip t.ip (rules_from nets d targets ++ tail))
                (a ((same_iff source.ip s.ip).0 hit))
              ∙ verdict-rules_from targets tail pts alone_t ht
          | inr miss ↦
              verdict-rules_from_other source targets tail p miss pts
              ∙ verdict-pair_rules sources targets rest pss pts alone_s alone_t
                  (later source sources hs miss) ht
        ]

  OnOk-compile_binding : (b : SandboxNetworkPolicyBinding) → OnOk IsParsed (compile_binding nets b)
  unfolding compile_binding
  OnOk-compile_binding b =
      OnOk-bind _ _ (OnOk-or_error (parse_ip b.sandbox_ip) _) (λ ip parsed. OnOk-ok _ parsed)

  OnOk-compile_bindings :
      (bindings : List SandboxNetworkPolicyBinding)
      → OnOk (All IsParsed) (compile_bindings nets bindings)
  unfolding compile_bindings
  OnOk-compile_bindings [] = OnOk-ok _ tt
  OnOk-compile_bindings (b ∷ bs) =
      OnOk-bind _ _ (OnOk-compile_binding b)
        λ first p. OnOk-bind _ _ (OnOk-compile_bindings bs) λ others parsed. OnOk-ok _ (p, parsed)

  -- The rules begin with those of the pairs.
  abbrev BeginsWithPairs : List SandboxNetworkPolicyBinding → List (Rule nets) → Type 0
  BeginsWithPairs bindings rules =
      (cs : List (CompiledBinding nets)) × (rest : List (Rule nets)) × (compile_bindings nets
          bindings
        ≡ ok cs)
      × (rules ≡ pair_rules nets cs cs ++ rest)

  OnOk-compile_policy_rules :
      (bindings : List SandboxNetworkPolicyBinding)
      → OnOk (BeginsWithPairs bindings) (compile_policy_rules nets bindings)
  unfolding compile_policy_rules
  OnOk-compile_policy_rules bindings =
      OnOk-bind _ _ (OnOk-self (or_error (nets.parse_net "10.42.0.0/24") bad_subnet)) λ subnet _.
        OnOk-bind _ _ (OnOk-self (compile_bindings nets bindings)) λ cs e.
          OnOk-bind _ _ (OnOk-self (ingress_rules nets cs)) λ ingress _.
            OnOk-bind _ _ (OnOk-self (egress_rules nets subnet cs)) λ egress _.
              OnOk-ok _
                (cs, ingress ++ egress, e, append_assoc (pair_rules nets cs cs) ingress egress)

-- Where the rules compile, a packet from one sandbox to another is accepted if the egress policy of the one and the
-- ingress policy of the other allow it, and dropped otherwise, provided that the two have different names and that no
-- other binding has either address.
pub verdict-compile_policy_rules :
    (nets : Nets) (bindings : List SandboxNetworkPolicyBinding) (cs : List (CompiledBinding nets))
    (rules : List (Rule nets)) (s t : CompiledBinding nets)
    → compile_bindings nets bindings ≡ ok cs
    → compile_policy_rules nets bindings ≡ ok rules
    → Member nets s cs
    → Member nets t cs
    → s.service_name ≢ t.service_name
    → IsAlone nets s cs
    → IsAlone nets t cs
    → verdict nets s.ip t.ip rules
      ≡ some (
          policy_allows nets s.policy.egress t.service_name t.ip
          && policy_allows nets t.policy.ingress s.service_name s.ip)
unfolding pair_allowed
verdict-compile_policy_rules nets bindings cs rules s t e f hs ht other alone_s alone_t =
    let parsed =
      (subst (OnOk (All (IsParsed nets))) e (OnOk-compile_bindings nets bindings)).holds in
    let (ds, rest, d, split) =
      (subst (OnOk (BeginsWithPairs nets bindings)) f
        (OnOk-compile_policy_rules nets bindings)).holds in
    let same_list : ds ≡ cs = ok-injective ds cs (sym d ∙ e) in
    ap (verdict nets s.ip t.ip) (split ∙ ap (λ l. pair_rules nets l l ++ rest) same_list)
    ∙ verdict-pair_rules nets s t other (All_Member nets s cs parsed hs)
        (All_Member nets t cs parsed ht) cs cs rest parsed parsed alone_s alone_t hs ht
