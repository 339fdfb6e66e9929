-- ===== src/Manifest/Validity.antt =====
-- What the validation of rust/src/manifest.rs accepts.
use megaserver.Common.{String, ◌≡◌, ◌≢◌, ◌↔◌, refl, Bool, true, false, List, [], ◌∷◌, All, arith}
use megaserver.Common.Texts.{is_blank}
use megaserver.Result.{ok}
use megaserver.Manifest.{
  NetworkAccessPolicy, ServiceManifest, Direction, PolicyField, validate_service_list,
  validate_cidr_list, validate_policy, check_manifest, is_empty,
}

is_empty_of_ne : (xs : List String) → xs ≢ [] → is_empty xs ≡ false
is_empty_of_ne [] h = absurd (h refl)
is_empty_of_ne (x ∷ xs) h = refl

validate_service_list-eq-ok :
    (d : Direction) (f : PolicyField) (values : List String)
    → (validate_service_list d f values ≡ ok tt) ↔ All (λ v. is_blank v ≡ false) values
unfolding validate_service_list
validate_service_list-eq-ok d f [] = ground arith
validate_service_list-eq-ok d f (v ∷ vs) = ground (arith, validate_service_list-eq-ok d f vs)

module _ (is_net : String → Bool) where
  validate_cidr_list-eq-ok :
      (d : Direction) (f : PolicyField) (values : List String)
      → (validate_cidr_list is_net d f values ≡ ok tt) ↔ All (λ v. is_net v ≡ true) values
  unfolding validate_cidr_list
  validate_cidr_list-eq-ok d f [] = ground arith
  validate_cidr_list-eq-ok d f (v ∷ vs) = ground (arith, validate_cidr_list-eq-ok d f vs)

  pub record IsValidPolicy (p : NetworkAccessPolicy) : Type 0 where
    pub allow_services : All (λ v. is_blank v ≡ false) p.allow_services
    pub deny_services : All (λ v. is_blank v ≡ false) p.deny_services
    pub allow_cidrs : All (λ v. is_net v ≡ true) p.allow_cidrs
    pub deny_cidrs : All (λ v. is_net v ≡ true) p.deny_cidrs

  pub record IsValidManifest (m : ServiceManifest) : Type 0 where
    pub name : is_blank m.name ≡ false
    pub command : m.runtime.command ≢ []
    pub ingress : IsValidPolicy m.network.policy.ingress
    pub egress : IsValidPolicy m.network.policy.egress

  validate_policy-eq-ok :
      (d : Direction) (p : NetworkAccessPolicy)
      → (validate_policy is_net d p ≡ ok tt) ↔ IsValidPolicy p
  unfolding validate_policy
  validate_policy-eq-ok d p =
      let a = validate_service_list-eq-ok d PolicyField.allow_services p.allow_services in
      let b = validate_service_list-eq-ok d PolicyField.deny_services p.deny_services in
      let c = validate_cidr_list-eq-ok d PolicyField.allow_cidrs p.allow_cidrs in
      let e = validate_cidr_list-eq-ok d PolicyField.deny_cidrs p.deny_cidrs in
      (
        λ h. record {
          allow_services = a.0 (ground arith);
          deny_services = b.0 (ground arith);
          allow_cidrs = c.0 (ground arith);
          deny_cidrs = e.0 (ground arith);
        },
        λ v. cc (a.1 v.allow_services, b.1 v.deny_services, c.1 v.allow_cidrs, e.1 v.deny_cidrs),
      )

  -- The checks accept a manifest, unchanged, exactly if its name is not blank, its command has a program, and in both
  -- directions no service name listed is blank and every CIDR listed parses.
  pub check_manifest-eq-ok_iff :
      (m out : ServiceManifest)
      → (check_manifest is_net m ≡ ok out) ↔ ((m ≡ out) × IsValidManifest m)
  unfolding check_manifest
  check_manifest-eq-ok_iff m out =
      let i = validate_policy-eq-ok Direction.ingress m.network.policy.ingress in
      let e = validate_policy-eq-ok Direction.egress m.network.policy.egress in
      (
        λ h. (
          ground arith,
          record {
            name = ground arith;
            command = λ no_program. ground arith;
            ingress = i.0 (ground arith);
            egress = e.0 (ground arith);
          },
        ),
        λ v. ground (
          arith,
          i.1 v.1.ingress,
          e.1 v.1.egress,
          v.1.name,
          v.1.command,
          is_empty_of_ne m.runtime.command v.1.command,
        ),
      )
