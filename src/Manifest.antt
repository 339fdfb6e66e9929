-- ===== src/Manifest.antt =====
-- The service manifest of rust/src/manifest.rs and its validation. `serde` fills the fields that a file
-- leaves out with the defaults below; the parser of CIDR texts is the crate `ipnet`'s.
pub mod Validity
pub mod Load
use megaserver.Common.{ℕ, String, Bool, true, false, not, Option, none, some, List, [], ◌∷◌}
use megaserver.Common.Texts.{is_blank}
use megaserver.Result.{Result, ok, err, guard, ◌>>=◌, ◌>>◌}

pub data NetworkPolicyDefault : Type 0 where
  allow deny : NetworkPolicyDefault

pub record NetworkAccessPolicy : Type 0 where
  pub default : NetworkPolicyDefault
  pub allow_services : List String
  pub allow_cidrs : List String
  pub deny_services : List String
  pub deny_cidrs : List String

abbrev pub default_access : NetworkAccessPolicy
default_access = record {
  default = allow;
  allow_services = [];
  allow_cidrs = [];
  deny_services = [];
  deny_cidrs = [];
}

pub record NetworkPolicySection : Type 0 where
  pub ingress : NetworkAccessPolicy
  pub egress : NetworkAccessPolicy

pub record RuntimeSection : Type 0 where
  pub command : List String

pub record NetworkSection : Type 0 where
  pub port : Option ℕ
  pub policy : NetworkPolicySection

pub record ResourceSection : Type 0 where
  pub memory : Option String
  pub cpu : Option String

pub record HealthSection : Type 0 where
  pub path : Option String

pub record ServiceManifest : Type 0 where
  pub name : String
  pub runtime : RuntimeSection
  pub network : NetworkSection
  pub resources : ResourceSection
  pub volumes : List String
  pub routes : List String
  pub health : HealthSection

pub data Direction : Type 0 where
  ingress egress : Direction

pub data PolicyField : Type 0 where
  allow_services deny_services allow_cidrs deny_cidrs : PolicyField

-- The errors of `load_manifest`.
pub data ManifestError : Type 0 where
  missing_manifest : ManifestError
  unreadable : String → ManifestError
  unparsable : String → ManifestError
  empty_name : ManifestError
  empty_command : ManifestError
  empty_service_name : Direction → PolicyField → ManifestError
  invalid_cidr : Direction → PolicyField → String → ManifestError

unfoldable pub validate_service_list :
    Direction → PolicyField → List String → Result ManifestError (Unit {0})
validate_service_list direction name [] = ok tt
validate_service_list direction name (value ∷ values) =
    let rest = validate_service_list direction name values in
    guard (not (is_blank value)) (empty_service_name direction name) >> rest

abbrev pub is_empty : List String → Bool
is_empty [] = true
is_empty (x ∷ xs) = false

-- `is_net` tells whether `IpNet` parses a text.
module _ (is_net : String → Bool) where
  unfoldable pub validate_cidr_list :
      Direction → PolicyField → List String → Result ManifestError (Unit {0})
  validate_cidr_list direction name [] = ok tt
  validate_cidr_list direction name (value ∷ values) =
      let rest = validate_cidr_list direction name values in
      guard (is_net value) (invalid_cidr direction name value) >> rest

  unfoldable pub validate_policy : Direction → NetworkAccessPolicy → Result ManifestError (Unit {0})
  unfolding validate_service_list validate_cidr_list
  validate_policy direction policy = do
    validate_service_list direction PolicyField.allow_services policy.allow_services
    validate_service_list direction PolicyField.deny_services policy.deny_services
    validate_cidr_list direction PolicyField.allow_cidrs policy.allow_cidrs
    validate_cidr_list direction PolicyField.deny_cidrs policy.deny_cidrs

  unfoldable pub validate_network_policy : ServiceManifest → Result ManifestError (Unit {0})
  unfolding validate_policy
  validate_network_policy manifest = do
    validate_policy Direction.ingress manifest.network.policy.ingress
    validate_policy Direction.egress manifest.network.policy.egress

  -- The checks of `load_manifest` after the file is parsed.
  unfoldable pub check_manifest : ServiceManifest → Result ManifestError ServiceManifest
  unfolding validate_network_policy
  check_manifest manifest = do
    guard (not (is_blank manifest.name)) empty_name
    guard (not (is_empty manifest.runtime.command)) empty_command
    validate_network_policy manifest
    ok manifest
