-- ===== src/Http/Paths.antt =====
-- The helpers on the paths of requests in rust/src/host_abi.rs: service_name_from_path, rollback_names_from_path, and
-- what they use of Rust's `str`.
pub mod Names
use Prim.Native.Char.{code}
use Prim.Native.String
use megaserver.Common.{
  String, Bool, true, false, ◌||◌, Option, none, some, List, [], ◌∷◌, nat_eq, ◌==◌, if◌then◌else◌,
}
use mathlib.Core.Option

-- `path.split_once('?').unwrap_or((path, ""))`, the first part.
unfoldable pub before_query : String → String
before_query String.[] = ""
before_query (String.◌∷◌ c s) =
    let rest = before_query s in if nat_eq (code c) b'?' then "" else String.◌∷◌ c rest

-- The second part, if there is one.
unfoldable pub after_query : String → Option String
after_query String.[] = none
after_query (String.◌∷◌ c s) =
    let rest = after_query s in if nat_eq (code c) b'?' then some s else rest

unfoldable pub strip_prefix : String → String → Option String
strip_prefix String.[] s = some s
strip_prefix (String.◌∷◌ c p) String.[] = none
strip_prefix (String.◌∷◌ c p) (String.◌∷◌ d s) =
    let rest = strip_prefix p s in if nat_eq (code c) (code d) then rest else none

unfoldable pub strip_suffix : String → String → Option String
strip_suffix suffix String.[] = if suffix == "" then some "" else none
strip_suffix suffix (String.◌∷◌ c s) =
    let rest = strip_suffix suffix s in
    elim rest [
      | some r ↦ some (String.◌∷◌ c r)
      | none ↦ if String.◌∷◌ c s == suffix then some "" else none
    ]

-- `s.split_once(separator)`: around the first place.
unfoldable pub split_once : String → String → Option (String × String)
unfolding strip_prefix
split_once separator String.[] = Option.map (λ rest. ("", rest)) (strip_prefix separator "")
split_once separator (String.◌∷◌ c s) =
    let later = split_once separator s in
    elim (strip_prefix separator (String.◌∷◌ c s)) [
      | some rest ↦ some ("", rest)
      | none ↦ Option.map (λ found. (String.◌∷◌ c found.0, found.1)) later
    ]

abbrev pub services_prefix : String
services_prefix = "/v1/services/"

abbrev filled : String → Option String
filled s = if s == "" then none else some s

unfoldable pub service_name_from_path : String → String → Option String
unfolding before_query strip_prefix strip_suffix
service_name_from_path path suffix = elim (strip_prefix services_prefix (before_query path)) [
  | none ↦ none
  | some trimmed ↦ elim (strip_suffix suffix trimmed) [ none ↦ none | some s ↦ filled s ]
]

abbrev both_filled : String → String → Option (String × String)
both_filled s t = if s == "" || t == "" then none else some (s, t)

unfoldable pub rollback_names_from_path : String → Option (String × String)
unfolding before_query strip_prefix split_once
rollback_names_from_path path = elim (strip_prefix services_prefix (before_query path)) [
  | none ↦ none
  | some trimmed ↦ elim (split_once "/rollback/" trimmed) [
    | none ↦ none
    | some (service, snapshot) ↦ both_filled service snapshot
  ]
]
