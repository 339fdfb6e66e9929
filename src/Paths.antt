-- ===== src/Paths.antt =====
-- `StatePaths` of rust/src/state.rs, over the texts of Unix paths.
use Prim.Native.Char.{code}
use text.Mathlib.Text.{starts_with}
use megaserver.Common.{
  String, ◌≡◌, refl, Bool, false, Option, none, some, [], ◌∷◌, nat_eq, if◌then◌else◌, ◌==◌,
}
use megaserver.Common.Texts.{concat}

abbrev ends_with_slash : String → Bool
ends_with_slash String.[] = false
ends_with_slash (String.◌∷◌ c String.[]) = nat_eq (code c) b'/'
ends_with_slash (String.◌∷◌ c (String.◌∷◌ d s)) = ends_with_slash (String.◌∷◌ d s)

-- `Path::join`: an absolute path replaces the base.
unfoldable pub join : String → String → String
join base part =
    if starts_with part "/"
    then part
    else if base == ""
    then part
    else if ends_with_slash base
    then concat (base ∷ part ∷ [])
    else concat (base ∷ "/" ∷ part ∷ [])

pub record StatePaths : Type 0 where
  pub home : String
  pub db_path : String
  pub logs_dir : String
  pub projects_dir : String
  pub run_dir : String
  pub volumes_dir : String
  pub snapshots_dir : String

unfoldable pub layout : String → StatePaths
layout home = record {
  home = home;
  db_path = join home "state/megaserver.db";
  logs_dir = join home "logs";
  projects_dir = join home "projects";
  run_dir = join home "run";
  volumes_dir = join home "volumes";
  snapshots_dir = join home "snapshots";
}

-- The arguments: `home_override`, the variable MEGASERVER_HOME, and the current directory, or nothing
-- where it cannot be read.
unfoldable pub resolve : Option String → Option String → Option String → Option StatePaths
unfolding layout
resolve (some home) env cwd = some (layout home)
resolve none (some home) cwd = some (layout home)
resolve none none (some cwd) = some (layout (join cwd ".megaserver"))
resolve none none none = none

unfoldable pub service_logs_dir : StatePaths → String → String
service_logs_dir paths service = join paths.logs_dir service

unfoldable pub service_runtime_dir : StatePaths → String → String
service_runtime_dir paths service = join paths.run_dir service

join_tests :
    (join "/var/lib" "data" ≡ "/var/lib/data")
    × (join "/var/lib/" "data" ≡ "/var/lib/data")
    × (join "/var/lib" "/etc" ≡ "/etc")
unfolding join
join_tests = (refl, refl, refl)
