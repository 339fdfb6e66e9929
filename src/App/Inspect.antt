-- ===== src/App/Inspect.antt =====
-- `inspect_value` of rust/src/app.rs, which reads the database and asks for the service's health.
use megaserver.Common.{
  String, Bool, true, false, ◌||◌, ◌==◌, Option, none, some, List, [], ◌∷◌, map, select,
}
use megaserver.Result.{Result, ok, err, or_error}
use megaserver.Json.{Json, object, str}
use megaserver.Model.{ServiceRecord, SandboxRecord, RouteRecord, SecretRecord, VolumeRecord}
use megaserver.State.Services.{service_by_name, list_routes}
use megaserver.State.Sandboxes.{sandbox_by_service}
use megaserver.State.Resources.{list_secrets, list_volumes}
use megaserver.Exec.{AppError, message, unknown_service, M, pure, ◌>>=◌, ◌>>◌, lift, attempt}
use megaserver.Host.{Host}
use megaserver.Host.Database.{open_db, query}
use megaserver.Host.Processes.{health_check}
use megaserver.App.Support.{service_runtime_host}

-- The fields of the value; of the secrets only the keys.
pub record Inspection : Type 0 where
  pub service : ServiceRecord
  pub routes : List RouteRecord
  pub volumes : List VolumeRecord
  pub sandbox : Option SandboxRecord
  pub secrets : List String
  pub health : Json

abbrev is_owned : String → VolumeRecord → Bool
is_owned service v = elim v.service_name [ none ↦ false | some owner ↦ owner == service ]

-- `.map(...).unwrap_or("host-process")` and `.and_then(...)`
abbrev kind_of : Option SandboxRecord → String
kind_of none = "host-process"
kind_of (some r) = r.runtime_kind

abbrev address_of : Option SandboxRecord → Option String
address_of none = none
address_of (some r) = r.ip_address

abbrev pub secret_key_of : SecretRecord → String
secret_key_of s = s.key

module _ (host : Host) where
  open host use {World, show_json, parse_json}

  -- `unwrap_or_else`
  unfoldable pub health_text : Result AppError String → String
  health_text (ok text) = text
  health_text (err e) =
      show_json (object (("status", str "error") ∷ ("message", str (message e)) ∷ []))

  unfoldable pub read_health : Bool → ServiceRecord → Option SandboxRecord → M World String
  unfolding health_text
  read_health false r sandbox = pure (show_json (object (("status", str "not-running") ∷ [])))
  read_health true r sandbox = do
    health ← attempt (
        health_check host (service_runtime_host (kind_of sandbox) (address_of sandbox)) r.port
          r.health_path)
    pure (health_text health)

  abbrev pub health_value : String → Option Json → Json
  health_value text none = object (("raw", str text) ∷ [])
  health_value text (some value) = value

  unfoldable pub inspect_value : String → M World Inspection
  unfolding read_health
  inspect_value service = do
    open_db host
    found ← query host (λ db. service_by_name db service)
    r ← lift (or_error found (unknown_service service))
    routes ← query host (λ db. list_routes db (some service))
    secrets ← query host (λ db. list_secrets db (some service))
    sandbox ← query host (λ db. sandbox_by_service db service)
    volumes ← query host list_volumes
    health ← read_health (r.status == "healthy" || r.status == "degraded") r sandbox
    pure (record {
      service = r;
      routes = routes;
      volumes = select (is_owned service) volumes;
      sandbox = sandbox;
      secrets = map secret_key_of secrets;
      health = health_value health (parse_json health);
    })
