-- ===== src/App/Deploy.antt =====
-- `deploy_only` and `deploy_and_start_only` of rust/src/app.rs. The planner's answer is the host's.
use megaserver.Common.{ℕ, String, Option, some, List, [], ◌∷◌}
use megaserver.Result.{or_error}
use megaserver.Paths.{StatePaths}
use megaserver.Json.{Json, object, str}
use megaserver.Manifest.{ServiceManifest}
use megaserver.Manifest.Load.{load_manifest}
use megaserver.State.Services.{ServiceUpsert, upsert_service, insert_deployment, put_route}
use megaserver.Exec.{io, M, pure, ◌>>=◌, ◌>>◌, lift}
use megaserver.Host.{Host}
use megaserver.Host.Database.{open_db, exec, emit}
use megaserver.Host.Files.{must_give}
use megaserver.App.Support.{ensure_volume}
use megaserver.App.Start.{start_only}

abbrev pub deployed_service : String → ServiceManifest → String → String → ServiceUpsert
deployed_service app_path manifest manifest_json plan_json = record {
  service_name = manifest.name;
  status = "deployed";
  app_path = app_path;
  manifest_json = manifest_json;
  plan_json = plan_json;
  port = manifest.network.port;
  health_path = manifest.health.path;
}

module _ (host : Host) (paths : StatePaths) where
  open host use {World, canonicalize, plan, encode_manifest, encode_json}

  unfoldable pub ensure_volumes : String → List String → M World (Unit {0})
  ensure_volumes service [] = pure tt
  ensure_volumes service (volume ∷ volumes) = do
    row ← ensure_volume host paths (some service) volume
    ensure_volumes service volumes

  unfoldable pub put_routes : String → Option ℕ → List String → M World (Unit {0})
  put_routes service port [] = pure tt
  put_routes service port (route ∷ routes) = do
    exec host (λ st. put_route st service route port)
    put_routes service port routes

  -- The statements of `deploy_only`.
  unfoldable pub record_deployment :
      String → ServiceManifest → String → Json → String → M World (Unit {0})
  unfolding ensure_volumes put_routes
  record_deployment app_path manifest manifest_json planned plan_json = do
    open_db host
    exec host (λ st. upsert_service st (deployed_service app_path manifest manifest_json plan_json))
    exec host (λ st. insert_deployment st manifest.name manifest_json plan_json)
    ensure_volumes manifest.name manifest.volumes
    put_routes manifest.name manifest.network.port manifest.routes
    emit host (some manifest.name) "deployment.created"
        (object (("app_path", str app_path) ∷ ("plan", planned) ∷ []))

  unfoldable pub deploy_only : String → M World (Unit {0})
  unfolding record_deployment
  deploy_only given = do
    app_path ← must_give "canonicalize" (canonicalize given)
    manifest ← load_manifest host app_path
    planned ← must_give "plan manifest" (plan manifest)
    manifest_json ← lift (or_error (encode_manifest manifest) (io "manifest json"))
    plan_json ← lift (or_error (encode_json planned) (io "plan json"))
    record_deployment app_path manifest manifest_json planned plan_json

  unfoldable pub deploy_and_start_only : String → M World String
  unfolding deploy_only
  deploy_and_start_only given = do
    deploy_only given
    app_path ← must_give "canonicalize" (canonicalize given)
    manifest ← load_manifest host app_path
    start_only host paths manifest.name
    pure manifest.name
