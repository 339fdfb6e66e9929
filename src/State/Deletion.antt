-- ===== src/State/Deletion.antt =====
-- `delete_service` of rust/src/state.rs: what is gone, and what stays.
use megaserver.Common.{String, ◌≡◌, refl, none, [], ◌==◌, if◌then◌else◌}
use megaserver.Rows.{text_key, where_key}
use megaserver.Rows.Keyed.{where_key-delete}
use megaserver.State.{Db}
use megaserver.State.Services.{
  service_by_name, delete_service, deployment_service, route_service, secret_service,
}
use megaserver.State.Sandboxes.{sandbox_by_service}
use megaserver.State.Lookups.{service_by_name-delete_service, sandbox_by_service-delete_service}

-- The five tables lose the rows of one service and keep those of the others; the other tables stay.
pub record IsDeleted (name : String) (db out : Db) : Type 0 where
  pub service :
      (j : String) → service_by_name out j ≡ (if name == j then none else service_by_name db j)
  pub sandbox :
      (j : String)
      → sandbox_by_service out j ≡ (if name == j then none else sandbox_by_service db j)
  pub deployments :
      (j : String)
      → where_key deployment_service j out.deployments.rows
        ≡ (if name == j then [] else where_key deployment_service j db.deployments.rows)
  pub routes :
      (j : String)
      → where_key route_service j out.routes.rows
        ≡ (if name == j then [] else where_key route_service j db.routes.rows)
  pub secrets :
      (j : String)
      → where_key secret_service j out.secrets.rows
        ≡ (if name == j then [] else where_key secret_service j db.secrets.rows)
  pub projects : out.projects ≡ db.projects
  pub deployment_releases : out.deployment_releases ≡ db.deployment_releases
  pub volumes : out.volumes ≡ db.volumes
  pub snapshots : out.snapshots ≡ db.snapshots
  pub events : out.events ≡ db.events

-- Deleting a service removes exactly its rows from the services, sandboxes, deployments, routes and secrets, for
-- whatever rows other services have there; projects, releases, volumes, snapshots and events do not change.
pub delete_service-IsDeleted :
    (name : String) (db : Db) → IsDeleted name db (delete_service name db)
unfolding delete_service
delete_service-IsDeleted name db = record {
  service = service_by_name-delete_service name db;
  sandbox = sandbox_by_service-delete_service name db;
  deployments = λ j. where_key-delete deployment_service name j db.deployments.rows;
  routes = λ j. where_key-delete route_service name j db.routes.rows;
  secrets = λ j. where_key-delete secret_service name j db.secrets.rows;
  projects = refl;
  deployment_releases = refl;
  volumes = refl;
  snapshots = refl;
  events = refl;
}
