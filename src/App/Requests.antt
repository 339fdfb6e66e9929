-- ===== src/App/Requests.antt =====
-- The requests of rust/src/host_abi.rs that run the operations of rust/src/app.rs and rust/src/projects.rs.
use megaserver.Common.{ℕ, String, Bool, Option, List, [], ◌∷◌}
use megaserver.Paths.{StatePaths}
use megaserver.Exec.{Sys, M, pure, ◌>>=◌, ◌>>◌}
use megaserver.Host.{Host}
use megaserver.App.Start.{start_only}
use megaserver.App.Stop.{stop_only, destroy_only}
use megaserver.App.Rollback.{rollback_only}
use megaserver.App.Inspect.{inspect_value}
use megaserver.App.Projects.{import_project_value, deploy_project_value}
use megaserver.App.Deploy.{deploy_and_start_only}
use megaserver.App.Resources.{expose_value, set_secret_only, create_volume_value, snapshot_value}

-- The actions of `dispatch_value` with the fields they read.
pub data Action : Type 0 where
  deploy : String → Action
  start : String → Action
  stop : String → Action
  restart : String → Action
  destroy : String → Action
  route_add : String → String → Option ℕ → Action
  volume_create : String → Option String → Action
  secret_set : String → String → String → Action
  snapshot : String → Action
  rollback : String → String → Action
  inspect : String → Action
  project_import : String → Option String → Action
  deployment_create : String → Bool → Action

module _ (host : Host) (paths : StatePaths) where
  open host use {World}

  -- What the arms run; the JSON they answer with is left out.
  unfoldable pub dispatch_value : Action → M World (Unit {0})
  dispatch_value (deploy app_path) = do
    service ← deploy_and_start_only host paths app_path
    value ← inspect_value host service
    pure tt
  dispatch_value (start service) = do
    start_only host paths service
    value ← inspect_value host service
    pure tt
  dispatch_value (stop service) = stop_only host paths service
  dispatch_value (restart service) = do
    stop_only host paths service
    start_only host paths service
    value ← inspect_value host service
    pure tt
  dispatch_value (destroy service) = destroy_only host paths service
  dispatch_value (route_add service domain port) = do
    value ← expose_value host service domain port
    pure tt
  dispatch_value (volume_create name service) = do
    row ← create_volume_value host paths name service
    pure tt
  dispatch_value (secret_set service key value) = set_secret_only host service key value
  dispatch_value (snapshot service) = do value ← snapshot_value host paths service; pure tt
  dispatch_value (rollback service snapshot_name) = do
    rollback_only host paths service snapshot_name
    value ← inspect_value host service
    pure tt
  dispatch_value (inspect service) = do value ← inspect_value host service; pure tt
  dispatch_value (project_import source_path project) = do
    value ← import_project_value host paths source_path project
    pure tt
  dispatch_value (deployment_create project starting) = do
    value ← deploy_project_value host paths project starting
    pure tt

  -- A server's run: the next request starts from what the last one left, whether it returned or failed.
  unfoldable pub serve : List Action → Sys World → Sys World
  serve [] s = s
  serve (action ∷ actions) s = serve actions (dispatch_value action s).1
