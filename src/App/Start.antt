-- ===== src/App/Start.antt =====
-- `start_only` of rust/src/app.rs.
use megaserver.Common.{
  ℕ, String, Bool, true, false, Option, none, some, List, [], ◌∷◌, if◌then◌else◌, ◌==◌,
}
use megaserver.Result.{Result, ok, err}
use megaserver.Paths.{StatePaths}
use megaserver.Json.{Json, object, str, num, opt_str}
use megaserver.Model.{ServiceRecord}
use megaserver.Manifest.{ServiceManifest}
use megaserver.State.Services.{update_service_status}
use megaserver.State.Sandboxes.{SandboxUpsert, sandbox_by_service, upsert_sandbox}
use megaserver.Exec.{AppError, message, already_running, M, pure, raise, ◌>>=◌, ◌>>◌, attempt}
use megaserver.Host.{Host, SpawnedService, SandboxLaunchMetadata}
use megaserver.Host.Database.{open_db, query, exec, emit}
use megaserver.Host.Files.{must, must_give, ignore}
use megaserver.Host.Processes.{process_alive, stop_pid, health_check}
use megaserver.App.Support.{
  manifest_from_record, load_service, service_secret_env, service_volume_env, service_volume_mounts,
  sandbox_hostname, sandbox_id, pending_sandbox_id, sandbox_runtime_env, service_runtime_host,
  write_private_hosts_file, refresh_private_hosts,
}
use megaserver.App.Network.{refresh_linux_network_policies}
use megaserver.App.Stop.{cleanup_existing}

-- `.iter().find(|(key, _)| key == ...).map(...).unwrap_or_default()`
abbrev pub env_value : String → List (String × String) → String
env_value key [] = ""
env_value key ((k, v) ∷ rest) = if k == key then v else env_value key rest

-- The sandbox row of a process that was spawned.
abbrev pub spawned_sandbox : String → String → SpawnedService → String → SandboxUpsert
spawned_sandbox service ip spawned status = record {
  service_name = service;
  sandbox_id = sandbox_id service spawned.pid;
  hostname = sandbox_hostname service;
  ip_address = some ip;
  runtime_kind = spawned.runtime_kind;
  isolation_mode = spawned.isolation_mode;
  status = status;
  pid = some spawned.pid;
  cgroup_path = spawned.cgroup_path;
}

-- The same, once the start is given up.
abbrev pub failed_sandbox : String → String → SpawnedService → SandboxUpsert
failed_sandbox service ip spawned = record {
  service_name = service;
  sandbox_id = sandbox_id service spawned.pid;
  hostname = sandbox_hostname service;
  ip_address = some ip;
  runtime_kind = spawned.runtime_kind;
  isolation_mode = spawned.isolation_mode;
  status = "stopped";
  pid = none;
  cgroup_path = none;
}

abbrev spawned_metadata : String → SpawnedService → SandboxLaunchMetadata
spawned_metadata service spawned = record {
  service_name = some service;
  runtime_kind = spawned.runtime_kind;
  isolation_mode = spawned.isolation_mode;
  cgroup_path = spawned.cgroup_path;
}

abbrev started_details : String → String → SpawnedService → Json
started_details service ip spawned = object (
    ("pid", num spawned.pid)
    ∷ ("stdout_log", str spawned.stdout_log)
    ∷ ("stderr_log", str spawned.stderr_log)
    ∷ ("sandbox_id", str (sandbox_id service spawned.pid))
    ∷ ("hostname", str (sandbox_hostname service))
    ∷ ("ip_address", str ip)
    ∷ [])

-- `serde_json::from_str(&health).unwrap_or_else(|_| json!({"raw": health}))`
abbrev pub health_json : String → Option Json → Json
health_json health none = object (("raw", str health) ∷ [])
health_json health (some value) = value

abbrev health_details : String → String → SpawnedService → String × Json → Json
health_details service ip spawned health = object (
    ("pid", num spawned.pid)
    ∷ health
    ∷ ("sandbox_id", str (sandbox_id service spawned.pid))
    ∷ ("ip_address", str ip)
    ∷ ("runtime_kind", str spawned.runtime_kind)
    ∷ ("isolation_mode", str spawned.isolation_mode)
    ∷ ("cgroup_path", opt_str spawned.cgroup_path)
    ∷ [])

module _ (host : Host) (paths : StatePaths) where
  open host use {World, spawn, cleanup, ensure_dns, parse_json}

  unfoldable pub refuse_alive : String → ℕ → Bool → M World (Unit {0})
  refuse_alive service pid true = raise (already_running service pid)
  refuse_alive service pid false = pure tt

  unfoldable pub refuse_running : String → Option ℕ → M World (Unit {0})
  unfolding refuse_alive
  refuse_running service none = pure tt
  refuse_running service (some pid) = do
    here ← process_alive host pid
    refuse_alive service pid here

  -- `stop_pid` and `cleanup_sandbox` with their results dropped.
  unfoldable pub abandon : String → SpawnedService → M World (Unit {0})
  abandon service spawned = do
    stopped ← attempt (stop_pid host spawned.pid 2000)
    ignore (cleanup (spawned_metadata service spawned))

  unfoldable pub or_abandon_dns :
      String → SpawnedService → Result AppError (Unit {0}) → M World (Unit {0})
  or_abandon_dns service spawned (ok _) = pure tt
  or_abandon_dns service spawned (err e) = do abandon service spawned; raise e

  unfoldable pub or_abandon_policies :
      String → String → SpawnedService → Result AppError (Unit {0}) → M World (Unit {0})
  or_abandon_policies service ip spawned (ok _) = pure tt
  or_abandon_policies service ip spawned (err e) = do
    abandon service spawned
    status ← attempt (exec host (λ st. update_service_status st service "failed" none))
    row ← attempt (exec host (λ st. upsert_sandbox st (failed_sandbox service ip spawned)))
    raise e

  -- The two rows of a service and its sandbox.
  unfoldable pub record_status :
      String → String → SpawnedService → String → String → M World (Unit {0})
  record_status service ip spawned status sandbox_status = do
    exec host (λ st. update_service_status st service status (some spawned.pid))
    exec host (λ st. upsert_sandbox st (spawned_sandbox service ip spawned sandbox_status))

  -- The outcome of the health check.
  unfoldable pub record_health :
      String → String → SpawnedService → Result AppError String → M World (Unit {0})
  unfolding record_status
  record_health service ip spawned (err e) = do
    record_status service ip spawned "degraded" "degraded"
    emit host (some service) "service.health.degraded"
        (health_details service ip spawned ("error", str (message e)))
    refresh_private_hosts host paths
  record_health service ip spawned (ok health) = do
    record_status service ip spawned "healthy" "running"
    emit host (some service) "service.healthy"
        (health_details service ip spawned ("health", health_json health (parse_json health)))
    refresh_private_hosts host paths

  -- From the spawned process to the end.
  unfoldable pub launch : String → String → ServiceManifest → SpawnedService → M World (Unit {0})
  unfolding or_abandon_dns or_abandon_policies record_status record_health abandon
  launch service ip manifest spawned = do
    dns ← attempt (must "ensure sandbox dns sidecar" ensure_dns)
    or_abandon_dns service spawned dns
    record_status service ip spawned "starting" "starting"
    policies ← attempt (refresh_linux_network_policies host)
    or_abandon_policies service ip spawned policies
    emit host (some service) "service.started" (started_details service ip spawned)
    health ← attempt (
        health_check host (service_runtime_host spawned.runtime_kind (some ip))
          manifest.network.port manifest.health.path)
    record_health service ip spawned health

  -- From the manifest to the spawned process, and on.
  unfoldable pub prepare : String → ServiceRecord → ServiceManifest → M World (Unit {0})
  unfolding launch
  prepare service found manifest = do
    secret_env ← service_secret_env host service
    volume_env ← service_volume_env host paths service manifest
    volume_mounts ← service_volume_mounts host paths service manifest
    open_db host
    sandbox_env ←
        sandbox_runtime_env host service (pending_sandbox_id service) (sandbox_hostname service)
    existing ← query host (λ db. sandbox_by_service db service)
    cleanup_existing host service existing
    write_private_hosts_file host paths service (sandbox_hostname service)
        (env_value "MEGASERVER_SANDBOX_IP" sandbox_env)
    spawned ← must_give "spawn service" (
        spawn (record {
          service_name = service;
          app_path = found.app_path;
          manifest = manifest;
          secret_env = secret_env;
          volume_env = volume_env;
          volume_mounts = volume_mounts;
          sandbox_env = sandbox_env;
        }))
    launch service (env_value "MEGASERVER_SANDBOX_IP" sandbox_env) manifest spawned

  unfoldable pub start_only : String → M World (Unit {0})
  unfolding refuse_running prepare
  start_only service = do
    found ← load_service host service
    refuse_running service found.pid
    manifest ← manifest_from_record host found
    prepare service found manifest
