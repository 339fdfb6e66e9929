-- ===== src/App/Stop.antt =====
-- `stop_only` and `destroy_only` of rust/src/app.rs.
use megaserver.Common.{ℕ, String, Option, none, some, List, [], ◌∷◌}
use megaserver.State.{Db}
use megaserver.Paths.{StatePaths, service_runtime_dir, service_logs_dir}
use megaserver.Json.{object, str, opt_num}
use megaserver.Model.{SandboxRecord}
use megaserver.State.Services.{update_service_status, delete_service_statements, delete_sandbox}
use megaserver.State.Sandboxes.{SandboxUpsert, sandbox_by_service, upsert_sandbox}
use megaserver.Exec.{M, pure, ◌>>=◌, ◌>>◌, attempt}
use megaserver.Host.{Host}
use megaserver.Host.Database.{open_db, query, exec, emit}
use megaserver.Host.Files.{must, ignore}
use megaserver.Host.Processes.{stop_pid}
use megaserver.App.Support.{load_service, launch_metadata, refresh_private_hosts}
use megaserver.App.Network.{refresh_linux_network_policies, stop_if_idle}

-- The row of a sandbox that has stopped: no process and no cgroup.
abbrev pub stopped_sandbox : String → SandboxRecord → SandboxUpsert
stopped_sandbox service r = record {
  service_name = service;
  sandbox_id = r.sandbox_id;
  hostname = r.hostname;
  ip_address = r.ip_address;
  runtime_kind = r.runtime_kind;
  isolation_mode = r.isolation_mode;
  status = "stopped";
  pid = none;
  cgroup_path = none;
}

module _ (host : Host) where
  open host use {World, cleanup, remove_dir_all}

  unfoldable pub stop_process : Option ℕ → M World (Unit {0})
  stop_process none = pure tt
  stop_process (some pid) = stop_pid host pid 5000

  unfoldable pub stop_sandbox : String → Option SandboxRecord → M World (Unit {0})
  stop_sandbox service none = pure tt
  stop_sandbox service (some existing) = do
    must "cleanup sandbox" (cleanup (launch_metadata service existing))
    exec host (λ st. upsert_sandbox st (stopped_sandbox service existing))

  unfoldable pub kill_process : Option ℕ → M World (Unit {0})
  kill_process none = pure tt
  kill_process (some pid) = do outcome ← attempt (stop_pid host pid 2000); pure tt

  unfoldable pub cleanup_existing : String → Option SandboxRecord → M World (Unit {0})
  cleanup_existing service none = pure tt
  cleanup_existing service (some existing) =
      must "cleanup sandbox" (cleanup (launch_metadata service existing))

  -- The loop of `delete_service`: the engine may refuse each statement, and those before it have run.
  unfoldable pub run_deletes : List (String → Db → Db) → String → M World (Unit {0})
  run_deletes [] service = pure tt
  run_deletes (sql ∷ rest) service = do exec host (λ st. sql service); run_deletes rest service

  module _ (paths : StatePaths) where
    -- What `stop_only` and `destroy_only` refresh once the rows have changed.
    unfoldable pub settle : M World (Unit {0})
    settle = do
      refresh_linux_network_policies host
      refresh_private_hosts host paths
      stop_if_idle host

    unfoldable pub stop_only : String → M World (Unit {0})
    unfolding stop_process stop_sandbox settle
    stop_only service = do
      found ← load_service host service
      stop_process found.pid
      open_db host
      exec host (λ st. update_service_status st service "stopped" none)
      existing ← query host (λ db. sandbox_by_service db service)
      stop_sandbox service existing
      settle
      emit host (some service) "service.stopped" (object (("pid", opt_num found.pid) ∷ []))

    unfoldable pub destroy_only : String → M World (Unit {0})
    unfolding kill_process cleanup_existing settle run_deletes
    destroy_only service = do
      found ← load_service host service
      kill_process found.pid
      open_db host
      existing ← query host (λ db. sandbox_by_service db service)
      cleanup_existing service existing
      emit host (some service) "service.destroyed" (object (("service", str service) ∷ []))
      exec host (λ st. delete_sandbox service)
      run_deletes delete_service_statements service
      settle
      ignore (remove_dir_all (service_runtime_dir paths service))
      ignore (remove_dir_all (service_logs_dir paths service))
