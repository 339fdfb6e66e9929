-- ===== src/App/Rollback.antt =====
-- `rollback_only` of rust/src/app.rs: a service goes back to a snapshot, and where that fails, to what it was.
pub mod Refused
pub mod Settings
pub mod Restored
pub mod Outcome
use megaserver.Common.{
  ℕ, String, Bool, true, false, Option, none, some, List, [], ◌∷◌, ◌++◌, any, if◌then◌else◌, ◌==◌,
  ◌||◌,
}
use megaserver.Common.Texts.{concat, decimal}
use megaserver.Result.{Result, ok, err, or_error}
use megaserver.Rows.{is_some}
use megaserver.Paths.{StatePaths, join, service_runtime_dir}
use megaserver.Json.{Json, object, str, opt_num}
use megaserver.Model.{ServiceRecord, SandboxRecord, SnapshotRecord}
use megaserver.Manifest.{ServiceManifest}
use megaserver.State.Services.{
  ServiceUpsert, service_by_name, upsert_service, update_service_status,
}
use megaserver.State.Sandboxes.{SandboxUpsert, sandbox_by_service, upsert_sandbox}
use megaserver.State.Resources.{snapshot_by_name}
use megaserver.Exec.{
  AppError, bad_manifest_json, unknown_service, unknown_snapshot, foreign_snapshot,
  rollback_restored, rollback_unrecovered, M, pure, raise, ◌>>=◌, ◌>>◌, call, lift, attempt,
}
use megaserver.Host.{Host}
use megaserver.Host.Database.{open_db, query, exec, emit}
use megaserver.Host.Files.{must, must_give, ignore}
use megaserver.Host.Processes.{health_check_with_timeout}
use megaserver.App.Support.{
  load_service, manifest_from_record, service_runtime_host, refresh_private_hosts,
}
use megaserver.App.Start.{start_only, health_json}
use megaserver.App.Stop.{stop_only}

unfoldable pub service_running_status : String → Bool
service_running_status status = status == "healthy" || status == "degraded" || status == "starting"

-- `record.pid.is_some() || service_running_status(record.status.as_str())`
abbrev pub was_running : ServiceRecord → Bool
was_running r = is_some r.pid || service_running_status r.status

-- The loop that adds the names that are not there yet.
unfoldable pub add_names : List String → List String → List String
add_names names [] = names
add_names names (volume ∷ volumes) =
    add_names (if any (λ existing. existing == volume) names then names else names ++ volume ∷ [])
      volumes

unfoldable pub rollback_volume_names : ServiceManifest → ServiceManifest → List String
unfolding add_names
rollback_volume_names current snapshot = add_names current.volumes snapshot.volumes

pub record RollbackBackup : Type 0 where
  pub root : String
  pub runtime_dir : String
  pub volumes_dir : String

abbrev backup_at : String → RollbackBackup
backup_at root = record {
  root = root;
  runtime_dir = join root "runtime";
  volumes_dir = join root "volumes";
}

-- The row of the snapshot's manifest.
abbrev pub rolled_back : String → ServiceRecord → String → ServiceManifest → ServiceUpsert
rolled_back service r manifest_raw m = record {
  service_name = service;
  status = "rolled-back";
  app_path = r.app_path;
  manifest_json = manifest_raw;
  plan_json = r.plan_json;
  port = m.network.port;
  health_path = m.health.path;
}

abbrev pub restored_status : ServiceRecord → Bool → String
restored_status r running = if running then "stopped" else r.status

abbrev pub restored : String → ServiceRecord → Bool → ServiceUpsert
restored service r running = record {
  service_name = service;
  status = restored_status r running;
  app_path = r.app_path;
  manifest_json = r.manifest_json;
  plan_json = r.plan_json;
  port = r.port;
  health_path = r.health_path;
}

abbrev pub recovered_sandbox : String → SandboxRecord → Option ℕ → SandboxUpsert
recovered_sandbox service b pid = record {
  service_name = service;
  sandbox_id = b.sandbox_id;
  hostname = b.hostname;
  ip_address = b.ip_address;
  runtime_kind = b.runtime_kind;
  isolation_mode = b.isolation_mode;
  status = "running";
  pid = pid;
  cgroup_path = b.cgroup_path;
}

-- `service_runtime_host` of the sandbox row, or of a process of the host.
abbrev sandbox_host : Option SandboxRecord → String
sandbox_host none = service_runtime_host "host-process" none
sandbox_host (some b) = service_runtime_host b.runtime_kind b.ip_address

abbrev recovery_text : Result AppError (Unit {0}) → String
recovery_text (ok u) = "restored"
recovery_text (err e) = "failed"

abbrev pub failed_rollback : String → AppError → Result AppError (Unit {0}) → AppError
failed_rollback snapshot e (ok u) = rollback_restored snapshot e
failed_rollback snapshot e (err e') = rollback_unrecovered snapshot e e'

module _ (host : Host) (paths : StatePaths) where
  open host use {
    World, nanos, read_to_string, remove_dir_all, copy_tree, decode_manifest, parse_json,
    error_text,
  }

  unfoldable pub copy_volumes_to : String → List String → M World (Unit {0})
  copy_volumes_to target [] = pure tt
  copy_volumes_to target (volume ∷ volumes) = do
    must "copy volume" (copy_tree (join paths.volumes_dir volume) (join target volume))
    copy_volumes_to target volumes

  unfoldable pub capture_rollback_backup : String → List String → M World RollbackBackup
  unfolding copy_volumes_to
  capture_rollback_backup service volumes = do
    id ← call nanos
    let root = join (join (join paths.run_dir "rollback-backups") service) (decimal id)
    must "copy runtime" (copy_tree (service_runtime_dir paths service) (join root "runtime"))
    copy_volumes_to (join root "volumes") volumes
    pure (backup_at root)

  unfoldable pub restore_volumes : String → List String → M World (Unit {0})
  restore_volumes source [] = pure tt
  restore_volumes source (volume ∷ volumes) = do
    ignore (remove_dir_all (join paths.volumes_dir volume))
    must "copy volume" (copy_tree (join source volume) (join paths.volumes_dir volume))
    restore_volumes source volumes

  unfoldable pub restore_service_files : String → List String → String → String → M World (Unit {0})
  unfolding restore_volumes
  restore_service_files service volumes runtime_src volumes_src = do
    ignore (remove_dir_all (service_runtime_dir paths service))
    must "copy runtime" (copy_tree runtime_src (service_runtime_dir paths service))
    restore_volumes volumes_src volumes

  unfoldable pub restore_service_record : String → ServiceRecord → Bool → M World (Unit {0})
  restore_service_record service r running = do
    open_db host
    exec host (λ st. upsert_service st (restored service r running))
    exec host (λ st. update_service_status st service (restored_status r running) none)

  unfoldable pub recover_sandbox : String → Option ℕ → Option SandboxRecord → M World (Unit {0})
  recover_sandbox service pid none = pure tt
  recover_sandbox service pid (some b) =
      exec host (λ st. upsert_sandbox st (recovered_sandbox service b pid))

  -- The part of `reconcile_service_health` for a service that is not healthy.
  unfoldable pub recover_health : String → ServiceRecord → M World (Unit {0})
  unfolding recover_sandbox
  recover_health service r = do
    sandbox ← query host (λ db. sandbox_by_service db service)
    health ← health_check_with_timeout host (sandbox_host sandbox) r.port r.health_path 30000
    exec host (λ st. update_service_status st service "healthy" r.pid)
    recover_sandbox service r.pid sandbox
    emit host (some service) "service.health.recovered"
        (object (("pid", opt_num r.pid) ∷ ("health", health_json health (parse_json health)) ∷ []))
    refresh_private_hosts host paths

  unfoldable pub reconcile_service_health : String → M World (Unit {0})
  unfolding recover_health
  reconcile_service_health service = do
    open_db host
    found ← query host (λ db. service_by_name db service)
    r ← lift (or_error found (unknown_service service))
    if r.status == "healthy" then pure tt else recover_health service r

  -- `rollback_result`
  unfoldable pub apply_snapshot :
      String
      → String
      → String
      → ServiceRecord
      → String
      → ServiceManifest
      → List String
      → M World (Unit {0})
  unfolding restore_service_files
  apply_snapshot service snapshot snapshot_dir r manifest_raw m volumes = do
    restore_service_files service volumes (join snapshot_dir "runtime")
        (join snapshot_dir "volumes")
    open_db host
    exec host (λ st. upsert_service st (rolled_back service r manifest_raw m))
    emit host (some service) "snapshot.rollback" (object (("snapshot", str snapshot) ∷ []))
    start_only host paths service

  unfoldable pub note_unhealthy : String → Result AppError (Unit {0}) → M World (Unit {0})
  note_unhealthy service (ok u) = pure tt
  note_unhealthy service (err e) = do
    open_db host
    emit host (some service) "service.health.recovery.degraded"
        (object (("error", str (error_text e)) ∷ []))

  unfoldable pub reconcile_recovered : String → Bool → M World (Unit {0})
  unfolding reconcile_service_health note_unhealthy
  reconcile_recovered service false = pure tt
  reconcile_recovered service true = do
    outcome ← attempt (reconcile_service_health service)
    note_unhealthy service outcome

  unfoldable pub restart_recovered : String → ServiceRecord → Bool → M World (Unit {0})
  unfolding reconcile_recovered
  restart_recovered service r false = pure tt
  restart_recovered service r true = do
    start_only host paths service
    reconcile_recovered service (r.status == "healthy")

  -- `recovery`
  unfoldable pub recover :
      String → ServiceRecord → List String → RollbackBackup → M World (Unit {0})
  unfolding restore_service_files restore_service_record restart_recovered
  recover service r volumes backup = do
    restore_service_files service volumes backup.runtime_dir backup.volumes_dir
    restore_service_record service r (was_running r)
    restart_recovered service r (was_running r)

  unfoldable pub stop_if_running : String → Bool → M World (Unit {0})
  stop_if_running service false = pure tt
  stop_if_running service true = stop_only host paths service

  -- `let _ = stop_only(...)` where the failed rollback has left a process.
  unfoldable pub stop_remains : String → Bool → M World (Unit {0})
  stop_remains service false = pure tt
  stop_remains service true = do outcome ← attempt (stop_only host paths service); pure tt

  unfoldable pub finish_rollback :
      String
      → String
      → ServiceRecord
      → List String
      → RollbackBackup
      → Result AppError (Unit {0})
      → M World (Unit {0})
  unfolding recover stop_remains
  finish_rollback service snapshot r volumes backup (ok u) = ignore (remove_dir_all backup.root)
  finish_rollback service snapshot r volumes backup (err e) = do
    current ← load_service host service
    stop_remains service (was_running current)
    recovery ← attempt (recover service r volumes backup)
    ignore (remove_dir_all backup.root)
    open_db host
    emit host (some service) "snapshot.rollback.failed" (
        object (
          ("snapshot", str snapshot)
          ∷ ("error", str (error_text e))
          ∷ ("recovery", str (recovery_text recovery))
          ∷ []))
    raise (failed_rollback snapshot e recovery)

  unfoldable pub check_owner : String → String → SnapshotRecord → M World (Unit {0})
  check_owner service snapshot snap =
      if snap.service_name == service
      then pure tt
      else raise (foreign_snapshot snapshot snap.service_name service)

  -- From the rows and the manifest that were read to the end.
  unfoldable pub rollback_loaded :
      String → String → String → ServiceRecord → String → ServiceManifest → M World (Unit {0})
  unfolding stop_if_running capture_rollback_backup apply_snapshot finish_rollback
  rollback_loaded service snapshot snapshot_dir r manifest_raw m = do
    current ← manifest_from_record host r
    let volumes = rollback_volume_names current m
    stop_if_running service (was_running r)
    backup ← capture_rollback_backup service volumes
    outcome ← attempt (apply_snapshot service snapshot snapshot_dir r manifest_raw m volumes)
    finish_rollback service snapshot r volumes backup outcome

  unfoldable pub rollback_only : String → String → M World (Unit {0})
  unfolding check_owner rollback_loaded
  rollback_only service snapshot = do
    open_db host
    found ← query host (λ db. snapshot_by_name db snapshot)
    snap ← lift (or_error found (unknown_snapshot snapshot))
    check_owner service snapshot snap
    manifest_raw ←
        must_give "read manifest" (read_to_string (join snap.snapshot_path "manifest.json"))
    m ← lift (or_error (decode_manifest manifest_raw) bad_manifest_json)
    r ← load_service host service
    rollback_loaded service snapshot snap.snapshot_path r manifest_raw m
