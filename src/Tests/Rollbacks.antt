-- ===== src/Tests/Rollbacks.antt =====
-- Rollbacks of rust/src/app.rs on a concrete host, and the theorems on them.
use megaserver.Common.{
  String, ◌≡◌, ◌≢◌, refl, Bool, true, false, Option, none, some, [], ◌∷◌, inl, arith, eq_iff,
}
use megaserver.Result.{Result, ok, err}
use megaserver.Model.{ServiceRecord}
use megaserver.State.{Db, empty_db}
use megaserver.State.Services.{service_by_name}
use megaserver.State.Resources.{snapshot_by_name}
use megaserver.Exec.{AppError, Sys, ◌>>=◌, pure, raise, read, write, call, lift, attempt}
use megaserver.Exec.Refusals.{IsRefusal}
use megaserver.Host.{Host}
use megaserver.App.Rollback.{rollback_only, rollback_volume_names}
use megaserver.App.Rollback.Refused.{rollback_only-IsRefusal}
use megaserver.Tests.Systems.{host, paths, running_db}

-- A snapshot of each service.
abbrev snapshots_db : Db
snapshots_db = record running_db {
  snapshots = record {
    rows =
        record {
          id = 1;
          service_name = "web";
          snapshot_name = "web-1";
          snapshot_path = "/srv/snapshots/web-1";
          created_at = "2026-01-01T00:00:00Z";
        }
        ∷ record {
          id = 2;
          service_name = "api";
          snapshot_name = "api-1";
          snapshot_path = "/srv/snapshots/api-1";
          created_at = "2026-01-01T00:00:00Z";
        }
        ∷ [];
    seq = 2;
  };
}

abbrev with_snapshots : Sys (Unit {0})
with_snapshots = record { db = snapshots_db; world = tt }

abbrev status_after : Option ServiceRecord → Option String
status_after none = none
status_after (some r) = some r.status

-- How a run ended, and the status of the service after it.
abbrev ended : Result AppError (Unit {0}) × Sys (Unit {0}) → Bool × Option String
ended (ok u, s) = (true, status_after (service_by_name s.db "web"))
ended (err e, s) = (false, status_after (service_by_name s.db "web"))

-- No files can be copied, so that the backup fails after the service was stopped.
abbrev full_disk : Host
full_disk = record (host false) { copy_tree = λ source target w. (false, w) }

rollback_returns :
    ended (rollback_only (host false) paths "web" "web-1" with_snapshots) ≡ (true, some "healthy")
unfolding rollback_only ◌>>=◌ snapshot_by_name megaserver.App.Stop.stop_only
    megaserver.App.Start.start_only megaserver.State.Services.upsert_service rollback_volume_names
    pure raise read write call lift attempt megaserver.App.Support.load_service
    megaserver.Host.Database.open_db megaserver.Host.Database.query
    megaserver.State.Services.service_by_name megaserver.Rows.find
    megaserver.Host.Processes.stop_pid megaserver.Host.Database.exec
    megaserver.State.Sandboxes.sandbox_by_service megaserver.State.Services.update_service_status
    megaserver.Host.Files.must megaserver.App.Network.refresh_linux_network_policies
    megaserver.State.Sandboxes.list_sandboxes megaserver.Rows.Order.order_by
    megaserver.State.Sandboxes.upsert_sandbox megaserver.Rows.upsert
    megaserver.App.Support.refresh_private_hosts megaserver.App.Network.stop_if_idle
    megaserver.App.Support.manifest_from_record megaserver.App.Support.write_private_hosts_file
    megaserver.Host.Database.emit megaserver.Host.Files.ignore megaserver.Host.Files.must_give
    megaserver.Host.Processes.process_alive megaserver.Paths.join
    megaserver.Paths.service_runtime_dir megaserver.State.Resources.emit_event
    megaserver.State.Services.delete_service megaserver.Rows.delete
    megaserver.App.Support.service_secret_env megaserver.App.Support.service_volume_env
    megaserver.State.Resources.volume_by_name megaserver.State.Resources.upsert_volume
    megaserver.App.Support.service_volume_mounts megaserver.App.Support.sandbox_runtime_env
    megaserver.App.Stop.cleanup_existing megaserver.State.Ips.allocate_sandbox_ip
    megaserver.Ipv4.parse megaserver.Host.Processes.health_check
rollback_returns = refl

-- The backup is taken after the stop and outside of what the recovery covers.
backup_fails :
    ended (rollback_only full_disk paths "web" "web-1" with_snapshots) ≡ (false, some "stopped")
unfolding rollback_only ◌>>=◌ snapshot_by_name megaserver.App.Stop.stop_only
    megaserver.App.Start.start_only megaserver.State.Services.upsert_service rollback_volume_names
    pure raise read write call lift attempt megaserver.App.Support.load_service
    megaserver.Host.Database.open_db megaserver.Host.Database.query
    megaserver.State.Services.service_by_name megaserver.Rows.find
    megaserver.Host.Processes.stop_pid megaserver.Host.Database.exec
    megaserver.State.Sandboxes.sandbox_by_service megaserver.State.Services.update_service_status
    megaserver.Host.Files.must megaserver.App.Network.refresh_linux_network_policies
    megaserver.State.Sandboxes.list_sandboxes megaserver.Rows.Order.order_by
    megaserver.State.Sandboxes.upsert_sandbox megaserver.Rows.upsert
    megaserver.App.Support.refresh_private_hosts megaserver.App.Network.stop_if_idle
    megaserver.App.Support.manifest_from_record megaserver.App.Support.write_private_hosts_file
    megaserver.Host.Database.emit megaserver.Host.Files.ignore megaserver.Host.Files.must_give
    megaserver.Host.Processes.process_alive megaserver.Paths.join
    megaserver.Paths.service_runtime_dir megaserver.State.Resources.emit_event
    megaserver.State.Services.delete_service megaserver.Rows.delete
    megaserver.App.Support.service_secret_env megaserver.App.Support.service_volume_env
    megaserver.State.Resources.volume_by_name megaserver.State.Resources.upsert_volume
    megaserver.App.Support.service_volume_mounts megaserver.App.Support.sandbox_runtime_env
    megaserver.App.Stop.cleanup_existing megaserver.State.Ips.allocate_sandbox_ip
    megaserver.Ipv4.parse megaserver.Host.Processes.health_check
backup_fails = refl

api≢web : ◌≢◌ {A = String} "api" "web"
api≢web = ground (arith, eq_iff "api" "web")

rollback_only-IsRefusal_example :
    IsRefusal snapshots_db (rollback_only (host false) paths "web" "api-1" with_snapshots)
unfolding snapshot_by_name megaserver.Rows.find
rollback_only-IsRefusal_example =
    rollback_only-IsRefusal (host false) paths "web" "api-1" with_snapshots (inl api≢web)
