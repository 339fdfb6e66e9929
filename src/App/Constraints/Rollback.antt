-- ===== src/App/Constraints/Rollback.antt =====
-- A rollback keeps whatever the statements about its service keep, whether it returns or fails halfway.
use megaserver.Common.{◌≡◌, refl, ℕ, String, Bool, true, false, Option, none, some, List, [], ◌∷◌}
use megaserver.Result.{Result, ok, err}
use megaserver.Rows.{Stamp}
use megaserver.Paths.{StatePaths}
use megaserver.Json.{Json}
use megaserver.Model.{ServiceRecord, SandboxRecord, SnapshotRecord}
use megaserver.Manifest.{ServiceManifest}
use megaserver.State.{Db}
use megaserver.State.Services
use megaserver.State.Services.{ServiceUpsert}
use megaserver.State.Sandboxes
use megaserver.State.Sandboxes.{SandboxUpsert}
use megaserver.Exec.{AppError}
use megaserver.Exec.Rules.{Keeps, Keeps-bind, keeps_rules}
use megaserver.Host.{Host}
use megaserver.Host.Database.{exec, emit}
use megaserver.App.Rollback.{
  RollbackBackup, copy_volumes_to, capture_rollback_backup, restore_volumes, restore_service_files,
  restore_service_record, recover_sandbox, recover_health, reconcile_service_health, apply_snapshot,
  note_unhealthy, reconcile_recovered, restart_recovered, recover, stop_if_running, stop_remains,
  finish_rollback, check_owner, rollback_loaded, rollback_only,
}
use megaserver.App.Start.{start_only}
use megaserver.App.Stop.{stop_only}
use megaserver.App.Constraints.{Keeps-exec, Keeps-health_check_with_timeout}
use megaserver.App.Constraints.Reads.{call_rules}
use megaserver.App.Constraints.OfService.{
  IsStableFor, Keeps-emit, Keeps-update_service_status, Keeps-upsert_sandbox, Keeps-start_only,
  Keeps-stop_only,
}

-- What moves files alone keeps every property.
module _ (host : Host) (paths : StatePaths) {P : Db → Type 0} where
  Keeps-copy_volumes_to :
      (target : String) (volumes : List String)
      → Keeps P (copy_volumes_to host paths target volumes)
  unfolding copy_volumes_to
  Keeps-copy_volumes_to target [] = search keeps_rules
  Keeps-copy_volumes_to target (volume ∷ volumes) =
      Keeps-bind _ _ (search call_rules) (λ u. Keeps-copy_volumes_to target volumes)

  pub Keeps-capture_rollback_backup :
      (service : String) (volumes : List String)
      → Keeps P (capture_rollback_backup host paths service volumes)
  unfolding capture_rollback_backup
  Keeps-capture_rollback_backup service volumes = search (call_rules, Keeps-copy_volumes_to)

  Keeps-restore_volumes :
      (source : String) (volumes : List String)
      → Keeps P (restore_volumes host paths source volumes)
  unfolding restore_volumes
  Keeps-restore_volumes source [] = search keeps_rules
  Keeps-restore_volumes source (volume ∷ volumes) =
      Keeps-bind _ _ (search call_rules)
        λ u. Keeps-bind _ _ (search call_rules) λ v. Keeps-restore_volumes source volumes

  pub Keeps-restore_service_files :
      (service : String) (volumes : List String) (runtime_src volumes_src : String)
      → Keeps P (restore_service_files host paths service volumes runtime_src volumes_src)
  unfolding restore_service_files
  Keeps-restore_service_files service volumes runtime_src volumes_src =
      search (call_rules, Keeps-restore_volumes)

  pub Keeps-check_owner :
      (service snapshot : String) (snap : SnapshotRecord)
      → Keeps P (check_owner host paths service snapshot snap)
  unfolding check_owner
  Keeps-check_owner service snapshot snap = search keeps_rules

module _ (host : Host) (paths : StatePaths) {P : Db → Type 0} (service : String)
    (stable : IsStableFor service P) where
  mark_here :
      (status : String) (pid : Option ℕ)
      → Keeps P (exec host (λ st. Services.update_service_status st service status pid))
  mark_here = Keeps-update_service_status host service stable

  record_here :
      (s : SandboxUpsert)
      → s.service_name ≡ service
      → Keeps P (exec host (λ st. Sandboxes.upsert_sandbox st s))
  record_here = Keeps-upsert_sandbox host service stable

  emit_here :
      (owner : Option String) (kind : String) (details : Json)
      → Keeps P (emit host owner kind details)
  emit_here = Keeps-emit host service stable

  start_here : Keeps P (start_only host paths service)
  start_here = Keeps-start_only host service stable paths

  stop_here : Keeps P (stop_only host paths service)
  stop_here = Keeps-stop_only host service stable paths

  ruleset service_rules = (
    refl, call_rules, emit_here, mark_here, record_here, start_here, stop_here,
    Keeps-restore_service_files, Keeps-health_check_with_timeout,
  )

  Keeps-recover_sandbox :
      (pid : Option ℕ) (sandbox : Option SandboxRecord)
      → Keeps P (recover_sandbox host paths service pid sandbox)
  unfolding recover_sandbox
  Keeps-recover_sandbox pid none = search keeps_rules
  Keeps-recover_sandbox pid (some b) = search service_rules

  Keeps-recover_health : (r : ServiceRecord) → Keeps P (recover_health host paths service r)
  unfolding recover_health
  Keeps-recover_health r = search (service_rules, Keeps-recover_sandbox) depth 12

  pub Keeps-reconcile_service_health : Keeps P (reconcile_service_health host paths service)
  unfolding reconcile_service_health
  Keeps-reconcile_service_health = search (service_rules, Keeps-recover_health) depth 12

  Keeps-note_unhealthy :
      (outcome : Result AppError (Unit {0})) → Keeps P (note_unhealthy host paths service outcome)
  unfolding note_unhealthy
  Keeps-note_unhealthy (ok u) = search keeps_rules
  Keeps-note_unhealthy (err e) = search service_rules

  Keeps-reconcile_recovered :
      (healthy : Bool) → Keeps P (reconcile_recovered host paths service healthy)
  unfolding reconcile_recovered
  Keeps-reconcile_recovered false = search keeps_rules
  Keeps-reconcile_recovered true =
      search (service_rules, Keeps-reconcile_service_health, Keeps-note_unhealthy)

  pub Keeps-restart_recovered :
      (r : ServiceRecord) (running : Bool)
      → Keeps P (restart_recovered host paths service r running)
  unfolding restart_recovered
  Keeps-restart_recovered r false = search keeps_rules
  Keeps-restart_recovered r true = search (service_rules, Keeps-reconcile_recovered)

  pub Keeps-stop_if_running :
      (running : Bool) → Keeps P (stop_if_running host paths service running)
  unfolding stop_if_running
  Keeps-stop_if_running false = search keeps_rules
  Keeps-stop_if_running true = search service_rules

  pub Keeps-stop_remains : (running : Bool) → Keeps P (stop_remains host paths service running)
  unfolding stop_remains
  Keeps-stop_remains false = search keeps_rules
  Keeps-stop_remains true = search service_rules

  -- With the upsert of the service's row.
  module _
      (upsert : (st : Stamp) (s : ServiceUpsert) (db : Db)
        → s.service_name ≡ service
        → P db
        → P (Services.upsert_service st s db)) where
    Keeps-upsert_service :
        (s : ServiceUpsert)
        → s.service_name ≡ service
        → Keeps P (exec host (λ st. Services.upsert_service st s))
    Keeps-upsert_service s e = Keeps-exec host _ (λ st db. upsert st s db e)

    Keeps-apply_snapshot :
        (snapshot dir : String) (r : ServiceRecord) (manifest_raw : String) (m : ServiceManifest)
        (volumes : List String)
        → Keeps P (apply_snapshot host paths service snapshot dir r manifest_raw m volumes)
    unfolding apply_snapshot
    Keeps-apply_snapshot snapshot dir r manifest_raw m volumes =
        search (service_rules, Keeps-upsert_service) depth 10

    Keeps-restore_service_record :
        (r : ServiceRecord) (running : Bool)
        → Keeps P (restore_service_record host paths service r running)
    unfolding restore_service_record
    Keeps-restore_service_record r running = search (service_rules, Keeps-upsert_service)

    Keeps-recover :
        (r : ServiceRecord) (volumes : List String) (backup : RollbackBackup)
        → Keeps P (recover host paths service r volumes backup)
    unfolding recover
    Keeps-recover r volumes backup =
        search (service_rules, Keeps-restore_service_record, Keeps-restart_recovered)

    Keeps-finish_rollback :
        (snapshot : String) (r : ServiceRecord) (volumes : List String) (backup : RollbackBackup)
        (outcome : Result AppError (Unit {0}))
        → Keeps P (finish_rollback host paths service snapshot r volumes backup outcome)
    unfolding finish_rollback
    Keeps-finish_rollback snapshot r volumes backup (ok u) = search call_rules
    Keeps-finish_rollback snapshot r volumes backup (err e) =
        search (service_rules, Keeps-stop_remains, Keeps-recover) depth 12

    Keeps-rollback_loaded :
        (snapshot dir : String) (r : ServiceRecord) (manifest_raw : String) (m : ServiceManifest)
        → Keeps P (rollback_loaded host paths service snapshot dir r manifest_raw m)
    unfolding rollback_loaded
    Keeps-rollback_loaded snapshot dir r manifest_raw m =
        search
          (
            call_rules, Keeps-stop_if_running, Keeps-capture_rollback_backup, Keeps-apply_snapshot,
            Keeps-finish_rollback,
          )
          depth 12

    pub Keeps-rollback_only :
        (snapshot : String) → Keeps P (rollback_only host paths service snapshot)
    unfolding rollback_only
    Keeps-rollback_only snapshot =
        search (call_rules, Keeps-check_owner, Keeps-rollback_loaded) depth 14
