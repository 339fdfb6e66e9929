-- ===== src/App/Constraints/OfService.antt =====
-- The operations of rust/src/app.rs on one service keep whatever the statements about that service keep, whether
-- they return or fail halfway.
use megaserver.Common.{
  ◌≡◌, refl, ℕ, String, Bool, true, false, Option, none, some, List, [], ◌∷◌, All,
}
use megaserver.Result.{Result, ok, err}
use megaserver.Rows.{Stamp}
use megaserver.Paths.{StatePaths}
use megaserver.Json.{Json}
use megaserver.Model.{ServiceRecord, SandboxRecord}
use megaserver.Manifest.{ServiceManifest}
use megaserver.State.{Db}
use megaserver.State.Services
use megaserver.State.Services.{ServiceUpsert}
use megaserver.State.Sandboxes
use megaserver.State.Sandboxes.{SandboxUpsert}
use megaserver.State.Resources
use megaserver.Exec.{AppError}
use megaserver.Exec.Rules.{Keeps, Keeps-bind, keeps_rules}
use megaserver.Host.{Host, SpawnedService}
use megaserver.Host.Database.{exec, emit}
use megaserver.App.Support.{
  ensure_volume, volume_env_from, service_volume_env, volume_mounts_from, service_volume_mounts,
}
use megaserver.App.Stop.{stop_sandbox, stop_only, destroy_only, run_deletes}
use megaserver.App.Start.{
  refuse_alive, refuse_running, abandon, or_abandon_dns, or_abandon_policies, record_status,
  record_health, launch, prepare, start_only,
}
use megaserver.App.Constraints.{Keeps-exec, Keeps-process_alive}
use megaserver.App.Constraints.Reads.{
  call_rules, Keeps-emit_event, Keeps-stop_process, Keeps-settle, Keeps-kill_process,
  Keeps-cleanup_existing,
}

-- A property that no statement about one service breaks, nor an event.
pub record IsStableFor (service : String) (P : Db → Type 0) : Type 0 where
  pub event :
      (st : Stamp) (owner : Option String) (kind details : String) (db : Db)
      → P db
      → P (Resources.emit_event st owner kind details db)
  pub status :
      (st : Stamp) (status : String) (pid : Option ℕ) (db : Db)
      → P db
      → P (Services.update_service_status st service status pid db)
  pub sandbox :
      (st : Stamp) (s : SandboxUpsert) (db : Db)
      → s.service_name ≡ service
      → P db
      → P (Sandboxes.upsert_sandbox st s db)
  pub volume :
      (st : Stamp) (name path : String) (db : Db)
      → P db
      → P (Resources.upsert_volume st (some service) name path db)

module _ (host : Host) {P : Db → Type 0} (service : String) (paths : StatePaths) where
  pub Keeps-refuse_running : (pid : Option ℕ) → Keeps P (refuse_running host paths service pid)
  unfolding refuse_running
  Keeps-refuse_running none = search keeps_rules
  Keeps-refuse_running (some pid) = Keeps-bind _ _ (Keeps-process_alive host pid) refuse
    where
      refuse : (here : Bool) → Keeps P (refuse_alive host paths service pid here)
      refuse true = search keeps_rules
      refuse false = search keeps_rules

-- The volumes of a service, where its volume statements keep the property.
module _ (host : Host) {P : Db → Type 0} (service : String)
    (kept : (st : Stamp) (name path : String) (db : Db)
      → P db
      → P (Resources.upsert_volume st (some service) name path db)) where
  Keeps-upsert_volume :
      (name path : String)
      → Keeps P (exec host (λ st. Resources.upsert_volume st (some service) name path))
  Keeps-upsert_volume name path = Keeps-exec host _ (λ st db. kept st name path db)

  module _ (paths : StatePaths) where
    pub Keeps-ensure_volume :
        (volume : String) → Keeps P (ensure_volume host paths (some service) volume)
    unfolding ensure_volume
    Keeps-ensure_volume volume = search (call_rules, Keeps-upsert_volume)

    Keeps-volume_env_from :
        (volumes : List String) (vars : List (String × String))
        → Keeps P (volume_env_from host paths service vars volumes)
    unfolding volume_env_from
    Keeps-volume_env_from [] vars = search keeps_rules
    Keeps-volume_env_from (volume ∷ volumes) vars =
        Keeps-bind _ _ (Keeps-ensure_volume volume)
          λ row. Keeps-bind _ _ (search keeps_rules) λ isolated. Keeps-volume_env_from volumes _

    pub Keeps-service_volume_env :
        (m : ServiceManifest) → Keeps P (service_volume_env host paths service m)
    unfolding service_volume_env
    Keeps-service_volume_env m = search (call_rules, Keeps-volume_env_from)

    Keeps-volume_mounts_from :
        (volumes : List String) (mounts : List (String × String))
        → Keeps P (volume_mounts_from host paths service mounts volumes)
    unfolding volume_mounts_from
    Keeps-volume_mounts_from [] mounts = search keeps_rules
    Keeps-volume_mounts_from (volume ∷ volumes) mounts =
        Keeps-bind _ _ (Keeps-ensure_volume volume) λ row. Keeps-volume_mounts_from volumes _

    pub Keeps-service_volume_mounts :
        (m : ServiceManifest) → Keeps P (service_volume_mounts host paths service m)
    unfolding service_volume_mounts
    Keeps-service_volume_mounts m = search (call_rules, Keeps-volume_mounts_from)

module _ (host : Host) {P : Db → Type 0} (service : String) (stable : IsStableFor service P) where
  pub Keeps-emit :
      (owner : Option String) (kind : String) (details : Json)
      → Keeps P (emit host owner kind details)
  Keeps-emit owner kind details =
      Keeps-emit_event host owner kind details (λ st text db. stable.event st owner kind text db)

  pub Keeps-update_service_status :
      (status : String) (pid : Option ℕ)
      → Keeps P (exec host (λ st. Services.update_service_status st service status pid))
  Keeps-update_service_status status pid =
      Keeps-exec host _ (λ st db. stable.status st status pid db)

  pub Keeps-upsert_sandbox :
      (s : SandboxUpsert)
      → s.service_name ≡ service
      → Keeps P (exec host (λ st. Sandboxes.upsert_sandbox st s))
  Keeps-upsert_sandbox s e = Keeps-exec host _ (λ st db. stable.sandbox st s db e)

  ruleset statement_rules =
      (refl, call_rules, Keeps-emit, Keeps-update_service_status, Keeps-upsert_sandbox)

  pub Keeps-stop_sandbox : (r : Option SandboxRecord) → Keeps P (stop_sandbox host service r)
  unfolding stop_sandbox
  Keeps-stop_sandbox none = search keeps_rules
  Keeps-stop_sandbox (some r) = search statement_rules

  pub Keeps-stop_only : (paths : StatePaths) → Keeps P (stop_only host paths service)
  unfolding stop_only
  Keeps-stop_only paths =
      search (statement_rules, Keeps-stop_process, Keeps-stop_sandbox, Keeps-settle) depth 12

  module _ (paths : StatePaths) where
    Keeps-abandon : (spawned : SpawnedService) → Keeps P (abandon host paths service spawned)
    unfolding abandon
    Keeps-abandon spawned = search call_rules

    pub Keeps-or_abandon_dns :
        (spawned : SpawnedService) (r : Result AppError (Unit {0}))
        → Keeps P (or_abandon_dns host paths service spawned r)
    unfolding or_abandon_dns
    Keeps-or_abandon_dns spawned (ok u) = search keeps_rules
    Keeps-or_abandon_dns spawned (err e) = search (keeps_rules, Keeps-abandon)

    pub Keeps-or_abandon_policies :
        (ip : String) (spawned : SpawnedService) (r : Result AppError (Unit {0}))
        → Keeps P (or_abandon_policies host paths service ip spawned r)
    unfolding or_abandon_policies
    Keeps-or_abandon_policies ip spawned (ok u) = search keeps_rules
    Keeps-or_abandon_policies ip spawned (err e) = search (statement_rules, Keeps-abandon) depth 9

    pub Keeps-record_status :
        (ip : String) (spawned : SpawnedService) (status sandbox_status : String)
        → Keeps P (record_status host paths service ip spawned status sandbox_status)
    unfolding record_status
    Keeps-record_status ip spawned status sandbox_status = search statement_rules

    Keeps-record_health :
        (ip : String) (spawned : SpawnedService) (r : Result AppError String)
        → Keeps P (record_health host paths service ip spawned r)
    unfolding record_health
    Keeps-record_health ip spawned (ok text) = search statement_rules depth 9
    Keeps-record_health ip spawned (err e) = search statement_rules depth 9

    Keeps-launch :
        (ip : String) (m : ServiceManifest) (spawned : SpawnedService)
        → Keeps P (launch host paths service ip m spawned)
    unfolding launch
    Keeps-launch ip m spawned =
        search
          (
            statement_rules, Keeps-or_abandon_dns, Keeps-or_abandon_policies, Keeps-record_status,
            Keeps-record_health,
          )
          depth 14

    volume_env_here : (m : ServiceManifest) → Keeps P (service_volume_env host paths service m)
    volume_env_here = Keeps-service_volume_env host service stable.volume paths

    volume_mounts_here :
        (m : ServiceManifest) → Keeps P (service_volume_mounts host paths service m)
    volume_mounts_here = Keeps-service_volume_mounts host service stable.volume paths

    Keeps-prepare :
        (r : ServiceRecord) (m : ServiceManifest) → Keeps P (prepare host paths service r m)
    unfolding prepare
    Keeps-prepare r m =
        search
          (call_rules, volume_env_here, volume_mounts_here, Keeps-cleanup_existing, Keeps-launch)
          depth 20

    pub Keeps-start_only : Keeps P (start_only host paths service)
    unfolding start_only
    Keeps-start_only = search (call_rules, Keeps-refuse_running, Keeps-prepare)

-- For `destroy_only`, the deletions as well.
module _ (host : Host) {P : Db → Type 0} (service : String) (stable : IsStableFor service P)
    (gone_sandbox : (db : Db) → P db → P (Services.delete_sandbox service db))
    (gone : All
      (λ sql. (db : Db) → P db → P (sql service db))
      Services.delete_service_statements) where
  Keeps-delete_sandbox : Keeps P (exec host (λ st. Services.delete_sandbox service))
  Keeps-delete_sandbox = Keeps-exec host _ (λ st db. gone_sandbox db)

  Keeps-run_deletes :
      (statements : List (String → Db → Db))
      → All (λ sql. (db : Db) → P db → P (sql service db)) statements
      → Keeps P (run_deletes host statements service)
  unfolding run_deletes
  Keeps-run_deletes [] kept = search keeps_rules
  Keeps-run_deletes (sql ∷ rest) kept =
      Keeps-bind _ _ (Keeps-exec host _ (λ st db. kept.0 db)) (λ u. Keeps-run_deletes rest kept.1)

  Keeps-delete_service : Keeps P (run_deletes host Services.delete_service_statements service)
  Keeps-delete_service = Keeps-run_deletes Services.delete_service_statements gone

  destroyed_event :
      (owner : Option String) (kind : String) (details : Json)
      → Keeps P (emit host owner kind details)
  destroyed_event = Keeps-emit host service stable

  pub Keeps-destroy_only : (paths : StatePaths) → Keeps P (destroy_only host paths service)
  unfolding destroy_only
  Keeps-destroy_only paths =
      search
        (
          call_rules, destroyed_event, Keeps-kill_process, Keeps-cleanup_existing,
          Keeps-delete_sandbox, Keeps-delete_service, Keeps-settle,
        )
        depth 14
