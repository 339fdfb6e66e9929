-- ===== src/App/Bystanders.antt =====
-- Requests of rust/src/host_abi.rs about one service leave the rows of every other service alone.
use megaserver.Common.{ℕ, All, ◌≡◌, ◌≢◌, refl, String, Option, ◌==◌, false, arith, eq_iff}
use megaserver.Paths.{StatePaths}
use megaserver.Rows.{Stamp}
use megaserver.Rows.Keyed.{find-delete}
use megaserver.Model.{ServiceRecord, SandboxRecord}
use megaserver.State.{Db}
use megaserver.State.Services.{
  ServiceUpsert, upsert_service, service_by_name, update_service_status, service_key,
  delete_service_row, delete_service_statements, delete_sandbox,
}
use megaserver.State.Sandboxes.{SandboxUpsert, sandbox_by_service, upsert_sandbox}
use megaserver.State.Resources.{emit_event, upsert_volume}
use megaserver.State.Lookups.{
  service_by_name-upsert_service, service_by_name-update_service_status,
  sandbox_by_service-upsert_sandbox, sandbox_by_service-delete_sandbox,
}
use megaserver.Exec.{Sys}
use megaserver.Exec.Rules.{Keeps, Keeps-bind, keeps_rules}
use megaserver.Host.{Host}
use megaserver.App.Constraints.OfService.{
  IsStableFor, Keeps-stop_only, Keeps-start_only, Keeps-destroy_only,
}
use megaserver.App.Constraints.Rollback.{Keeps-rollback_only}
use megaserver.App.Constraints.Inspect.{Keeps-inspect_value}
use megaserver.App.Requests
use megaserver.App.Requests.{Action, dispatch_value}

-- The requests about the process of one service.
pub data IsAbout (service : String) : Action → Type 0 where
  start : IsAbout service (Requests.start service)
  stop : IsAbout service (Requests.stop service)
  restart : IsAbout service (Requests.restart service)
  destroy : IsAbout service (Requests.destroy service)
  rollback : {snapshot : String} → IsAbout service (Requests.rollback service snapshot)

-- The service row and the sandbox row of one name are these.
abbrev pub HasRows : String → Option ServiceRecord → Option SandboxRecord → Db → Type 0
HasRows j r b db = (service_by_name db j ≡ r) × (sandbox_by_service db j ≡ b)

module _ (service j : String) (other : service ≢ j) (r : Option ServiceRecord)
    (b : Option SandboxRecord) where
  differs : (service == j) ≡ false
  differs = ground (arith, eq_iff service j)

  status_elsewhere :
      (st : Stamp) (status : String) (pid : Option ℕ) (db : Db)
      → HasRows j r b db
      → HasRows j r b (update_service_status st service status pid db)
  unfolding sandbox_by_service update_service_status
  status_elsewhere st status pid db h =
      (rw (service_by_name-update_service_status, differs) h.0, h.1)

  sandbox_elsewhere :
      (st : Stamp) (s : SandboxUpsert) (db : Db)
      → s.service_name ≡ service
      → HasRows j r b db
      → HasRows j r b (upsert_sandbox st s db)
  unfolding service_by_name upsert_sandbox
  sandbox_elsewhere st s db e h = (h.0, rw (sandbox_by_service-upsert_sandbox, e, differs) h.1)

  service_elsewhere :
      (st : Stamp) (s : ServiceUpsert) (db : Db)
      → s.service_name ≡ service
      → HasRows j r b db
      → HasRows j r b (upsert_service st s db)
  unfolding sandbox_by_service upsert_service
  service_elsewhere st s db e h = (rw (service_by_name-upsert_service, e, differs) h.0, h.1)

  HasRows-IsStableFor : IsStableFor service (HasRows j r b)
  unfolding emit_event upsert_volume service_by_name sandbox_by_service
  HasRows-IsStableFor = record {
    event = λ st owner kind details db h. h;
    status = status_elsewhere;
    sandbox = sandbox_elsewhere;
    volume = λ st name path db h. h;
  }

  deleted_sandbox_elsewhere :
      (db : Db) → HasRows j r b db → HasRows j r b (delete_sandbox service db)
  unfolding service_by_name delete_sandbox
  deleted_sandbox_elsewhere db h = (h.0, rw (sandbox_by_service-delete_sandbox, differs) h.1)

  deleted_row_elsewhere :
      (db : Db) → HasRows j r b db → HasRows j r b (delete_service_row service db)
  unfolding service_by_name sandbox_by_service
  deleted_row_elsewhere db h =
      (rw (find-delete service_key service j db.services.rows, differs) h.0, h.1)

  deleted_elsewhere :
      All
        (λ sql. (db : Db) → HasRows j r b db → HasRows j r b (sql service db))
        delete_service_statements
  unfolding service_by_name sandbox_by_service
  deleted_elsewhere = (
    (λ db h. h),
    ((λ db h. h), ((λ db h. h), (deleted_sandbox_elsewhere, (deleted_row_elsewhere, tt)))),
  )

  Keeps-about :
      (host : Host) (paths : StatePaths) (action : Action)
      → IsAbout service action
      → Keeps (HasRows j r b) (dispatch_value host paths action)
  unfolding dispatch_value
  Keeps-about host paths _ IsAbout.start =
      Keeps-bind _ _ (Keeps-start_only host service HasRows-IsStableFor paths)
        (λ u. search (keeps_rules, Keeps-inspect_value))
  Keeps-about host paths _ IsAbout.stop = Keeps-stop_only host service HasRows-IsStableFor paths
  Keeps-about host paths _ IsAbout.restart =
      Keeps-bind _ _ (Keeps-stop_only host service HasRows-IsStableFor paths) (λ u.
        Keeps-bind _ _ (Keeps-start_only host service HasRows-IsStableFor paths)
          (λ v. search (keeps_rules, Keeps-inspect_value)))
  Keeps-about host paths _ IsAbout.destroy =
      Keeps-destroy_only host service HasRows-IsStableFor deleted_sandbox_elsewhere
        deleted_elsewhere paths
  Keeps-about host paths _ (IsAbout.rollback {snapshot = name}) =
      Keeps-bind _ _
        (Keeps-rollback_only host paths service HasRows-IsStableFor service_elsewhere name)
        (λ u. search (keeps_rules, Keeps-inspect_value))

-- Starting, stopping, restarting, destroying or rolling back a service, whether it returns or fails at any point, leaves the
-- service row and the sandbox row of every other service exactly as they were.
pub dispatch_value-HasRows :
    (host : Host) (paths : StatePaths) (service j : String) (action : Action)
    (s : Sys (Host.World host))
    → service ≢ j
    → IsAbout service action
    → HasRows j
        (service_by_name s.db j)
        (sandbox_by_service s.db j)
        (dispatch_value host paths action s).1.db
dispatch_value-HasRows host paths service j action s other about =
    (Keeps-about service j other (service_by_name s.db j) (sandbox_by_service s.db j) host paths
        action about).at
      s (refl, refl)
