-- ===== src/State/Lookups.antt =====
-- What the row queries of rust/src/state.rs return after a statement that writes.
use mathlib.Core.Option
use megaserver.Common.{
  ℕ, ◌+◌, String, ◌≡◌, refl, Option, none, some, ◌==◌, ◌&&◌, if◌then◌else◌, arith,
}
use megaserver.Rows.{Stamp, text_key, pair_key, upserted}
use megaserver.Rows.Keyed.{find-update, find-delete, find-upsert}
use megaserver.State.{Db}
use megaserver.State.Services.{
  ServiceUpsert, service_by_name, upsert_service, update_service_status, delete_service,
  delete_sandbox, new_service, updated_service, with_status, service_key, sandbox_key,
}
use megaserver.State.Sandboxes.{
  SandboxUpsert, sandbox_by_service, upsert_sandbox, new_sandbox, updated_sandbox,
}
use megaserver.State.Resources.{
  secret_value, set_secret, secret_key, new_secret, updated_secret, volume_by_name, upsert_volume,
  new_volume, updated_volume, volume_key,
}
use megaserver.State.Projects.{
  ProjectUpsert, project_by_name, upsert_project, project_key, new_project, updated_project,
}

-- After the upsert, the service of that name is the updated row if there was one and else the new row, with the next
-- row id; a service of another name is found as before.
pub service_by_name-upsert_service :
    (st : Stamp) (s : ServiceUpsert) (db : Db) (j : String)
    → service_by_name (upsert_service st s db) j ≡ (
        if s.service_name == j
        then some (
            upserted
              (service_by_name db s.service_name)
              (new_service st s (db.services.seq + 1))
              (updated_service st s))
        else service_by_name db j)
unfolding service_by_name upsert_service
service_by_name-upsert_service st s db j =
    find-upsert service_key st s.service_name j (new_service st s) (updated_service st s)
      db.services (λ r. refl) (λ n. refl)

pub service_by_name-update_service_status :
    (st : Stamp) (name status : String) (pid : Option ℕ) (db : Db) (j : String)
    → service_by_name (update_service_status st name status pid db) j ≡ (
        if name == j
        then Option.map (with_status st status pid) (service_by_name db j)
        else service_by_name db j)
unfolding service_by_name update_service_status
service_by_name-update_service_status st name status pid db j =
    find-update service_key name j (with_status st status pid) (λ r. refl) db.services.rows

-- After the upsert, the sandbox of that service is the updated row if there was one and else the new row, with the
-- next row id; the sandbox of another service is found as before.
pub sandbox_by_service-upsert_sandbox :
    (st : Stamp) (s : SandboxUpsert) (db : Db) (j : String)
    → sandbox_by_service (upsert_sandbox st s db) j ≡ (
        if s.service_name == j
        then some (
            upserted
              (sandbox_by_service db s.service_name)
              (new_sandbox st s (db.sandboxes.seq + 1))
              (updated_sandbox st s))
        else sandbox_by_service db j)
unfolding sandbox_by_service upsert_sandbox
sandbox_by_service-upsert_sandbox st s db j =
    find-upsert sandbox_key st s.service_name j (new_sandbox st s) (updated_sandbox st s)
      db.sandboxes (λ r. refl) (λ n. refl)

pub service_by_name-delete_service :
    (name : String) (db : Db) (j : String)
    → service_by_name (delete_service name db) j
      ≡ (if name == j then none else service_by_name db j)
unfolding service_by_name delete_service
service_by_name-delete_service name db j = find-delete service_key name j db.services.rows

pub sandbox_by_service-delete_service :
    (name : String) (db : Db) (j : String)
    → sandbox_by_service (delete_service name db) j
      ≡ (if name == j then none else sandbox_by_service db j)
unfolding sandbox_by_service delete_service
sandbox_by_service-delete_service name db j = find-delete sandbox_key name j db.sandboxes.rows

pub sandbox_by_service-delete_sandbox :
    (name : String) (db : Db) (j : String)
    → sandbox_by_service (delete_sandbox name db) j
      ≡ (if name == j then none else sandbox_by_service db j)
unfolding sandbox_by_service delete_sandbox
sandbox_by_service-delete_sandbox name db j = find-delete sandbox_key name j db.sandboxes.rows

-- The value read for a service and key is the one last set for that very pair; every other pair keeps its value.
pub secret_value-set_secret :
    (st : Stamp) (service key value : String) (db : Db) (service' key' : String)
    → secret_value (set_secret st service key value db) service' key'
      ≡ (if service == service' && key == key' then some value else secret_value db service' key')
unfolding secret_value set_secret
secret_value-set_secret st service key value db service' key' = ground (
  arith,
  find-upsert secret_key st (service, key) (service', key') (new_secret st service key value)
      (updated_secret value) db.secrets (λ r. refl) (λ n. refl),
)

-- Ensuring a volume leaves a row of its name with the given path; a service that is named becomes its owner,
-- and otherwise an owner that it had stays. Other volumes are untouched.
pub volume_by_name-upsert_volume :
    (st : Stamp) (service : Option String) (name path : String) (db : Db) (j : String)
    → volume_by_name (upsert_volume st service name path db) j ≡ (
        if name == j
        then some (
            upserted
              (volume_by_name db name)
              (new_volume st service name path (db.volumes.seq + 1))
              (updated_volume service path))
        else volume_by_name db j)
unfolding volume_by_name upsert_volume
volume_by_name-upsert_volume st service name path db j =
    find-upsert volume_key st name j (new_volume st service name path) (updated_volume service path)
      db.volumes (λ r. refl) (λ n. refl)

-- After the upsert, the project of that name is the updated row if there was one and else the new row, with the next
-- row id; a project of another name is found as before.
pub project_by_name-upsert_project :
    (st : Stamp) (p : ProjectUpsert) (db : Db) (j : String)
    → project_by_name (upsert_project st p db) j ≡ (
        if p.name == j
        then some (
            upserted
              (project_by_name db p.name)
              (new_project st p (db.projects.seq + 1))
              (updated_project st p))
        else project_by_name db j)
unfolding project_by_name upsert_project
project_by_name-upsert_project st p db j =
    find-upsert project_key st p.name j (new_project st p) (updated_project st p) db.projects
      (λ r. refl) (λ n. refl)
