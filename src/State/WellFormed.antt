-- ===== src/State/WellFormed.antt =====
-- The schema's constraints: UNIQUE columns hold no value twice, and row ids grow with insertion.
use mathlib.Core.Path.{subst}
use megaserver.Common.{ℕ, ◌+◌, String, Option, none, some, ◌≡◌, refl, arith}
use megaserver.Rows.{Table, Stamp, KeyEq, text_key, pair_key, find, insert, update, delete, upsert}
use megaserver.Rows.Unique.{
  HasUniqueKeys, update-HasUniqueKeys, delete-HasUniqueKeys, append-HasUniqueKeys,
  upsert-HasUniqueKeys, delete-HasUniqueKeys_other,
}
use megaserver.Rows.Order.{HasRowIds, insert-HasRowIds}
use megaserver.Rows.Ids.{update-HasRowIds_same, delete-HasRowIds, upsert-HasRowIds}
use megaserver.State.{Db, DeploymentRow, empty_db}
use megaserver.State.Services
use megaserver.State.Sandboxes
use megaserver.State.Resources
use megaserver.State.Projects
use megaserver.Model.{
  ServiceRecord, ProjectRecord, VolumeRecord, RouteRecord, SecretRecord, SnapshotRecord,
  SandboxRecord,
}

abbrev pub service_id : ServiceRecord → ℕ
service_id r = r.id

abbrev pub sandbox_id : SandboxRecord → ℕ
sandbox_id r = r.id

abbrev pub project_id : ProjectRecord → ℕ
project_id r = r.id

abbrev pub volume_id : VolumeRecord → ℕ
volume_id r = r.id

abbrev pub secret_id : SecretRecord → ℕ
secret_id r = r.id

abbrev pub snapshot_id : SnapshotRecord → ℕ
snapshot_id r = r.id

abbrev pub route_id : RouteRecord → ℕ
route_id r = r.id

abbrev pub deployment_id : DeploymentRow → ℕ
deployment_id r = r.id

-- A table with a UNIQUE key.
pub record IsKeyedTable {R K : Type 0} ⦃e : KeyEq K⦄ (key : R → K) (id : R → ℕ) (t : Table R)
    : Type 0 where
  pub unique : HasUniqueKeys key t.rows
  pub ids : HasRowIds id t

pub record IsWellFormed (db : Db) : Type 0 where
  pub services : IsKeyedTable Services.service_key service_id db.services
  pub deployments : HasRowIds deployment_id db.deployments
  pub projects : IsKeyedTable Projects.project_key project_id db.projects
  pub deployment_releases : HasRowIds Projects.release_id db.deployment_releases
  pub routes : HasRowIds route_id db.routes
  pub volumes : IsKeyedTable Resources.volume_key volume_id db.volumes
  pub secrets : IsKeyedTable Resources.secret_key secret_id db.secrets
  pub snapshots : IsKeyedTable Resources.snapshot_key snapshot_id db.snapshots
  pub events : HasRowIds Resources.event_id db.events
  pub sandboxes : IsKeyedTable Services.sandbox_key sandbox_id db.sandboxes

-- One statement that writes, or all of `delete_service`.
pub data Write : Db → Db → Type 0 where
  insert_deployment :
      (st : Stamp) (s m p : String) (db : Db) → Write db (Services.insert_deployment st s m p db)
  upsert_service :
      (st : Stamp) (s : Services.ServiceUpsert) (db : Db)
      → Write db (Services.upsert_service st s db)
  update_service_status :
      (st : Stamp) (s t : String) (pid : Option ℕ) (db : Db)
      → Write db (Services.update_service_status st s t pid db)
  delete_service : (s : String) (db : Db) → Write db (Services.delete_service s db)
  delete_sandbox : (s : String) (db : Db) → Write db (Services.delete_sandbox s db)
  delete_deployments : (s : String) (db : Db) → Write db (Services.delete_deployments s db)
  delete_routes : (s : String) (db : Db) → Write db (Services.delete_routes s db)
  delete_secrets : (s : String) (db : Db) → Write db (Services.delete_secrets s db)
  delete_service_row : (s : String) (db : Db) → Write db (Services.delete_service_row s db)
  put_route :
      (st : Stamp) (s d : String) (port : Option ℕ) (db : Db)
      → Write db (Services.put_route st s d port db)
  upsert_sandbox :
      (st : Stamp) (s : Sandboxes.SandboxUpsert) (db : Db)
      → Write db (Sandboxes.upsert_sandbox st s db)
  upsert_volume :
      (st : Stamp) (s : Option String) (n h : String) (db : Db)
      → Write db (Resources.upsert_volume st s n h db)
  set_secret : (st : Stamp) (s k v : String) (db : Db) → Write db (Resources.set_secret st s k v db)
  insert_snapshot :
      (st : Stamp) (s n p : String) (db out : Db)
      → Resources.insert_snapshot st s n p db ≡ some out
      → Write db out
  emit_event :
      (st : Stamp) (s : Option String) (k d : String) (db : Db)
      → Write db (Resources.emit_event st s k d db)
  upsert_project :
      (st : Stamp) (p : Projects.ProjectUpsert) (db : Db)
      → Write db (Projects.upsert_project st p db)
  insert_deployment_release :
      (st : Stamp) (r : Projects.ReleaseInsert) (db : Db)
      → Write db (Projects.insert_deployment_release st r db)

pub data Writes (db : Db) : Db → Type 0 where
  done : Writes db db
  next : {mid out : Db} → Writes db mid → Write mid out → Writes db out

module _ {R K : Type 0} ⦃e : KeyEq K⦄ (key : R → K) (id : R → ℕ) where
  IsKeyedTable-upsert :
      (st : Stamp) (k : K) (mk : ℕ → R) (f : R → R) (t : Table R)
      → ((r : R) → key (f r) ≡ key r)
      → ((n : ℕ) → key (mk n) ≡ k)
      → ((r : R) → id (f r) ≡ id r)
      → ((n : ℕ) → id (mk n) ≡ n)
      → IsKeyedTable key id t
      → IsKeyedTable key id (upsert key st k mk f t)
  IsKeyedTable-upsert st k mk f t keeps made same_id new_id h = record {
    unique = upsert-HasUniqueKeys key st k mk f t keeps made h.unique;
    ids = upsert-HasRowIds key id st k mk f t same_id new_id h.ids;
  }

  IsKeyedTable-delete :
      (k : K) (t : Table R)
      → IsKeyedTable key id t
      → IsKeyedTable key id (record { rows = delete key k t.rows; seq = t.seq })
  IsKeyedTable-delete k t h = record {
    unique = delete-HasUniqueKeys key k t.rows h.unique;
    ids = delete-HasRowIds key id k t h.ids;
  }

  IsKeyedTable-update :
      (k : K) (f : R → R) (t : Table R)
      → ((r : R) → key (f r) ≡ key r)
      → ((r : R) → id (f r) ≡ id r)
      → IsKeyedTable key id t
      → IsKeyedTable key id (record { rows = update key k f t.rows; seq = t.seq })
  IsKeyedTable-update k f t keeps same_id h = record {
    unique = update-HasUniqueKeys key k f keeps t.rows h.unique;
    ids = update-HasRowIds_same key id k f t same_id h.ids;
  }

-- Rows deleted by another column than the UNIQUE key.
module _ {R K L : Type 0} ⦃e : KeyEq K⦄ ⦃d : KeyEq L⦄ (key : R → K) (other : R → L)
    (id : R → ℕ) where
  IsKeyedTable-delete_other :
      (k : L) (t : Table R)
      → IsKeyedTable key id t
      → IsKeyedTable key id (record { rows = delete ⦃e = d⦄ other k t.rows; seq = t.seq })
  IsKeyedTable-delete_other k t h = record {
    unique = delete-HasUniqueKeys_other key other k t.rows h.unique;
    ids = delete-HasRowIds ⦃e = d⦄ other id k t h.ids;
  }

insert_snapshot-eq-some :
    (st : Stamp) (s n p : String) (db out : Db)
    → Resources.insert_snapshot st s n p db ≡ some out
    → (find Resources.snapshot_key n db.snapshots.rows ≡ none)
      × (record db { snapshots = insert (Resources.new_snapshot st s n p) db.snapshots } ≡ out)
unfolding Resources.insert_snapshot
insert_snapshot-eq-some st s n p db out e = ground arith

insert_snapshot-IsWellFormed :
    (st : Stamp) (s n p : String) (db out : Db)
    → Resources.insert_snapshot st s n p db ≡ some out
    → IsWellFormed db
    → IsWellFormed out
insert_snapshot-IsWellFormed st s n p db out e h =
    let (fresh, same) = insert_snapshot-eq-some st s n p db out e in
    let mk = Resources.new_snapshot st s n p in
    let kept : IsKeyedTable Resources.snapshot_key snapshot_id (insert mk db.snapshots) = record {
      unique =
          append-HasUniqueKeys Resources.snapshot_key db.snapshots.rows (mk (db.snapshots.seq + 1))
            h.snapshots.unique fresh;
      ids = insert-HasRowIds snapshot_id mk db.snapshots (λ k. refl) h.snapshots.ids;
    } in
    subst IsWellFormed same (assumption kept)

IsWellFormed-Write : {db out : Db} → Write db out → IsWellFormed db → IsWellFormed out
unfolding Services.insert_deployment Services.upsert_service Services.update_service_status
    Services.delete_service Services.delete_sandbox Services.put_route Sandboxes.upsert_sandbox
    Resources.upsert_volume Resources.set_secret Resources.emit_event Projects.upsert_project
    Projects.insert_deployment_release
IsWellFormed-Write (insert_deployment st s m p db) h = assumption (
    insert-HasRowIds deployment_id (Services.new_deployment st s m p) db.deployments (λ n. refl)
      h.deployments)
IsWellFormed-Write (upsert_service st s db) h = assumption (
    IsKeyedTable-upsert Services.service_key service_id st s.service_name
      (Services.new_service st s) (Services.updated_service st s) db.services (λ r. refl)
      (λ n. refl) (λ r. refl) (λ n. refl) h.services)
IsWellFormed-Write (update_service_status st s t pid db) h = assumption (
    IsKeyedTable-update Services.service_key service_id s (Services.with_status st t pid)
      db.services (λ r. refl) (λ r. refl) h.services)
IsWellFormed-Write (delete_service s db) h = assumption (
  IsKeyedTable-delete Services.service_key service_id s db.services h.services,
  IsKeyedTable-delete Services.sandbox_key sandbox_id s db.sandboxes h.sandboxes,
  IsKeyedTable-delete_other Resources.secret_key Services.secret_service secret_id s db.secrets
      h.secrets,
  delete-HasRowIds Services.deployment_service deployment_id s db.deployments h.deployments,
  delete-HasRowIds Services.route_service route_id s db.routes h.routes,
)
IsWellFormed-Write (delete_sandbox s db) h =
    assumption (IsKeyedTable-delete Services.sandbox_key sandbox_id s db.sandboxes h.sandboxes)
IsWellFormed-Write (delete_deployments s db) h =
    assumption
      (delete-HasRowIds Services.deployment_service deployment_id s db.deployments h.deployments)
IsWellFormed-Write (delete_routes s db) h =
    assumption (delete-HasRowIds Services.route_service route_id s db.routes h.routes)
IsWellFormed-Write (delete_secrets s db) h = assumption (
    IsKeyedTable-delete_other Resources.secret_key Services.secret_service secret_id s db.secrets
      h.secrets)
IsWellFormed-Write (delete_service_row s db) h =
    assumption (IsKeyedTable-delete Services.service_key service_id s db.services h.services)
IsWellFormed-Write (put_route st s d port db) h =
    assumption
      (insert-HasRowIds route_id (Services.new_route st s d port) db.routes (λ n. refl) h.routes)
IsWellFormed-Write (upsert_sandbox st s db) h = assumption (
    IsKeyedTable-upsert Services.sandbox_key sandbox_id st s.service_name
      (Sandboxes.new_sandbox st s) (Sandboxes.updated_sandbox st s) db.sandboxes (λ r. refl)
      (λ n. refl) (λ r. refl) (λ n. refl) h.sandboxes)
IsWellFormed-Write (upsert_volume st s n p db) h = assumption (
    IsKeyedTable-upsert Resources.volume_key volume_id st n (Resources.new_volume st s n p)
      (Resources.updated_volume s p) db.volumes (λ r. refl) (λ n. refl) (λ r. refl) (λ n. refl)
      h.volumes)
IsWellFormed-Write (set_secret st s k v db) h = assumption (
    IsKeyedTable-upsert Resources.secret_key secret_id st (s, k) (Resources.new_secret st s k v)
      (Resources.updated_secret v) db.secrets (λ r. refl) (λ n. refl) (λ r. refl) (λ n. refl)
      h.secrets)
IsWellFormed-Write (insert_snapshot st s n p db out e) h =
    insert_snapshot-IsWellFormed st s n p db out e h
IsWellFormed-Write (emit_event st s k d db) h = assumption (
    insert-HasRowIds Resources.event_id (Resources.new_event st s k d) db.events (λ n. refl)
      h.events)
IsWellFormed-Write (upsert_project st p db) h = assumption (
    IsKeyedTable-upsert Projects.project_key project_id st p.name (Projects.new_project st p)
      (Projects.updated_project st p) db.projects (λ r. refl) (λ n. refl) (λ r. refl) (λ n. refl)
      h.projects)
IsWellFormed-Write (insert_deployment_release st r db) h = assumption (
    insert-HasRowIds Projects.release_id (Projects.new_release st r) db.deployment_releases
      (λ n. refl) h.deployment_releases)

pub IsWellFormed-empty_db : IsWellFormed empty_db
IsWellFormed-empty_db = assumption tt

-- Whatever statements run after one another, from a well-formed database the schema's constraints hold: no UNIQUE
-- column or pair of columns has a value twice, and row ids grow in every table.
pub Writes-IsWellFormed : {db out : Db} → Writes db out → IsWellFormed db → IsWellFormed out
Writes-IsWellFormed done h = h
Writes-IsWellFormed (next ws w) h = IsWellFormed-Write w (Writes-IsWellFormed ws h)
