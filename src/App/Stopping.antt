-- ===== src/App/Stopping.antt =====
-- What `stop_only` and `destroy_only` of rust/src/app.rs leave behind when they return.
use megaserver.Common.{String, ◌≡◌, ◌∙◌, refl, Option, none, some, arith, eq_refl}
use megaserver.Result.{ok, or_error}
use megaserver.Rows.{Stamp}
use megaserver.Paths.{StatePaths}
use megaserver.Json.{Json}
use megaserver.Model.{ServiceRecord, SandboxRecord}
use megaserver.State.{Db}
use megaserver.State.Services.{service_by_name, update_service_status}
use megaserver.State.Sandboxes.{sandbox_by_service, upsert_sandbox}
use megaserver.State.Resources.{emit_event}
use megaserver.State.Lookups.{
  service_by_name-update_service_status, sandbox_by_service-upsert_sandbox,
}
use megaserver.Exec.{unknown_service}
use megaserver.Exec.Rules.{Keeps}
use megaserver.Exec.Outcomes.{
  Gives, Gives-bind, Gives-pure, Gives-Keeps, Gives-read, Gives-lift, Gives-weaken, Gives-write,
}
use megaserver.Host.{Host}
use megaserver.Host.Database.{open_db, query, exec, emit}
use megaserver.App.Support.{load_service}
use megaserver.App.Stop.{stop_sandbox, stopped_sandbox, stop_only}
use megaserver.App.Constraints.{Keeps-open_db}
use megaserver.App.Constraints.Reads.{
  call_rules, Keeps-stop_process, Keeps-settle, Keeps-emit_event,
}

abbrev pub IsStoppedService : Option ServiceRecord → Type 0
IsStoppedService none = ⊥
IsStoppedService (some r) = (r.status ≡ "stopped") × (r.pid ≡ none)

abbrev pub IsStoppedSandbox : Option SandboxRecord → Type 0
IsStoppedSandbox none = Unit
IsStoppedSandbox (some r) = (r.status ≡ "stopped") × (r.pid ≡ none) × (r.cgroup_path ≡ none)

-- The service is stopped with no process, and so is its sandbox row, if it has one.
abbrev pub IsStopped : String → Db → Type 0
IsStopped service db =
    IsStoppedService (service_by_name db service) × IsStoppedSandbox (sandbox_by_service db service)

module _ (host : Host) where
  open host use {World}

  -- A query keeps the precondition and gives the value of the database.
  pub Gives-query :
      {A : Type 0} {P : Db → Type 0} (f : Db → A)
      → Gives P (query host f) (λ a db. P db × (f db ≡ a))
  unfolding query
  Gives-query {P = P} f =
      Gives-bind (open_db host) _ (Gives-Keeps (open_db host) (Keeps-open_db host {P = P}))
        (λ u. Gives-read f)

  pub Gives-exec :
      {P : Db → Type 0} {Q : Unit {0} → Db → Type 0} (f : Stamp → Db → Db)
      → ((st : Stamp) (db : Db) → P db → Q tt (f st db))
      → Gives P (exec host f) Q
  unfolding exec
  Gives-exec {P = P} f k =
      Gives-bind (open_db host) _ (Gives-Keeps (open_db host) (Keeps-open_db host {P = P})) λ u.
        Gives-bind _ _ (Gives-Keeps {P = P} _ (search call_rules)) λ st. Gives-write (f st) (k st)

  pub found_service :
      (o : Option ServiceRecord) (service : String) (r : ServiceRecord)
      → or_error o (unknown_service service) ≡ ok r
      → o ≡ some r
  found_service o service r e = ground arith

  -- Loading returns the row of that name.
  pub Gives-load_service :
      {P : Db → Type 0} (service : String)
      → Gives P (load_service host service) (λ r db. P db × (service_by_name db service ≡ some r))
  unfolding load_service
  Gives-load_service {P = P} service =
      Gives-bind (open_db host) _ (Gives-Keeps (open_db host) (Keeps-open_db host {P = P})) λ u.
        Gives-bind _ _ (Gives-query (λ db. service_by_name db service)) λ found.
          Gives-weaken _ (λ r db h. (h.0.0, h.0.1 ∙ found_service found service r h.1))
            (Gives-lift (or_error found (unknown_service service)))

stopped_status :
    (service : String) (r : ServiceRecord) (st : Stamp) (db : Db)
    → service_by_name db service ≡ some r
    → IsStoppedService
        (service_by_name (update_service_status st service "stopped" none db) service)
stopped_status service r st db e =
    rw (service_by_name-update_service_status, eq_refl, e) (refl, refl)

services_of_sandbox :
    (st : Stamp) (service : String) (r : SandboxRecord) (db : Db)
    → service_by_name (upsert_sandbox st (stopped_sandbox service r) db) service
      ≡ service_by_name db service
unfolding upsert_sandbox service_by_name
services_of_sandbox st service r db = refl

IsStopped-row :
    (service : String) (r : SandboxRecord) (st : Stamp) (db : Db)
    → IsStoppedService (service_by_name db service)
    → sandbox_by_service db service ≡ some r
    → IsStopped service (upsert_sandbox st (stopped_sandbox service r) db)
IsStopped-row service r st db h e = (
  rw services_of_sandbox h,
  rw (sandbox_by_service-upsert_sandbox, eq_refl, e) (refl, refl, refl),
)

module _ (host : Host) where
  Gives-stop_sandbox :
      (service : String) (o : Option SandboxRecord)
      → Gives
          (λ db.
            IsStoppedService (service_by_name db service) × (sandbox_by_service db service ≡ o))
          (stop_sandbox host service o)
          (λ u db. IsStopped service db)
  unfolding stop_sandbox
  Gives-stop_sandbox service none = Gives-pure tt (λ db h. (h.0, rw h.1 tt))
  Gives-stop_sandbox service (some r) =
      Gives-bind _ _ (Gives-Keeps _ (search call_rules))
        λ u. Gives-exec host _ (λ st db h. IsStopped-row service r st db h.0 h.1)

  -- The events and the refreshing after it do not touch the two tables.
  Keeps-emit-IsStopped :
      (service kind : String) (details : Json)
      → Keeps (IsStopped service) (emit host (some service) kind details)
  unfolding emit_event service_by_name sandbox_by_service
  Keeps-emit-IsStopped service kind details =
      Keeps-emit_event host (some service) kind details (λ st text db h. h)

  -- When `stop_only` returns, the service's row says "stopped" and has no process, and its sandbox row, if there is
  -- one, says "stopped" and has neither a process nor a cgroup.
  pub stop_only-IsStopped :
      (paths : StatePaths) (service : String)
      → Gives (λ db. Unit {0}) (stop_only host paths service) (λ u db. IsStopped service db)
  unfolding stop_only
  stop_only-IsStopped paths service = Gives-bind _ _ (Gives-load_service host service) λ r.
      Gives-bind _ _ (Gives-Keeps _ (Keeps-stop_process host r.pid)) λ u.
        Gives-bind _ _ (Gives-Keeps _ (Keeps-open_db host)) λ v.
          Gives-bind _ _ (Gives-exec host _ (λ st db h. stopped_status service r st db h.1)) λ w.
            Gives-bind _ _ (Gives-query host (λ db. sandbox_by_service db service)) λ o.
              Gives-bind _ _ (Gives-stop_sandbox service o)
                λ x. Gives-Keeps _ (search (call_rules, Keeps-settle, Keeps-emit-IsStopped))
