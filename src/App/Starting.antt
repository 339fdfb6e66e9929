-- ===== src/App/Starting.antt =====
-- What `start_only` of rust/src/app.rs leaves behind when it returns.
use mathlib.Core.Option
use megaserver.Common.{ℕ, ◌+◌, String, ◌≡◌, ◌⊎◌, inl, inr, refl, Option, none, some, arith, eq_refl}
use megaserver.Result.{Result, ok, err}
use megaserver.Rows.{Stamp, upserted}
use megaserver.Paths.{StatePaths}
use megaserver.Json.{Json}
use megaserver.Model.{ServiceRecord, SandboxRecord}
use megaserver.Manifest.{ServiceManifest}
use megaserver.State.{Db}
use megaserver.State.Services.{service_by_name, update_service_status, with_status}
use megaserver.State.Sandboxes.{
  SandboxUpsert, sandbox_by_service, upsert_sandbox, new_sandbox, updated_sandbox,
}
use megaserver.State.Resources.{emit_event, upsert_volume}
use megaserver.State.Lookups.{
  service_by_name-update_service_status, sandbox_by_service-upsert_sandbox,
}
use megaserver.Exec.{AppError}
use megaserver.Exec.Rules.{Keeps}
use megaserver.Exec.Outcomes.{Gives, Gives-bind, Gives-Keeps, Gives-weaken}
use megaserver.Host.{Host, SpawnedService}
use megaserver.Host.Database.{emit}
use megaserver.App.Start.{
  record_status, record_health, launch, prepare, start_only, spawned_sandbox,
}
use megaserver.App.Constraints.Reads.{call_rules, Keeps-emit_event, Keeps-cleanup_existing}
use megaserver.App.Constraints.OfService.{
  IsStableFor, Keeps-emit, Keeps-or_abandon_dns, Keeps-or_abandon_policies, Keeps-record_status,
  Keeps-refuse_running, Keeps-service_volume_env, Keeps-service_volume_mounts,
}
use megaserver.App.Stopping.{Gives-exec, Gives-load_service}

-- The row is there.
abbrev pub IsPresent : Option ServiceRecord → Type 0
IsPresent none = ⊥
IsPresent (some r) = Unit

-- The two rows of one process, with their statuses.
abbrev pub Agree : String → String → ℕ → Option ServiceRecord → Option SandboxRecord → Type 0
Agree status sandbox_status pid (some r) (some b) =
    (r.status ≡ status) × (r.pid ≡ some pid) × (b.status ≡ sandbox_status) × (b.pid ≡ some pid)
Agree status sandbox_status pid _ _ = ⊥

abbrev pub HasStatuses : String → String → String → ℕ → Db → Type 0
HasStatuses service status sandbox_status pid db =
    Agree status sandbox_status pid (service_by_name db service) (sandbox_by_service db service)

-- Healthy beside running, or degraded beside degraded, for one process.
abbrev pub IsStarted : String → Db → Type 0
IsStarted service db =
    (pid : ℕ) × (HasStatuses service "healthy" "running" pid db
      ⊎ HasStatuses service "degraded" "degraded" pid db)

status-IsPresent :
    (service status : String) (pid : Option ℕ) (st : Stamp) (db : Db) (j : String)
    → IsPresent (service_by_name db j)
    → IsPresent (service_by_name (update_service_status st service status pid db) j)
status-IsPresent service status pid st db j h =
    rw service_by_name-update_service_status (ground arith)

sandbox_keeps_services :
    (st : Stamp) (s : SandboxUpsert) (db : Db) (j : String)
    → service_by_name (upsert_sandbox st s db) j ≡ service_by_name db j
unfolding upsert_sandbox service_by_name
sandbox_keeps_services st s db j = refl

-- Nothing that a start runs removes a service's row.
IsPresent-IsStableFor :
    (service : String) → IsStableFor service (λ db. IsPresent (service_by_name db service))
unfolding emit_event upsert_sandbox upsert_volume service_by_name
IsPresent-IsStableFor service = record {
  event = λ st owner kind details db h. h;
  status = λ st status pid db. status-IsPresent service status pid st db service;
  sandbox = λ st s db e h. h;
  volume = λ st name path db h. h;
}

-- The row of a service that runs as this process.
abbrev RunsAs : String → ℕ → Option ServiceRecord → Type 0
RunsAs status pid none = ⊥
RunsAs status pid (some r) = (r.status ≡ status) × (r.pid ≡ some pid)

marked_runs :
    (status : String) (pid : ℕ) (st : Stamp) (o : Option ServiceRecord)
    → IsPresent o
    → RunsAs status pid (Option.map (with_status st status (some pid)) o)
marked_runs status pid st none p = absurd p
marked_runs status pid st (some r) p = (refl, refl)

status_runs :
    (service status : String) (pid : ℕ) (st : Stamp) (db : Db)
    → IsPresent (service_by_name db service)
    → RunsAs status pid
        (service_by_name (update_service_status st service status (some pid) db) service)
status_runs service status pid st db h =
    rw (service_by_name-update_service_status, eq_refl)
      (marked_runs status pid st (service_by_name db service) h)

module _ (service ip status sandbox_status : String) (spawned : SpawnedService) where
  Agree-row :
      (o : Option ServiceRecord) (old : Option SandboxRecord) (st : Stamp) (n : ℕ)
      → RunsAs status spawned.pid o
      → Agree status sandbox_status spawned.pid o (
          some (
            upserted old
              (new_sandbox st (spawned_sandbox service ip spawned sandbox_status) n)
              (updated_sandbox st (spawned_sandbox service ip spawned sandbox_status))))
  Agree-row none old st n h = absurd h
  Agree-row (some r) none st n h = (h.0, h.1, refl, refl)
  Agree-row (some r) (some b) st n h = (h.0, h.1, refl, refl)

  sandbox_agrees :
      (st : Stamp) (db : Db)
      → RunsAs status spawned.pid (service_by_name db service)
      → HasStatuses service status sandbox_status spawned.pid
          (upsert_sandbox st (spawned_sandbox service ip spawned sandbox_status) db)
  sandbox_agrees st db h =
      rw (sandbox_keeps_services, sandbox_by_service-upsert_sandbox, eq_refl)
        (Agree-row (service_by_name db service) (sandbox_by_service db service) st
          (db.sandboxes.seq + 1) h)

  Gives-record_status :
      (host : Host) (paths : StatePaths)
      → Gives
          (λ db. IsPresent (service_by_name db service))
          (record_status host paths service ip spawned status sandbox_status)
          (λ u db. HasStatuses service status sandbox_status spawned.pid db)
  unfolding record_status
  Gives-record_status host paths =
      Gives-bind _ _ (Gives-exec host _ (λ st db h. status_runs service status spawned.pid st db h))
        λ u. Gives-exec host _ (λ st db h. sandbox_agrees st db h)

  Keeps-emit_statuses :
      (host : Host) (kind : String) (details : Json)
      → Keeps
          (HasStatuses service status sandbox_status spawned.pid)
          (emit host (some service) kind details)
  unfolding emit_event service_by_name sandbox_by_service
  Keeps-emit_statuses host kind details =
      Keeps-emit_event host (some service) kind details (λ st text db h. h)

module _ (host : Host) (paths : StatePaths) (service : String) where
  Gives-record_health :
      (ip : String) (spawned : SpawnedService) (r : Result AppError String)
      → Gives
          (λ db. IsPresent (service_by_name db service))
          (record_health host paths service ip spawned r)
          (λ u db. IsStarted service db)
  unfolding record_health
  Gives-record_health ip spawned (err e) =
      Gives-bind _ _ (Gives-record_status service ip "degraded" "degraded" spawned host paths) λ u.
        Gives-weaken _ (λ v db h. (spawned.pid, inr h))
          (Gives-Keeps _ (search (call_rules, Keeps-emit_statuses)))
  Gives-record_health ip spawned (ok health) =
      Gives-bind _ _ (Gives-record_status service ip "healthy" "running" spawned host paths) λ u.
        Gives-weaken _ (λ v db h. (spawned.pid, inl h))
          (Gives-Keeps _ (search (call_rules, Keeps-emit_statuses)))

  Gives-launch :
      (ip : String) (manifest : ServiceManifest) (spawned : SpawnedService)
      → Gives
          (λ db. IsPresent (service_by_name db service))
          (launch host paths service ip manifest spawned)
          (λ u db. IsStarted service db)
  unfolding launch
  Gives-launch ip manifest spawned =
      let stable = IsPresent-IsStableFor service in
      Gives-bind _ _ (Gives-Keeps _ (search call_rules)) λ dns.
        Gives-bind _ _ (Gives-Keeps _ (Keeps-or_abandon_dns host service stable paths spawned dns))
          λ u.
            Gives-bind _ _
              (Gives-Keeps _
                (Keeps-record_status host service stable paths ip spawned "starting" "starting"))
              λ v. Gives-bind _ _ (Gives-Keeps _ (search call_rules)) λ policies.
                Gives-bind _ _
                  (Gives-Keeps _
                    (Keeps-or_abandon_policies host service stable paths ip spawned policies))
                  λ w.
                    Gives-bind _ _
                      (Gives-Keeps _
                        (Keeps-emit host service stable (some service) "service.started" _))
                      λ x.
                        Gives-bind _ _ (Gives-Keeps _ (search call_rules))
                          λ health. Gives-record_health ip spawned health

  Gives-prepare :
      (r : ServiceRecord) (m : ServiceManifest)
      → Gives
          (λ db. IsPresent (service_by_name db service))
          (prepare host paths service r m)
          (λ u db. IsStarted service db)
  unfolding prepare
  Gives-prepare r m =
      let stable = IsPresent-IsStableFor service in
      Gives-bind _ _ (Gives-Keeps _ (search call_rules)) λ e.
        Gives-bind _ _ (Gives-Keeps _ (Keeps-service_volume_env host service stable.volume paths m))
          λ v.
            Gives-bind _ _
              (Gives-Keeps _ (Keeps-service_volume_mounts host service stable.volume paths m))
              λ k. Gives-bind _ _ (Gives-Keeps _ (search call_rules)) λ w.
                Gives-bind _ _ (Gives-Keeps _ (search call_rules)) λ env.
                  Gives-bind _ _ (Gives-Keeps _ (search call_rules)) λ x.
                    Gives-bind _ _ (Gives-Keeps _ (Keeps-cleanup_existing host service x)) λ y.
                      Gives-bind _ _ (Gives-Keeps _ (search call_rules)) λ z.
                        Gives-bind _ _ (Gives-Keeps _ (search call_rules))
                          λ spawned. Gives-launch _ m spawned

  found-IsPresent : (o : Option ServiceRecord) (r : ServiceRecord) → o ≡ some r → IsPresent o
  found-IsPresent o r e = rw e tt

  -- When `start_only` returns, the rows of the service and of its sandbox name one and the same process, and either
  -- the service is "healthy" and the sandbox "running", or both are "degraded".
  pub start_only-IsStarted :
      Gives (λ db. Unit {0}) (start_only host paths service) (λ u db. IsStarted service db)
  unfolding start_only
  start_only-IsStarted =
      let stable = IsPresent-IsStableFor service in
      Gives-bind _ _
        (Gives-weaken _ (λ r db h. found-IsPresent _ r h.1)
          (Gives-load_service host {P = λ db. Unit {0}} service))
        λ r.
          Gives-bind _ _ (Gives-Keeps _ (Keeps-refuse_running host service paths r.pid))
            λ u. Gives-bind _ _ (Gives-Keeps _ (search call_rules)) λ m. Gives-prepare r m
