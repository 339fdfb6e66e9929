-- ===== src/App/Succeeding/Starts.antt =====
-- `start_only` of rust/src/app.rs returns on a cooperative host.
use mathlib.Core.Path.{subst}
use mathlib.Core.Option.{some-injective}
use megaserver.Common.{ℕ, String, Bool, false, Option, none, some, ◌≡◌, ◌∙◌, sym, ap, refl, inl}
use megaserver.Result.{Result, ok, err}
use megaserver.Rows.{Stamp}
use megaserver.Paths.{StatePaths}
use megaserver.Model.{ServiceRecord, SandboxRecord}
use megaserver.Manifest.{ServiceManifest}
use megaserver.Json.{Json}
use megaserver.State.{Db}
use megaserver.State.Services.{service_by_name}
use megaserver.State.Resources.{upsert_volume}
use megaserver.State.Ips.{allocated, allocate_sandbox_ip}
use megaserver.Exec.{AppError, Sys}
use megaserver.Exec.Rules.{Keeps}
use megaserver.Exec.Outcomes.{Gives-before}
use megaserver.Exec.Successes.{
  Succeeds, Succeeds-pure, Succeeds-bind, Succeeds-bind_kept, Succeeds-bind_attempt, Succeeds-lift,
  Succeeds-attempt, Succeeds-raise, IsOk, Succeeds-pull, Succeeds-bind_call, Succeeds-before,
  success_rules, IsThere, HasEnded, Succeeds-HasEnded,
}
use megaserver.Host.{Host, SpawnedService}
use megaserver.Host.Processes.{process_alive}
use megaserver.App.Support.{service_secret_env, ip_outcome, allocate, sandbox_runtime_env}
use megaserver.App.Stop.{cleanup_existing}
use megaserver.App.Start.{
  abandon, refuse_alive, refuse_running, or_abandon_dns, or_abandon_policies, record_status,
  record_health, launch, prepare, start_only,
}
use megaserver.App.Constraints.Reads.{base_rules, call_rules, Keeps-cleanup_existing}
use megaserver.App.Constraints.OfService.{
  Keeps-emit, Keeps-or_abandon_dns, Keeps-or_abandon_policies, Keeps-record_status,
  Keeps-update_service_status, Keeps-refuse_running, Keeps-service_volume_env,
  Keeps-service_volume_mounts,
}
use megaserver.Host.Database.{emit}
use megaserver.App.Stopping.{Gives-query, Gives-load_service}
use megaserver.App.Starting.{IsStarted, start_only-IsStarted}
use megaserver.App.Succeeding.{IsCooperative}
use megaserver.App.Succeeding.Calls.{
  Succeeds-open_db, Succeeds-query, Succeeds-exec, Succeeds-emit, Succeeds-must,
  Succeeds-must_give_excused, Succeeds-ignore,
}
use megaserver.App.Succeeding.Refreshes.{
  AreReadable, AreReadable-IsStableFor, IsReadable, Succeeds-manifest_from_record,
  Succeeds-refresh_linux_network_policies, Succeeds-refresh_private_hosts,
  Succeeds-write_private_hosts_file,
}
use megaserver.App.Succeeding.Stops.{Succeeds-load_service}
use megaserver.App.Succeeding.Volumes.{Succeeds-service_volume_env, Succeeds-service_volume_mounts}

-- No process with this id is alive, if there is an id.
abbrev pub IsDead : Host → Option ℕ → Type 0
IsDead host o = (pid : ℕ) → o ≡ some pid → (w : Host.World host) → (Host.alive host pid w).0 ≡ false

-- The service has this row, its next address is this one, and the stored manifests can be read.
abbrev pub IsStartable : Host → String → ServiceRecord → String → Db → Type 0
IsStartable host service r ip db =
    (service_by_name db service ≡ some r)
    × (allocate_sandbox_ip (Host.subnet_hosts host) db service ≡ allocated ip)
    × AreReadable host db

module _ (host : Host) (able : IsCooperative host) (paths : StatePaths) (service : String) where
  open host use {subnet_hosts}

  module _ {P : Db → Type 0} where
    Succeeds-refuse_alive :
        (pid : ℕ) (here : Bool)
        → here ≡ false
        → Succeeds P (refuse_alive host paths service pid here)
    unfolding refuse_alive
    Succeeds-refuse_alive pid here e =
        subst (λ b. Succeeds P (refuse_alive host paths service pid b)) (sym e) (Succeeds-pure tt)

    Succeeds-refuse_running :
        (o : Option ℕ) → IsDead host o → Succeeds P (refuse_running host paths service o)
    unfolding refuse_running process_alive
    Succeeds-refuse_running none dead = search success_rules
    Succeeds-refuse_running (some pid) dead =
        Succeeds-bind_call _ _ (dead pid refl) (Succeeds-refuse_alive pid)

    Succeeds-service_secret_env : Succeeds P (service_secret_env host service)
    unfolding service_secret_env
    Succeeds-service_secret_env =
        Succeeds-bind_kept _ _ (Succeeds-open_db host able) (search base_rules) λ u.
          Succeeds-bind_kept _ _ (Succeeds-query host able _) (search base_rules)
            λ secrets. Succeeds-pure _

    Succeeds-cleanup_existing :
        (found : Option SandboxRecord) → Succeeds P (cleanup_existing host service found)
    unfolding cleanup_existing
    Succeeds-cleanup_existing none = search success_rules
    Succeeds-cleanup_existing (some b) = Succeeds-must _ _ (able.cleaned _)

  Succeeds-allocate :
      (ip : String)
      → Succeeds
          (λ db. allocate_sandbox_ip subnet_hosts db service ≡ allocated ip)
          (allocate host service)
  unfolding allocate ip_outcome
  Succeeds-allocate ip =
      Succeeds-bind _ _ (Succeeds-query host able _) (Gives-query host _) λ found.
        Succeeds-lift _
          (λ db h. subst (λ x. IsOk (ip_outcome host service x, tt {0})) (sym h.0 ∙ h.1) tt)

  Succeeds-sandbox_runtime_env :
      (ip id hostname : String)
      → Succeeds
          (λ db. allocate_sandbox_ip subnet_hosts db service ≡ allocated ip)
          (sandbox_runtime_env host service id hostname)
  unfolding sandbox_runtime_env
  Succeeds-sandbox_runtime_env ip id hostname =
      Succeeds-bind_kept _ _ (Succeeds-allocate ip) (search call_rules) (λ a. Succeeds-pure _)

  Succeeds-record_status :
      (ip : String) (spawned : SpawnedService) (status sandbox_status : String)
      → Succeeds
          (AreReadable host)
          (record_status host paths service ip spawned status sandbox_status)
  unfolding record_status
  Succeeds-record_status ip spawned status sandbox_status =
      Succeeds-bind_kept _ _ (Succeeds-exec host able _)
        (Keeps-update_service_status host service (AreReadable-IsStableFor host service) _ _)
        λ u. Succeeds-exec host able _

  status_kept :
      (ip : String) (spawned : SpawnedService) (status sandbox_status : String)
      → Keeps (AreReadable host) (record_status host paths service ip spawned status sandbox_status)
  status_kept = Keeps-record_status host service (AreReadable-IsStableFor host service) paths

  event_kept :
      (owner : Option String) (kind : String) (details : Json)
      → Keeps (AreReadable host) (emit host owner kind details)
  event_kept = Keeps-emit host service (AreReadable-IsStableFor host service)

  Succeeds-record_health :
      (ip : String) (spawned : SpawnedService) (r : Result AppError String)
      → Succeeds (AreReadable host) (record_health host paths service ip spawned r)
  unfolding record_health
  Succeeds-record_health ip spawned (err e) =
      Succeeds-bind_kept _ _ (Succeeds-record_status ip spawned _ _) (status_kept ip spawned _ _)
        λ u.
          Succeeds-bind_kept _ _ (Succeeds-emit host able _ _ _) (event_kept _ _ _)
            λ v. Succeeds-refresh_private_hosts host able paths
  Succeeds-record_health ip spawned (ok text) =
      Succeeds-bind_kept _ _ (Succeeds-record_status ip spawned _ _) (status_kept ip spawned _ _)
        λ u.
          Succeeds-bind_kept _ _ (Succeeds-emit host able _ _ _) (event_kept _ _ _)
            λ v. Succeeds-refresh_private_hosts host able paths

  Succeeds-abandon :
      {P : Db → Type 0} (spawned : SpawnedService) → Succeeds P (abandon host paths service spawned)
  unfolding abandon
  Succeeds-abandon spawned =
      Succeeds-bind_kept _ _ (Succeeds-attempt _) (search call_rules) (λ r. Succeeds-ignore _)

  Succeeds-or_abandon_dns :
      {P : Db → Type 0} (spawned : SpawnedService) (r : Result AppError (Unit {0}))
      → IsOk (r, tt {0})
      → Succeeds P (or_abandon_dns host paths service spawned r)
  unfolding or_abandon_dns
  Succeeds-or_abandon_dns spawned (ok u) fine = Succeeds-pure tt
  Succeeds-or_abandon_dns spawned (err e) fine =
      Succeeds-before {P = λ db. Unit {0}} _ (λ db h. tt)
        (Succeeds-bind_kept _ _ (Succeeds-abandon spawned) (record { at = λ s h. tt })
          λ u. Succeeds-raise e fine)

  Succeeds-or_abandon_policies :
      (ip : String) (spawned : SpawnedService) (r : Result AppError (Unit {0}))
      → IsOk (r, tt {0})
      → Succeeds (AreReadable host) (or_abandon_policies host paths service ip spawned r)
  unfolding or_abandon_policies
  Succeeds-or_abandon_policies ip spawned (ok u) fine = Succeeds-pure tt
  Succeeds-or_abandon_policies ip spawned (err e) fine =
      Succeeds-before {P = λ db. Unit {0}} _ (λ db h. tt)
        (Succeeds-bind_kept _ _ (Succeeds-abandon spawned) (record { at = λ s h. tt })
          λ u.
            Succeeds-bind_kept _ _ (Succeeds-attempt _) (record { at = λ s h. tt })
              λ v.
                Succeeds-bind_kept _ _ (Succeeds-attempt _) (record { at = λ s h. tt })
                  λ w. Succeeds-raise e fine)

  -- Whatever the health check finds.
  Succeeds-launch :
      (ip : String) (m : ServiceManifest) (spawned : SpawnedService)
      → Succeeds (AreReadable host) (launch host paths service ip m spawned)
  unfolding launch or_abandon_dns or_abandon_policies
  Succeeds-launch ip m spawned =
      Succeeds-bind_attempt _ _ (Succeeds-must _ _ able.ensured) (search base_rules) λ dns fine.
        Succeeds-bind_kept _ _ (Succeeds-or_abandon_dns spawned dns fine)
          (Keeps-or_abandon_dns host service (AreReadable-IsStableFor host service) paths spawned
            dns)
          λ u.
            Succeeds-bind_kept _ _ (Succeeds-record_status ip spawned _ _)
              (status_kept ip spawned _ _)
              λ v.
                Succeeds-bind_attempt _ _ (Succeeds-refresh_linux_network_policies host able)
                  (search call_rules)
                  λ policies fine.
                    Succeeds-bind_kept _ _ (Succeeds-or_abandon_policies ip spawned policies fine)
                      (Keeps-or_abandon_policies host service (AreReadable-IsStableFor host service)
                        paths ip spawned policies)
                      λ w.
                        Succeeds-bind_kept _ _ (Succeeds-emit host able _ _ _) (event_kept _ _ _)
                          λ x.
                            Succeeds-bind_kept _ _ (Succeeds-attempt _) (search call_rules)
                              λ health. Succeeds-record_health ip spawned health

  module _ (r : ServiceRecord) (ip : String) where
    abbrev HasAddress : Db → Type 0
    HasAddress db =
        (allocate_sandbox_ip subnet_hosts db service ≡ allocated ip) × AreReadable host db

    HasAddress-upsert_volume :
        (st : Stamp) (name path : String) (db : Db)
        → HasAddress db
        → HasAddress (upsert_volume st (some service) name path db)
    unfolding upsert_volume allocate_sandbox_ip service_by_name
        megaserver.State.Sandboxes.list_sandboxes megaserver.State.Sandboxes.sandbox_by_service
    HasAddress-upsert_volume st name path db h = h

    -- From the manifest to the end.
    Succeeds-prepared :
        (r' : ServiceRecord) (m : ServiceManifest)
        → Succeeds HasAddress (prepare host paths service r' m)
    unfolding prepare
    Succeeds-prepared r' m =
        let kept = HasAddress-upsert_volume in
        Succeeds-bind_kept _ _ Succeeds-service_secret_env (search call_rules) λ secrets.
          Succeeds-bind_kept _ _ (Succeeds-service_volume_env host able paths service kept m)
            (Keeps-service_volume_env host service kept paths m)
            λ env.
              Succeeds-bind_kept _ _ (Succeeds-service_volume_mounts host able paths service kept m)
                (Keeps-service_volume_mounts host service kept paths m)
                λ mounts.
                  Succeeds-bind_kept _ _ (Succeeds-open_db host able) (search base_rules) λ u.
                    Succeeds-bind_kept _ _
                      (Succeeds-before _ (λ db h. h.0) (Succeeds-sandbox_runtime_env ip _ _))
                      (search call_rules)
                      λ sandbox_env.
                        Succeeds-before _ (λ db h. h.1)
                          (Succeeds-bind_kept _ _ (Succeeds-query host able _) (search base_rules)
                            λ found.
                              Succeeds-bind_kept _ _ (Succeeds-cleanup_existing found)
                                (Keeps-cleanup_existing host service found)
                                λ v.
                                  Succeeds-bind_kept _ _
                                    (Succeeds-write_private_hosts_file host able paths _ _ _)
                                    (search call_rules)
                                    λ w.
                                      Succeeds-bind_kept _ _
                                        (Succeeds-must_give_excused _ _ (inl refl))
                                        (search base_rules) λ spawned. Succeeds-launch _ m spawned)

    Succeeds-start_only :
        IsDead host r.pid → Succeeds (IsStartable host service r ip) (start_only host paths service)
    unfolding start_only
    Succeeds-start_only dead =
        Succeeds-bind _ _
          (Succeeds-load_service host able service (λ db h. subst IsThere (sym h.0) tt))
          (Gives-load_service host service)
          λ r'.
            Succeeds-before _
              (λ db h. (
                (h.0.1, h.0.2),
                (
                  ap (λ x. x.pid) (some-injective _ _ (sym h.1 ∙ h.0.0)),
                  subst (IsReadable host) h.1 (h.0.2 service),
                ),
              ))
              (Succeeds-pull {X = (r'.pid ≡ r.pid) × IsReadable host (some r')} _ λ same.
                Succeeds-bind_kept _ _
                  (Succeeds-refuse_running r'.pid (λ pid e. dead pid (sym same.0 ∙ e)))
                  (Keeps-refuse_running host service paths r'.pid)
                  λ u.
                    Succeeds-bind_kept _ _ (Succeeds-manifest_from_record host r' (λ db h. same.1))
                      (search call_rules) λ m. Succeeds-prepared r' m)

-- On a host that does what it is asked, starting a service returns and leaves it healthy or degraded with a process,
-- whatever the health check finds. The service has a row with no process that is alive, there is an address for it,
-- and the manifests in the database can be read.
pub start_only-HasEnded :
    (host : Host) (paths : StatePaths) (service : String) (r : ServiceRecord) (ip : String)
    (s : Sys (Host.World host))
    → IsCooperative host
    → IsStartable host service r ip s.db
    → IsDead host r.pid
    → HasEnded (λ u. IsStarted service) (start_only host paths service s)
start_only-HasEnded host paths service r ip s able startable dead =
    Succeeds-HasEnded (start_only host paths service)
      (Succeeds-start_only host able paths service r ip dead)
      (Gives-before _ (λ db h. tt) (start_only-IsStarted host paths service)) s startable
