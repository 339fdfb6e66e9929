-- ===== src/App/Succeeding/Stops.antt =====
-- `stop_only` of rust/src/app.rs returns on a cooperative host.
use mathlib.Core.Path.{subst}
use megaserver.Common.{ℕ, String, Option, none, some}
use megaserver.Paths.{StatePaths}
use megaserver.Model.{SandboxRecord}
use megaserver.State.{Db}
use megaserver.State.Services.{service_by_name}
use megaserver.Exec.{Sys}
use megaserver.Exec.Outcomes.{Gives-before}
use megaserver.Exec.Successes.{
  Succeeds, Succeeds-bind, Succeeds-bind_kept, Succeeds-or_error, Succeeds-before, success_rules,
  IsThere, HasEnded, Succeeds-HasEnded,
}
use megaserver.Host.{Host}
use megaserver.App.Support.{load_service}
use megaserver.App.Stop.{stop_process, stop_sandbox, stop_only}
use megaserver.App.Constraints.Reads.{base_rules, Keeps-stop_process, Keeps-settle}
use megaserver.App.Constraints.OfService.{Keeps-update_service_status, Keeps-stop_sandbox}
use megaserver.App.Stopping.{Gives-query, Gives-load_service, IsStopped, stop_only-IsStopped}
use megaserver.App.Succeeding.{IsCooperative}
use megaserver.App.Succeeding.Calls.{
  Succeeds-open_db, Succeeds-query, Succeeds-exec, Succeeds-emit, Succeeds-must, Succeeds-stop_pid,
}
use megaserver.App.Succeeding.Refreshes.{AreReadable, AreReadable-IsStableFor, Succeeds-settle}

module _ (host : Host) (able : IsCooperative host) where
  pub Succeeds-load_service :
      {P : Db → Type 0} (service : String)
      → ((db : Db) → P db → IsThere (service_by_name db service))
      → Succeeds P (load_service host service)
  unfolding load_service
  Succeeds-load_service service there =
      Succeeds-bind_kept _ _ (Succeeds-open_db host able) (search base_rules) λ u.
        Succeeds-bind _ _ (Succeeds-query host able _) (Gives-query host _)
          λ found. Succeeds-or_error _ _ (λ db h. subst IsThere h.1 (there db h.0))

  Succeeds-stop_process : {P : Db → Type 0} (pid : Option ℕ) → Succeeds P (stop_process host pid)
  unfolding stop_process
  Succeeds-stop_process none = search success_rules
  Succeeds-stop_process (some pid) = Succeeds-stop_pid host able pid 5000

  Succeeds-stop_sandbox :
      {P : Db → Type 0} (service : String) (found : Option SandboxRecord)
      → Succeeds P (stop_sandbox host service found)
  unfolding stop_sandbox
  Succeeds-stop_sandbox service none = search success_rules
  Succeeds-stop_sandbox service (some b) =
      Succeeds-bind_kept _ _ (Succeeds-must _ _ (able.cleaned _)) (search base_rules)
        λ u. Succeeds-exec host able _

  module _ (paths : StatePaths) (service : String) where
    Succeeds-stop_only :
        Succeeds
          (λ db. AreReadable host db × IsThere (service_by_name db service))
          (stop_only host paths service)
    unfolding stop_only
    Succeeds-stop_only =
        let stable = AreReadable-IsStableFor host service in
        Succeeds-bind _ _ (Succeeds-load_service service (λ db h. h.1))
          (Gives-load_service host service)
          λ r.
            Succeeds-before _ (λ db h. h.0.0)
              (Succeeds-bind_kept _ _ (Succeeds-stop_process r.pid) (Keeps-stop_process host r.pid)
                λ u. Succeeds-bind_kept _ _ (Succeeds-open_db host able) (search base_rules) λ v.
                  Succeeds-bind_kept _ _ (Succeeds-exec host able _)
                    (Keeps-update_service_status host service stable "stopped" none)
                    λ w.
                      Succeeds-bind_kept _ _ (Succeeds-query host able _) (search base_rules)
                        λ found.
                          Succeeds-bind_kept _ _ (Succeeds-stop_sandbox service found)
                            (Keeps-stop_sandbox host service stable found)
                            λ x.
                              Succeeds-bind_kept _ _ (Succeeds-settle host able paths)
                                (Keeps-settle host paths) λ y. Succeeds-emit host able _ _ _)

-- On a host that does what it is asked, stopping a service returns and leaves its rows stopped: whether its process
-- ends at the first signal, later, or not before it is killed. The service has a row, and the manifests in the
-- database can be read.
pub stop_only-HasEnded :
    (host : Host) (paths : StatePaths) (service : String) (s : Sys (Host.World host))
    → IsCooperative host
    → AreReadable host s.db
    → IsThere (service_by_name s.db service)
    → HasEnded (λ u. IsStopped service) (stop_only host paths service s)
stop_only-HasEnded host paths service s able readable there =
    Succeeds-HasEnded (stop_only host paths service) (Succeeds-stop_only host able paths service)
      (Gives-before _ (λ db h. tt) (stop_only-IsStopped host paths service)) s (readable, there)
