-- ===== src/App/Refusing.antt =====
-- Requests of rust/src/host_abi.rs that fail before they write.
use mathlib.Core.Option.{none-ne-some, some-injective}
use megaserver.Common.{arith, sym, ℕ, ◌≡◌, ◌∙◌, String, ap, Bool, true, false, Option, none, some}
use megaserver.Result.{or_error}
use megaserver.Paths.{StatePaths}
use megaserver.Model.{ServiceRecord}
use megaserver.State.{Db}
use megaserver.State.Services.{service_by_name}
use megaserver.Exec.{Sys, lift, call, unknown_service}
use megaserver.Exec.Outcomes.{Gives, Gives-weaken}
use megaserver.Exec.Refusals.{
  IsRefusal, Refuses, Refuses-bind, Refuses-Gives, Refuses-lift, Refuses-impossible, Refuses-weaken,
  Refuses-bind_after, Refuses-bind_kept, Refuses-raise,
}
use megaserver.Host.{Host}
use megaserver.Host.Processes.{process_alive}
use megaserver.App.Support.{load_service}
use megaserver.App.Start.{refuse_alive, refuse_running, start_only}
use megaserver.App.Stop.{stop_only, destroy_only}
use megaserver.App.Inspect.{inspect_value}
use megaserver.App.Resources.{expose_value, snapshot_value}
use megaserver.App.Constraints.{Keeps-open_db, Keeps-query, Keeps-process_alive}
use megaserver.App.Constraints.Reads.{Keeps-load_service}
use megaserver.App.Stopping.{Gives-load_service, Gives-query}
use megaserver.App.Requests
use megaserver.App.Requests.{Action, dispatch_value}

-- The requests that name a service which has to be there.
pub data Names (service : String) : Action → Type 0 where
  start : Names service (Requests.start service)
  stop : Names service (Requests.stop service)
  restart : Names service (Requests.restart service)
  destroy : Names service (Requests.destroy service)
  route_add :
      {domain : String} {port : Option ℕ} → Names service (Requests.route_add service domain port)
  snapshot : Names service (Requests.snapshot service)
  inspect : Names service (Requests.inspect service)

module _ (host : Host) (service : String) where
  open host use {World, alive}

  abbrev pub IsMissing : Db → Type 0
  IsMissing db = service_by_name db service ≡ none

  pub Refuses-load_service : Refuses IsMissing (load_service host service)
  Refuses-load_service =
      Refuses-Gives _ (λ Q. Keeps-load_service host service)
        (Gives-weaken _ (λ r db h. none-ne-some _ (sym h.0 ∙ h.1))
          (Gives-load_service host service))

  Refuses-found :
      (found : Option ServiceRecord)
      → Refuses
          (λ db. IsMissing db × (service_by_name db service ≡ found))
          (lift {W = World} (or_error found (unknown_service service)))
  Refuses-found none = Refuses-lift _
  Refuses-found (some r) = Refuses-impossible _ (λ db h. none-ne-some _ (sym h.0 ∙ h.1))

  Refuses-expose_value :
      (domain : String) (port : Option ℕ)
      → Refuses IsMissing (expose_value host service domain port)
  unfolding expose_value
  Refuses-expose_value domain port =
      Refuses-bind_kept _ _ (λ Q. Keeps-open_db host)
        λ u.
          Refuses-bind_after _ _ (λ Q. Keeps-query host _) (Gives-query host _)
            λ found. Refuses-bind _ _ (Refuses-found found)

  Refuses-inspect_value : Refuses IsMissing (inspect_value host service)
  unfolding inspect_value
  Refuses-inspect_value =
      Refuses-bind_kept _ _ (λ Q. Keeps-open_db host)
        λ u.
          Refuses-bind_after _ _ (λ Q. Keeps-query host _) (Gives-query host _)
            λ found. Refuses-bind _ _ (Refuses-found found)

  Refuses-Names :
      (paths : StatePaths) (action : Action)
      → Names service action
      → Refuses IsMissing (dispatch_value host paths action)
  unfolding dispatch_value start_only stop_only destroy_only snapshot_value
  Refuses-Names paths _ Names.start = Refuses-bind _ _ (Refuses-bind _ _ Refuses-load_service)
  Refuses-Names paths _ Names.stop = Refuses-bind _ _ Refuses-load_service
  Refuses-Names paths _ Names.restart = Refuses-bind _ _ (Refuses-bind _ _ Refuses-load_service)
  Refuses-Names paths _ Names.destroy = Refuses-bind _ _ Refuses-load_service
  Refuses-Names paths _ (Names.route_add {domain = d} {port = p}) =
      Refuses-bind _ _ (Refuses-expose_value d p)
  Refuses-Names paths _ Names.inspect = Refuses-bind _ _ Refuses-inspect_value
  Refuses-Names paths _ Names.snapshot = Refuses-bind _ _ (Refuses-bind _ _ Refuses-load_service)

-- A request to start, stop, restart, destroy, snapshot or inspect a service that has no row, or to add a route to it,
-- fails, whatever the host answers, and leaves the database as it was.
pub dispatch_value-IsRefusal :
    (host : Host) (paths : StatePaths) (service : String) (action : Action)
    (s : Sys (Host.World host))
    → Names service action
    → service_by_name s.db service ≡ none
    → IsRefusal s.db (dispatch_value host paths action s)
dispatch_value-IsRefusal host paths service action s names missing =
    (Refuses-Names host service paths action names).at s missing

module _ (host : Host) (paths : StatePaths) (service : String) (r : ServiceRecord) (pid : ℕ) where
  open host use {World, alive}

  abbrev HasRow : Db → Type 0
  HasRow db = service_by_name db service ≡ some r

  Refuses-refuse_alive :
      (q : ℕ) (b : Bool) → Refuses (λ db. b ≡ true) (refuse_alive host paths service q b)
  unfolding refuse_alive
  Refuses-refuse_alive q true = Refuses-raise _
  Refuses-refuse_alive q false = Refuses-impossible _ (λ db h. ground arith)

  Gives-process_alive :
      (q : ℕ)
      → ((w : World) → (alive pid w).0 ≡ true)
      → Gives (λ db. some q ≡ some pid) (process_alive host q) (λ b db. b ≡ true)
  unfolding process_alive call
  Gives-process_alive q living = record { at = λ s h. rw (some-injective _ _ h) (living s.world) }

  Refuses-refuse_running :
      (p : Option ℕ)
      → ((w : World) → (alive pid w).0 ≡ true)
      → Refuses (λ db. p ≡ some pid) (refuse_running host paths service p)
  unfolding refuse_running
  Refuses-refuse_running none living = Refuses-impossible _ (λ db h. none-ne-some _ h)
  Refuses-refuse_running (some q) living =
      Refuses-bind_after _ _ (λ Q. Keeps-process_alive host q) (Gives-process_alive q living)
        (Refuses-refuse_alive q)

  same_pid :
      (found : ServiceRecord) (db : Db)
      → r.pid ≡ some pid
      → HasRow db × (service_by_name db service ≡ some found)
      → found.pid ≡ some pid
  same_pid found db running h = ap (λ x. x.pid) (some-injective _ _ (sym h.1 ∙ h.0)) ∙ running

  -- Starting a service whose recorded process is alive, whatever else the host answers, fails and leaves the
  -- database as it was.
  pub start_only-IsRefusal :
      (s : Sys World)
      → service_by_name s.db service ≡ some r
      → r.pid ≡ some pid
      → ((w : World) → (alive pid w).0 ≡ true)
      → IsRefusal s.db (start_only host paths service s)
  unfolding start_only
  start_only-IsRefusal s found running living =
      (Refuses-bind_after _ _ (λ Q. Keeps-load_service host service)
          (Gives-load_service host {P = HasRow} service)
          λ r'. Refuses-bind _ _ (
            Refuses-weaken _ (λ db. same_pid r' db running)
              (Refuses-refuse_running r'.pid living))).at
        s found
