-- ===== src/Tests/Daemon.antt =====
-- Passes of rust/src/daemon.rs on a concrete host, and the theorems on them.
use megaserver.Common.{◌≡◌, refl, false, none, some, List, [], ◌∷◌, All}
use megaserver.Model.{ServiceRecord}
use megaserver.State.{empty_db}
use megaserver.State.Services.{list_services}
use megaserver.Exec.Outcomes.{Gives}
use megaserver.Exec.{Sys}
use megaserver.App.Requests
use megaserver.App.Requests.{serve}
use megaserver.Daemon.{reconcile_once}
use megaserver.Daemon.Failures.{HasFailed, reconcile_once-HasFailed}
use megaserver.Tests.Systems.{host, paths, running_db, service}

-- What a deployment leaves.
abbrev deployed : Sys (Unit {0})
deployed =
    serve (host false) paths (Requests.deploy "/srv/app" ∷ [])
      (record { db = empty_db; world = tt })

abbrev services : List ServiceRecord
services = service 2 "api" "stopped" none ∷ service 1 "web" "healthy" (some 7) ∷ []

services_test : list_services running_db ≡ services
unfolding list_services megaserver.Rows.Order.order_by
services_test = refl

reconcile_once-HasFailed_example :
    Gives
      (λ db. list_services db ≡ services)
      (reconcile_once (host false))
      (λ u db. All (λ r. HasFailed r db) services)
reconcile_once-HasFailed_example = reconcile_once-HasFailed (host false) (λ pid w. refl) services
