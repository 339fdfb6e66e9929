-- ===== src/Tests/Returns.antt =====
-- A host that does what it is asked, and stops and starts on it.
use megaserver.Common.{◌≡◌, refl, Bool, true, false, Option, none, some}
use mathlib.Core.Option.{none-ne-some}
use megaserver.State.Services.{service_by_name}
use megaserver.State.Sandboxes.{sandbox_by_service}
use megaserver.State.Ips.{allocate_sandbox_ip}
use megaserver.Exec.Successes.{HasEnded}
use megaserver.App.Start.{start_only}
use megaserver.App.Stop.{stop_only}
use megaserver.App.Stopping.{IsStopped}
use megaserver.App.Starting.{IsStarted}
use megaserver.App.Succeeding.{IsCooperative}
use megaserver.App.Succeeding.Refreshes.{AreReadable, IsReadable}
use megaserver.App.Succeeding.Stops.{stop_only-HasEnded}
use megaserver.App.Succeeding.Starts.{start_only-HasEnded}
use megaserver.Model.{ServiceRecord}
use megaserver.Tests.Systems.{host, paths, running, running_db, service}

able : (living : Bool) → IsCooperative (host living)
able living = record {
  accepted = λ w. refl;
  signalled = λ pid s w. refl;
  written = λ path text w. refl;
  created = λ path w. refl;
  cleaned = λ m w. refl;
  encoded = λ value. tt;
  ensured = λ w. refl;
  pid_read = λ w. tt;
}

IsReadable-any : (living : Bool) (o : Option ServiceRecord) → IsReadable (host living) o
IsReadable-any living none = tt
IsReadable-any living (some r) = tt

running_db-AreReadable : (living : Bool) → AreReadable (host living) running_db
running_db-AreReadable living j = IsReadable-any living (service_by_name running_db j)

-- The process ignores the first signal.
stop_only-HasEnded_example :
    HasEnded (λ u. IsStopped "web") (stop_only (host true) paths "web" running)
unfolding service_by_name megaserver.Rows.find
stop_only-HasEnded_example =
    stop_only-HasEnded (host true) paths "web" running (able true) (running_db-AreReadable true) tt

api_row : service_by_name running_db "api" ≡ some (service 2 "api" "stopped" none)
unfolding service_by_name megaserver.Rows.find
api_row = refl

start_only-HasEnded_example :
    HasEnded (λ u. IsStarted "api") (start_only (host false) paths "api" running)
unfolding allocate_sandbox_ip sandbox_by_service megaserver.Rows.find megaserver.Ipv4.parse
start_only-HasEnded_example =
    start_only-HasEnded (host false) paths "api" (service 2 "api" "stopped" none) "10.42.0.2"
      running (able false) (api_row, refl, running_db-AreReadable false)
      (λ pid e. absurd (none-ne-some pid e))
