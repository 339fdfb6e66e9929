-- ===== src/Tests/Runs.antt =====
-- Runs of the requests of rust/src/app.rs on a concrete host, and the theorems on them.
use megaserver.Common.{
  String, ◌≡◌, ◌≢◌, refl, Bool, true, false, none, some, List, [], ◌∷◌, arith, eq_iff,
}
use megaserver.Result.{Result, ok, err}
use megaserver.State.{Db, empty_db}
use megaserver.Exec.{AppError, Sys, ◌>>=◌, pure, raise, read, write, call, lift, attempt}
use megaserver.App.Requests
use megaserver.App.Requests.{Action, dispatch_value, serve}
use megaserver.App.Start.{start_only}
use megaserver.App.Stop.{stop_only, destroy_only}
use megaserver.Tests.Systems.{host, paths, running, running_db, service}
use megaserver.Exec.Outcomes.{Gives, OnReturn}
use megaserver.App.Resources.{expose_value, set_secret_only}
use megaserver.App.Recorded.{IsStored, IsExposed, set_secret_only-IsStored, expose_value-IsExposed}
use megaserver.Exec.Refusals.{IsRefusal}
use megaserver.State.Services.{service_by_name}
use megaserver.State.Sandboxes.{sandbox_by_service}
use megaserver.App.Stopping.{IsStopped, stop_only-IsStopped}
use megaserver.App.Starting.{IsStarted, start_only-IsStarted}
use megaserver.App.Destroying.{IsGone, destroy_only-IsGone}
use megaserver.App.Bystanders
use megaserver.App.Bystanders.{HasRows, dispatch_value-HasRows}
use megaserver.App.Refusing
use megaserver.App.Refusing.{dispatch_value-IsRefusal, start_only-IsRefusal}

abbrev returns : {A : Type 0} → Result AppError A × Sys (Unit {0}) → Bool
returns (ok a, s) = true
returns (err e, s) = false

run_tests :
    (returns (stop_only (host false) paths "web" running) ≡ true)
    × (returns (destroy_only (host false) paths "web" running) ≡ true)
    × (returns (start_only (host false) paths "api" running) ≡ true)
unfolding start_only stop_only destroy_only ◌>>=◌ pure raise read write call lift attempt
    megaserver.App.Support.load_service megaserver.Host.Database.open_db
    megaserver.Host.Database.query megaserver.State.Services.service_by_name megaserver.Rows.find
    megaserver.Host.Processes.stop_pid megaserver.Host.Database.exec
    megaserver.State.Sandboxes.sandbox_by_service megaserver.State.Services.update_service_status
    megaserver.Host.Files.must megaserver.App.Network.refresh_linux_network_policies
    megaserver.State.Sandboxes.list_sandboxes megaserver.Rows.Order.order_by
    megaserver.State.Sandboxes.upsert_sandbox megaserver.Rows.upsert
    megaserver.App.Support.refresh_private_hosts megaserver.App.Network.stop_if_idle
    megaserver.App.Support.manifest_from_record megaserver.App.Support.write_private_hosts_file
    megaserver.Host.Database.emit megaserver.Host.Files.ignore megaserver.Host.Files.must_give
    megaserver.Host.Processes.process_alive megaserver.Paths.join
    megaserver.Paths.service_runtime_dir megaserver.State.Resources.emit_event
    megaserver.State.Services.delete_service megaserver.Rows.delete
    megaserver.App.Support.service_secret_env megaserver.App.Support.service_volume_env
    megaserver.State.Resources.volume_by_name megaserver.State.Resources.upsert_volume
    megaserver.App.Support.service_volume_mounts megaserver.App.Support.sandbox_runtime_env
    megaserver.State.Ips.allocate_sandbox_ip megaserver.Ipv4.parse
    megaserver.Host.Processes.health_check
run_tests = (refl, refl, refl)

abbrev requests : List Action
requests =
    Requests.deploy "/srv/app"
    ∷ Requests.secret_set "web" "TOKEN" "t"
    ∷ Requests.route_add "web" "two.example" none
    ∷ Requests.snapshot "web"
    ∷ Requests.restart "web"
    ∷ Requests.project_import "/src/shop" (some "shop")
    ∷ Requests.deployment_create "shop" false
    ∷ Requests.destroy "web"
    ∷ []

stop_only-IsStopped_example :
    Gives (λ db. Unit {0}) (stop_only (host false) paths "web") (λ u db. IsStopped "web" db)
stop_only-IsStopped_example = stop_only-IsStopped (host false) paths "web"

start_only-IsStarted_example :
    Gives (λ db. Unit {0}) (start_only (host false) paths "api") (λ u db. IsStarted "api" db)
start_only-IsStarted_example = start_only-IsStarted (host false) paths "api"

destroy_only-IsGone_example :
    Gives (λ db. Unit {0}) (destroy_only (host false) paths "web") (λ u db. IsGone "web" db)
destroy_only-IsGone_example = destroy_only-IsGone (host false) paths "web"

web≢api : ◌≢◌ {A = String} "web" "api"
web≢api = ground (arith, eq_iff "web" "api")

dispatch_value-HasRows_example :
    HasRows "api"
      (service_by_name running_db "api")
      (sandbox_by_service running_db "api")
      (dispatch_value (host false) paths (Requests.restart "web") running).1.db
dispatch_value-HasRows_example =
    dispatch_value-HasRows (host false) paths "web" "api" (Requests.restart "web") running web≢api
      Bystanders.IsAbout.restart

no_such_service : service_by_name running_db "none" ≡ none
unfolding service_by_name megaserver.Rows.find
no_such_service = refl

dispatch_value-IsRefusal_example :
    IsRefusal running_db (dispatch_value (host false) paths (Requests.stop "none") running)
dispatch_value-IsRefusal_example =
    dispatch_value-IsRefusal (host false) paths "none" (Requests.stop "none") running
      Refusing.Names.stop no_such_service

web_row : service_by_name running_db "web" ≡ some (service 1 "web" "healthy" (some 7))
unfolding service_by_name megaserver.Rows.find
web_row = refl

start_only-IsRefusal_example : IsRefusal running_db (start_only (host true) paths "web" running)
start_only-IsRefusal_example =
    start_only-IsRefusal (host true) paths "web" (service 1 "web" "healthy" (some 7)) 7 running
      web_row refl (λ w. refl)

set_secret_only-IsSet_example :
    OnReturn
      (λ u. IsStored "web" "TOKEN" "new" running_db)
      (set_secret_only (host false) "web" "TOKEN" "new" running)
set_secret_only-IsSet_example = set_secret_only-IsStored (host false) "web" "TOKEN" "new" running

expose_value-IsExposed_example :
    OnReturn
      (λ u. IsExposed "web" "www.example" none running_db)
      (expose_value (host false) "web" "www.example" none running)
expose_value-IsExposed_example =
    expose_value-IsExposed (host false) "web" "www.example" none running
