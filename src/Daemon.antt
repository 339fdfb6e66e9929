-- ===== src/Daemon.antt =====
-- `reconcile_once` of rust/src/daemon.rs, the daemon's periodic pass over services and sandboxes.
pub mod Failures
use megaserver.Common.{
  ℕ, String, Bool, true, false, not, ◌&&◌, ◌==◌, Option, none, some, List, [], ◌∷◌, if◌then◌else◌,
}
use megaserver.Result.{Result, ok, err}
use megaserver.Rows.{is_some}
use megaserver.Json.{object, num, str}
use megaserver.Model.{ServiceRecord, SandboxRecord}
use megaserver.State.Services.{list_services, update_service_status}
use megaserver.State.Sandboxes.{sandbox_by_service, list_sandboxes, upsert_sandbox}
use megaserver.Exec.{AppError, M, pure, ◌>>=◌, ◌>>◌, attempt}
use megaserver.Host.{Host}
use megaserver.Host.Database.{open_db, query, exec, emit}
use megaserver.Host.Files.{must}
use megaserver.Host.Processes.{process_alive, health_check}
use megaserver.App.Support.{launch_metadata, service_runtime_host}
use megaserver.App.Stop.{stopped_sandbox, stop_sandbox}
use megaserver.App.Network.{refresh_linux_network_policies, stop_if_idle}

-- `match sandbox.as_ref() { ... }`: the address to ask.
abbrev pub target_host : Option SandboxRecord → String
target_host none = "127.0.0.1"
target_host (some r) = service_runtime_host r.runtime_kind r.ip_address

abbrev pub next_status : Result AppError String → String
next_status (ok text) = "healthy"
next_status (err e) = "degraded"

module _ (host : Host) where
  open host use {World}

  -- A service whose process is gone. Its sandbox is cleaned up as `stop_only` does.
  unfoldable pub fail_service : ServiceRecord → ℕ → M World (Unit {0})
  fail_service r pid = do
    existing ← query host (λ db. sandbox_by_service db r.name)
    stop_sandbox host r.name existing
    exec host (λ st. update_service_status st r.name "failed" none)
    emit host (some r.name) "service.failed"
        (object (("pid", num pid) ∷ ("reason", str "process_exited") ∷ []))

  unfoldable pub record_next : ServiceRecord → ℕ → String → M World (Unit {0})
  record_next r pid next =
      if next == r.status
      then pure tt
      else exec host (λ st. update_service_status st r.name next (some pid))

  -- A service whose process is there and that has a port.
  unfoldable pub check_service : ServiceRecord → ℕ → M World (Unit {0})
  unfolding record_next
  check_service r pid = do
    existing ← query host (λ db. sandbox_by_service db r.name)
    health ← attempt (health_check host (target_host existing) r.port r.health_path)
    record_next r pid (next_status health)

  unfoldable pub reconcile_process : ServiceRecord → ℕ → Bool → M World (Unit {0})
  unfolding fail_service check_service
  reconcile_process r pid false = if r.status == "stopped" then pure tt else fail_service r pid
  reconcile_process r pid true = if is_some r.port then check_service r pid else pure tt

  unfoldable pub reconcile_service : ServiceRecord → Option ℕ → M World (Unit {0})
  unfolding reconcile_process
  reconcile_service r none = pure tt
  reconcile_service r (some pid) = do
    here ← process_alive host pid
    open_db host
    reconcile_process r pid here

  unfoldable pub reconcile_services : List ServiceRecord → M World (Unit {0})
  unfolding reconcile_service
  reconcile_services [] = pure tt
  reconcile_services (r ∷ rs) = do reconcile_service r r.pid; reconcile_services rs

  -- `sandbox.pid.is_none_or(|pid| !process_alive(pid))`
  unfoldable pub is_stale : Option ℕ → M World Bool
  is_stale none = pure true
  is_stale (some pid) = do here ← process_alive host pid; pure (not here)

  unfoldable pub reconcile_sandbox : SandboxRecord → Bool → M World (Unit {0})
  reconcile_sandbox r stale =
      if r.runtime_kind == "linux-namespace" && stale && not (r.status == "stopped")
      then (do open_db host; stop_sandbox host r.service_name (some r))
      else pure tt

  unfoldable pub reconcile_sandboxes : List SandboxRecord → M World (Unit {0})
  unfolding is_stale reconcile_sandbox
  reconcile_sandboxes [] = pure tt
  reconcile_sandboxes (r ∷ rs) = do
    stale ← is_stale r.pid
    reconcile_sandbox r stale
    reconcile_sandboxes rs

  unfoldable pub reconcile_once : M World (Unit {0})
  unfolding reconcile_services reconcile_sandboxes
  reconcile_once = do
    open_db host
    services ← query host list_services
    sandboxes ← query host list_sandboxes
    reconcile_services services
    reconcile_sandboxes sandboxes
    open_db host
    refresh_linux_network_policies host
    stop_if_idle host
