-- ===== src/App/Network.antt =====
-- `refresh_linux_network_policies` of rust/src/app.rs on Linux, and `stop_if_idle` of rust/src/dns.rs.
use megaserver.Common.{
  ℕ, String, Bool, true, false, not, Option, none, some, List, [], ◌∷◌, ◌++◌, any, if◌then◌else◌,
  ◌==◌, ◌&&◌,
}
use megaserver.Rows.{is_some}
use megaserver.Model.{ServiceRecord, SandboxRecord}
use megaserver.State.Services.{service_by_name}
use megaserver.State.Sandboxes.{list_sandboxes}
use megaserver.Exec.{M, pure, ◌>>=◌, ◌>>◌, call, attempt}
use megaserver.Host.{Host, SandboxNetworkPolicyBinding}
use megaserver.Host.Database.{open_db, query}
use megaserver.Host.Files.{must, must_give, ignore}
use megaserver.Host.Processes.{stop_pid}
use megaserver.App.Support.{manifest_from_record}

abbrev pub is_live_namespace : SandboxRecord → Bool
is_live_namespace r = r.runtime_kind == "linux-namespace" && not (r.status == "stopped")

abbrev pub in_use : SandboxRecord → Bool
in_use r = r.runtime_kind == "linux-namespace" && not (r.status == "stopped") && is_some r.pid

module _ (host : Host) where
  open host use {World, isolation_supported, refresh_policies, read_dns_pid, remove_dns_pid}

  -- The binding of one sandbox, or none where the loop continues.
  unfoldable pub binding_of_service :
      SandboxRecord → String → Option ServiceRecord → M World (List SandboxNetworkPolicyBinding)
  binding_of_service r ip none = pure []
  binding_of_service r ip (some service) = do
    manifest ← manifest_from_record host service
    pure (
        record { service_name = r.service_name; sandbox_ip = ip; policy = manifest.network.policy }
        ∷ [])

  unfoldable pub binding_of :
      SandboxRecord → Option String → M World (List SandboxNetworkPolicyBinding)
  binding_of r none = pure []
  binding_of r (some ip) = do
    service ← query host (λ db. service_by_name db r.service_name)
    binding_of_service r ip service

  unfoldable pub bindings_from :
      List SandboxNetworkPolicyBinding
      → List SandboxRecord
      → M World (List SandboxNetworkPolicyBinding)
  unfolding binding_of binding_of_service
  bindings_from found [] = pure found
  bindings_from found (r ∷ rs) = do
    more ← (if is_live_namespace r then binding_of r r.ip_address else pure [])
    bindings_from (found ++ more) rs

  unfoldable pub apply_bindings : Bool → M World (Unit {0})
  unfolding bindings_from
  apply_bindings false = pure tt
  apply_bindings true = do
    rows ← query host list_sandboxes
    bindings ← bindings_from [] rows
    must "apply sandbox network policy" (refresh_policies bindings)

  unfoldable pub refresh_linux_network_policies : M World (Unit {0})
  unfolding apply_bindings
  refresh_linux_network_policies = do isolated ← call isolation_supported; apply_bindings isolated

  unfoldable pub stop_sidecar : Option ℕ → M World (Unit {0})
  stop_sidecar none = pure tt
  stop_sidecar (some pid) = do outcome ← attempt (stop_pid host pid 2000); pure tt

  unfoldable pub remove_sidecar : Bool → M World (Unit {0})
  unfolding stop_sidecar
  remove_sidecar true = pure tt
  remove_sidecar false = do
    pid ← must_give "parse dns pid" read_dns_pid
    stop_sidecar pid
    ignore remove_dns_pid

  unfoldable pub stop_if_idle : M World (Unit {0})
  unfolding remove_sidecar
  stop_if_idle = do open_db host; rows ← query host list_sandboxes; remove_sidecar (any in_use rows)
