-- ===== src/App/Constraints/Reads.antt =====
-- The helpers of rust/src/app.rs, rust/src/manifest.rs and rust/src/dns.rs that run no statement keep every
-- property of the database.
use megaserver.Common.{ℕ, String, Bool, true, false, Option, none, some, List, [], ◌∷◌, ◌++◌}
use megaserver.Rows.{Stamp}
use megaserver.App.Stop.{stop_process, kill_process, cleanup_existing, settle}
use megaserver.Paths.{StatePaths}
use megaserver.Json.{Json}
use megaserver.Model.{ServiceRecord, SandboxRecord}
use megaserver.Manifest.Load.{find_manifest, load_manifest}
use megaserver.State.{Db}
use megaserver.State.Resources
use megaserver.Exec.Rules.{Keeps, Keeps-bind, Keeps-elim, keeps_rules}
use megaserver.Host.{Host, SandboxNetworkPolicyBinding}
use megaserver.Host.Database.{emit}
use megaserver.App.Support.{
  manifest_from_record, load_service, service_secret_env, sandbox_runtime_env,
  write_private_hosts_file, hosts_of, write_hosts_for, refresh_private_hosts,
}
use megaserver.App.Network.{
  binding_of_service, binding_of, bindings_from, apply_bindings, refresh_linux_network_policies,
  stop_sidecar, remove_sidecar, stop_if_idle,
}
use megaserver.App.Constraints.{
  Keeps-must, Keeps-must_give, Keeps-ignore, Keeps-open_db, Keeps-query, Keeps-exec, Keeps-stop_pid,
  Keeps-process_alive, Keeps-health_check,
}

pub ruleset base_rules =
    (keeps_rules, Keeps-must, Keeps-ignore, Keeps-must_give, Keeps-open_db, Keeps-query)

-- What runs no statement keeps every property.
module _ (host : Host) {P : Db → Type 0} where
  pub Keeps-manifest_from_record : (r : ServiceRecord) → Keeps P (manifest_from_record host r)
  unfolding manifest_from_record
  Keeps-manifest_from_record r = search keeps_rules

  pub Keeps-load_service : (service : String) → Keeps P (load_service host service)
  unfolding load_service
  Keeps-load_service service = search base_rules

  pub Keeps-service_secret_env : (service : String) → Keeps P (service_secret_env host service)
  unfolding service_secret_env
  Keeps-service_secret_env service = search base_rules

  pub Keeps-sandbox_runtime_env :
      (service id hostname : String) → Keeps P (sandbox_runtime_env host service id hostname)
  unfolding sandbox_runtime_env
  Keeps-sandbox_runtime_env service id hostname = search base_rules

  Keeps-find_manifest :
      (path : String) (names : List String) → Keeps P (find_manifest host path names)
  unfolding find_manifest
  Keeps-find_manifest path [] = search keeps_rules
  Keeps-find_manifest path (name ∷ names) =
      Keeps-bind _ _ (search keeps_rules)
        λ here. Keeps-elim here _ _ (search keeps_rules) (Keeps-find_manifest path names)

  pub Keeps-load_manifest : (path : String) → Keeps P (load_manifest host path)
  unfolding load_manifest
  Keeps-load_manifest path = search (base_rules, Keeps-find_manifest) depth 9

  Keeps-binding_of_service :
      (r : SandboxRecord) (ip : String) (found : Option ServiceRecord)
      → Keeps P (binding_of_service host r ip found)
  unfolding binding_of_service
  Keeps-binding_of_service r ip none = search keeps_rules
  Keeps-binding_of_service r ip (some service) = search (keeps_rules, Keeps-manifest_from_record)

  pub Keeps-binding_of : (r : SandboxRecord) (ip : Option String) → Keeps P (binding_of host r ip)
  unfolding binding_of
  Keeps-binding_of r none = search keeps_rules
  Keeps-binding_of r (some ip) = search (base_rules, Keeps-binding_of_service)

  pub Keeps-bindings_from :
      (found : List SandboxNetworkPolicyBinding) (rs : List SandboxRecord)
      → Keeps P (bindings_from host found rs)
  unfolding bindings_from
  Keeps-bindings_from found [] = search keeps_rules
  Keeps-bindings_from found (r ∷ rs) =
      Keeps-bind _ _ (search (keeps_rules, Keeps-binding_of))
        (λ more. Keeps-bindings_from (found ++ more) rs)

  pub Keeps-apply_bindings : (isolated : Bool) → Keeps P (apply_bindings host isolated)
  unfolding apply_bindings
  Keeps-apply_bindings true = search (base_rules, Keeps-bindings_from)
  Keeps-apply_bindings false = search keeps_rules

  pub Keeps-refresh_linux_network_policies : Keeps P (refresh_linux_network_policies host)
  unfolding refresh_linux_network_policies
  Keeps-refresh_linux_network_policies = search (keeps_rules, Keeps-apply_bindings)

  pub Keeps-stop_sidecar : (pid : Option ℕ) → Keeps P (stop_sidecar host pid)
  unfolding stop_sidecar
  Keeps-stop_sidecar none = search keeps_rules
  Keeps-stop_sidecar (some pid) = search (keeps_rules, Keeps-stop_pid)

  pub Keeps-remove_sidecar : (used : Bool) → Keeps P (remove_sidecar host used)
  unfolding remove_sidecar
  Keeps-remove_sidecar true = search keeps_rules
  Keeps-remove_sidecar false = search (base_rules, Keeps-stop_sidecar)

  pub Keeps-stop_if_idle : Keeps P (stop_if_idle host)
  unfolding stop_if_idle
  Keeps-stop_if_idle = search (base_rules, Keeps-remove_sidecar)

  module _ (paths : StatePaths) where
    pub Keeps-write_private_hosts_file :
        (service hostname ip : String)
        → Keeps P (write_private_hosts_file host paths service hostname ip)
    unfolding write_private_hosts_file
    Keeps-write_private_hosts_file service hostname ip = search base_rules

    pub Keeps-hosts_of :
        (r : SandboxRecord) (ip : Option String) → Keeps P (hosts_of host paths r ip)
    unfolding hosts_of
    Keeps-hosts_of r none = search keeps_rules
    Keeps-hosts_of r (some ip) = search Keeps-write_private_hosts_file

    pub Keeps-write_hosts_for : (rs : List SandboxRecord) → Keeps P (write_hosts_for host paths rs)
    unfolding write_hosts_for
    Keeps-write_hosts_for [] = search keeps_rules
    Keeps-write_hosts_for (r ∷ rs) =
        Keeps-bind _ _ (search (keeps_rules, Keeps-hosts_of)) (λ u. Keeps-write_hosts_for rs)

    pub Keeps-refresh_private_hosts : Keeps P (refresh_private_hosts host paths)
    unfolding refresh_private_hosts
    Keeps-refresh_private_hosts = search (base_rules, Keeps-write_hosts_for)

  -- An event keeps what its statement keeps.
  pub Keeps-emit_event :
      (owner : Option String) (kind : String) (details : Json)
      → ((st : Stamp) (text : String) (db : Db)
          → P db
          → P (Resources.emit_event st owner kind text db))
      → Keeps P (emit host owner kind details)
  unfolding emit
  Keeps-emit_event owner kind details k =
      Keeps-bind _ _ (search keeps_rules) (λ text. Keeps-exec host _ (λ st db. k st text db))

pub ruleset call_rules = (
  base_rules, Keeps-stop_pid, Keeps-process_alive, Keeps-health_check, Keeps-manifest_from_record,
  Keeps-load_service, Keeps-service_secret_env, Keeps-sandbox_runtime_env, Keeps-load_manifest,
  Keeps-refresh_linux_network_policies, Keeps-stop_if_idle, Keeps-write_private_hosts_file,
  Keeps-refresh_private_hosts,
)

module _ (host : Host) {P : Db → Type 0} where
  pub Keeps-stop_process : (pid : Option ℕ) → Keeps P (stop_process host pid)
  unfolding stop_process
  Keeps-stop_process none = search keeps_rules
  Keeps-stop_process (some pid) = search Keeps-stop_pid

  pub Keeps-settle : (paths : StatePaths) → Keeps P (settle host paths)
  unfolding settle
  Keeps-settle paths = search call_rules

  pub Keeps-kill_process : (pid : Option ℕ) → Keeps P (kill_process host pid)
  unfolding kill_process
  Keeps-kill_process none = search keeps_rules
  Keeps-kill_process (some pid) = search call_rules

  pub Keeps-cleanup_existing :
      (service : String) (r : Option SandboxRecord) → Keeps P (cleanup_existing host service r)
  unfolding cleanup_existing
  Keeps-cleanup_existing service none = search keeps_rules
  Keeps-cleanup_existing service (some r) = search call_rules
