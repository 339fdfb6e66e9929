-- ===== src/App/Succeeding/Refreshes.antt =====
-- The refreshing of firewall rules and hosts files in rust/src/app.rs returns on a cooperative host where the stored
-- manifests can be read.
use mathlib.Core.Option
use mathlib.Core.Option.{some-injective}
use mathlib.Core.Path.{subst}
use megaserver.Common.{
  ℕ, String, Bool, true, false, Option, none, some, List, [], ◌∷◌, ◌++◌, ◌≡◌, inr, refl, ◌==◌,
  if◌then◌else◌,
}
use megaserver.Rows.{Stamp}
use megaserver.Paths.{StatePaths}
use megaserver.Model.{ServiceRecord, SandboxRecord}
use megaserver.State.{Db}
use megaserver.State.Services.{service_by_name, update_service_status, with_status}
use megaserver.State.Sandboxes.{upsert_sandbox}
use megaserver.State.Resources.{emit_event, upsert_volume}
use megaserver.State.Lookups.{service_by_name-update_service_status}
use megaserver.Exec.Rules.{keeps_rules}
use megaserver.Exec.Successes.{
  Succeeds, Succeeds-pure, Succeeds-bind, Succeeds-bind_kept, Succeeds-or_error, Succeeds-if,
  success_rules, IsThere,
}
use megaserver.Host.{Host, SandboxNetworkPolicyBinding}
use megaserver.App.Support.{
  manifest_from_record, write_private_hosts_file, hosts_of, write_hosts_for, refresh_private_hosts,
}
use megaserver.App.Network.{
  binding_of_service, binding_of, bindings_from, apply_bindings, refresh_linux_network_policies,
  stop_sidecar, remove_sidecar, stop_if_idle,
}
use megaserver.App.Stop.{settle}
use megaserver.App.Constraints.Reads.{
  base_rules, call_rules, Keeps-bindings_from, Keeps-stop_sidecar, Keeps-binding_of, Keeps-hosts_of,
}
use megaserver.App.Constraints.OfService.{IsStableFor}
use megaserver.App.Stopping.{Gives-query}
use megaserver.App.Succeeding.{IsCooperative}
use megaserver.App.Succeeding.Calls.{
  Succeeds-open_db, Succeeds-query, Succeeds-must, Succeeds-must_excused, Succeeds-must_give,
  Succeeds-ignore,
}

-- The row's manifest can be read.
abbrev pub IsReadable : Host → Option ServiceRecord → Type 0
IsReadable host none = Unit
IsReadable host (some r) = IsThere (Host.decode_manifest host r.manifest_json)

abbrev pub AreReadable : Host → Db → Type 0
AreReadable host db = (j : String) → IsReadable host (service_by_name db j)

module _ (host : Host) where
  IsReadable-with_status :
      (st : Stamp) (status : String) (pid : Option ℕ) (o : Option ServiceRecord)
      → IsReadable host o
      → IsReadable host (Option.map (with_status st status pid) o)
  IsReadable-with_status st status pid none h = tt
  IsReadable-with_status st status pid (some r) h = h

  AreReadable-update_service_status :
      (st : Stamp) (name status : String) (pid : Option ℕ) (db : Db)
      → AreReadable host db
      → AreReadable host (update_service_status st name status pid db)
  AreReadable-update_service_status st name status pid db h j =
      rw service_by_name-update_service_status (marked (name == j))
    where
      marked :
          (b : Bool)
          → IsReadable host (
              if b
              then Option.map (with_status st status pid) (service_by_name db j)
              else service_by_name db j)
      marked true = IsReadable-with_status st status pid (service_by_name db j) (h j)
      marked false = h j

  -- What is done to a service leaves its manifest as it is.
  pub AreReadable-IsStableFor : (service : String) → IsStableFor service (AreReadable host)
  unfolding emit_event upsert_sandbox upsert_volume service_by_name
  AreReadable-IsStableFor service = record {
    event = λ st owner kind details db h. h;
    status = λ st status pid db. AreReadable-update_service_status st service status pid db;
    sandbox = λ st s db e h. h;
    volume = λ st name path db h. h;
  }

  pub Succeeds-manifest_from_record :
      {P : Db → Type 0} (r : ServiceRecord)
      → ((db : Db) → P db → IsReadable host (some r))
      → Succeeds P (manifest_from_record host r)
  unfolding manifest_from_record
  Succeeds-manifest_from_record r k = Succeeds-or_error _ _ k

module _ (host : Host) (able : IsCooperative host) where
  Succeeds-binding_of_service :
      (b : SandboxRecord) (ip : String) (found : Option ServiceRecord)
      → Succeeds
          (λ db. AreReadable host db × (service_by_name db b.service_name ≡ found))
          (binding_of_service host b ip found)
  unfolding binding_of_service
  Succeeds-binding_of_service b ip none = search success_rules
  Succeeds-binding_of_service b ip (some r) =
      Succeeds-bind_kept _ _
        (Succeeds-manifest_from_record host r
          (λ db h. subst (IsReadable host) h.1 (h.0 b.service_name)))
        (search call_rules) (λ m. search success_rules)

  Succeeds-binding_of :
      (b : SandboxRecord) (ip : Option String) → Succeeds (AreReadable host) (binding_of host b ip)
  unfolding binding_of
  Succeeds-binding_of b none = search success_rules
  Succeeds-binding_of b (some ip) =
      Succeeds-bind _ _ (Succeeds-query host able _) (Gives-query host _)
        (Succeeds-binding_of_service b ip)

  Succeeds-bindings_from :
      (found : List SandboxNetworkPolicyBinding) (rows : List SandboxRecord)
      → Succeeds (AreReadable host) (bindings_from host found rows)
  unfolding bindings_from
  Succeeds-bindings_from found [] = search success_rules
  Succeeds-bindings_from found (b ∷ rows) =
      Succeeds-bind_kept _ _
        (Succeeds-if _ _ _ (Succeeds-binding_of b b.ip_address) (Succeeds-pure []))
        (search (keeps_rules, Keeps-binding_of))
        (λ more. Succeeds-bindings_from (found ++ more) rows)

  Succeeds-apply_bindings :
      (isolated : Bool) → Succeeds (AreReadable host) (apply_bindings host isolated)
  unfolding apply_bindings
  Succeeds-apply_bindings false = search success_rules
  Succeeds-apply_bindings true =
      Succeeds-bind_kept _ _ (Succeeds-query host able _) (search base_rules) λ rows.
        Succeeds-bind_kept _ _ (Succeeds-bindings_from [] rows) (search Keeps-bindings_from)
          λ bindings. Succeeds-must_excused _ _ (inr refl)

  pub Succeeds-refresh_linux_network_policies :
      Succeeds (AreReadable host) (refresh_linux_network_policies host)
  unfolding refresh_linux_network_policies
  Succeeds-refresh_linux_network_policies =
      search (success_rules, keeps_rules, Succeeds-apply_bindings)

module _ (host : Host) (able : IsCooperative host) {P : Db → Type 0} where
  Succeeds-stop_sidecar : (pid : Option ℕ) → Succeeds P (stop_sidecar host pid)
  unfolding stop_sidecar
  Succeeds-stop_sidecar none = search success_rules
  Succeeds-stop_sidecar (some pid) = search (success_rules, call_rules)

  Succeeds-remove_sidecar : (used : Bool) → Succeeds P (remove_sidecar host used)
  unfolding remove_sidecar
  Succeeds-remove_sidecar true = search success_rules
  Succeeds-remove_sidecar false =
      Succeeds-bind_kept _ _ (Succeeds-must_give _ _ able.pid_read) (search base_rules) λ pid.
        Succeeds-bind_kept _ _ (Succeeds-stop_sidecar pid) (search Keeps-stop_sidecar)
          λ u. Succeeds-ignore _

  Succeeds-stop_if_idle : Succeeds P (stop_if_idle host)
  unfolding stop_if_idle
  Succeeds-stop_if_idle =
      Succeeds-bind_kept _ _ (Succeeds-open_db host able) (search base_rules) λ u.
        Succeeds-bind_kept _ _ (Succeeds-query host able _) (search base_rules)
          λ rows. Succeeds-remove_sidecar _

  module _ (paths : StatePaths) where
    pub Succeeds-write_private_hosts_file :
        (service hostname ip : String)
        → Succeeds P (write_private_hosts_file host paths service hostname ip)
    unfolding write_private_hosts_file
    Succeeds-write_private_hosts_file service hostname ip =
        Succeeds-bind_kept _ _ (Succeeds-must _ _ (able.created _)) (search base_rules)
          λ u. Succeeds-must _ _ (able.written _ _)

    Succeeds-hosts_of :
        (b : SandboxRecord) (ip : Option String) → Succeeds P (hosts_of host paths b ip)
    unfolding hosts_of
    Succeeds-hosts_of b none = search success_rules
    Succeeds-hosts_of b (some ip) = Succeeds-write_private_hosts_file _ _ ip

    Succeeds-write_hosts_for :
        (rows : List SandboxRecord) → Succeeds P (write_hosts_for host paths rows)
    unfolding write_hosts_for
    Succeeds-write_hosts_for [] = search success_rules
    Succeeds-write_hosts_for (b ∷ rows) =
        Succeeds-bind_kept _ _
          (Succeeds-if _ _ _ (Succeeds-pure tt) (Succeeds-hosts_of b b.ip_address))
          (search (keeps_rules, Keeps-hosts_of)) (λ u. Succeeds-write_hosts_for rows)

    pub Succeeds-refresh_private_hosts : Succeeds P (refresh_private_hosts host paths)
    unfolding refresh_private_hosts
    Succeeds-refresh_private_hosts =
        Succeeds-bind_kept _ _ (Succeeds-query host able _) (search base_rules)
          λ rows. Succeeds-write_hosts_for rows

module _ (host : Host) (able : IsCooperative host) where
  pub Succeeds-settle : (paths : StatePaths) → Succeeds (AreReadable host) (settle host paths)
  unfolding settle
  Succeeds-settle paths =
      Succeeds-bind_kept _ _ (Succeeds-refresh_linux_network_policies host able) (search call_rules)
        λ u.
          Succeeds-bind_kept _ _ (Succeeds-refresh_private_hosts host able paths)
            (search call_rules) λ v. Succeeds-stop_if_idle host able
