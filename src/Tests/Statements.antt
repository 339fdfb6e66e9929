-- ===== src/Tests/Statements.antt =====
-- The statements of rust/src/state.rs and the checks of rust/src/manifest.rs on concrete rows, and the theorems on
-- them.
use megaserver.Common.{
  ℕ, zero, suc, ◌≡◌, ◌↔◌, refl, true, false, ◌&&◌, none, some, List, [], ◌∷◌, ◌++◌, ◌==◌, all,
  if◌then◌else◌,
}
use megaserver.Common.Texts.{decimal}
use megaserver.Result.{ok}
use megaserver.Rows.{Stamp, upserted}
use megaserver.Ipv4.{Ipv4, show, parse}
use megaserver.Manifest.{check_manifest}
use megaserver.Manifest.Validity.{IsValidManifest, check_manifest-eq-ok_iff}
use megaserver.Model.{SandboxRecord}
use megaserver.State.{Db, empty_db}
use megaserver.State.WellFormed.{
  Write, Writes, IsWellFormed, IsWellFormed-empty_db, Writes-IsWellFormed,
}
use megaserver.State.Services.{upsert_service, delete_service, ServiceUpsert, insert_deployment}
use megaserver.State.Sandboxes.{sandbox_by_service, SandboxUpsert, list_sandboxes}
use megaserver.State.Resources.{secret_value, set_secret}
use megaserver.State.Projects.{ProjectUpsert}
use megaserver.State.Upserts.{IsUpserted, upsert_service-IsUpserted}
use megaserver.State.Lookups.{secret_value-set_secret}
use megaserver.State.Deletion.{IsDeleted, delete_service-IsDeleted}
use megaserver.State.Ips.{
  allocated, exhausted, allocate_sandbox_ip, stored_ip, contains, used_addresses,
}
use megaserver.State.Ips.Laws.{
  RoundTrips, IsFree, allocate_sandbox_ip-IsFree, allocate_sandbox_ip-eq-exhausted_iff,
  allocate_sandbox_ip_first,
}
use megaserver.Tests.Systems.{manifest, host_ip, stamp, running_db, sandbox}

abbrev deployed : ServiceUpsert
deployed = record {
  service_name = "web";
  status = "deployed";
  app_path = "/srv/new";
  manifest_json = "manifest";
  plan_json = "plan";
  port = some 9090;
  health_path = none;
}

abbrev started : SandboxUpsert
started = record {
  service_name = "web";
  sandbox_id = "web-9";
  hostname = "web.sandbox.megaserver";
  ip_address = some "10.42.0.1";
  runtime_kind = "linux-namespace";
  isolation_mode = "full";
  status = "running";
  pid = some 9;
  cgroup_path = none;
}

abbrev imported : ProjectUpsert
imported = record {
  name = "shop";
  service_name = "web";
  source_kind = "path";
  source_ref = "/src";
  app_path = "/srv/app";
  manifest_json = "manifest";
}

-- Two statements on the empty database.
abbrev deployed_db : Db
deployed_db =
    insert_deployment stamp "web" "manifest" "plan" (upsert_service stamp deployed empty_db)

two-Writes : Writes empty_db deployed_db
two-Writes =
    Writes.next (Writes.next Writes.done (Write.upsert_service stamp deployed empty_db)) (
      Write.insert_deployment stamp "web" "manifest" "plan"
        (upsert_service stamp deployed empty_db))

Writes-IsWellFormed_example : IsWellFormed deployed_db
Writes-IsWellFormed_example = Writes-IsWellFormed two-Writes IsWellFormed-empty_db

upsert_service-IsUpserted_example :
    IsUpserted stamp deployed running_db (upsert_service stamp deployed running_db)
upsert_service-IsUpserted_example = upsert_service-IsUpserted stamp deployed running_db

secret_value-set_secret_example :
    secret_value (set_secret stamp "web" "TOKEN" "new" running_db) "web" "TOKEN" ≡ (
      if "web" == "web" && "TOKEN" == "TOKEN"
      then some "new"
      else secret_value running_db "web" "TOKEN")
secret_value-set_secret_example =
    secret_value-set_secret stamp "web" "TOKEN" "new" running_db "web" "TOKEN"

delete_service-IsDeleted_example : IsDeleted "web" running_db (delete_service "web" running_db)
delete_service-IsDeleted_example = delete_service-IsDeleted "web" running_db

-- The hosts of the bridge's subnet before the gateway, as far as two rows take them.
abbrev hosts : List Ipv4
hosts = host_ip 1 ∷ host_ip 2 ∷ host_ip 3 ∷ []

hosts-RoundTrips : RoundTrips hosts
unfolding parse show
hosts-RoundTrips = (refl, (refl, (refl, tt)))

no_stored_ip : stored_ip running_db "new" ≡ none
unfolding stored_ip sandbox_by_service megaserver.Rows.find
no_stored_ip = refl

third_is_free : allocate_sandbox_ip hosts running_db "new" ≡ allocated "10.42.0.3"
unfolding allocate_sandbox_ip parse show list_sandboxes megaserver.Rows.Order.order_by
    megaserver.Rows.find sandbox_by_service stored_ip used_addresses
third_is_free = refl

allocate_sandbox_ip-IsFree_example : IsFree running_db "10.42.0.3"
allocate_sandbox_ip-IsFree_example =
    allocate_sandbox_ip-IsFree hosts running_db "new" "10.42.0.3" hosts-RoundTrips no_stored_ip
      third_is_free

allocate_sandbox_ip-eq-exhausted_iff_example :
    (allocate_sandbox_ip hosts running_db "new" ≡ exhausted) ↔ (
      (stored_ip running_db "new" ≡ none)
      × (all (contains (used_addresses (list_sandboxes running_db))) hosts ≡ true))
allocate_sandbox_ip-eq-exhausted_iff_example =
    allocate_sandbox_ip-eq-exhausted_iff hosts running_db "new"

check_manifest-eq-ok_iff_example :
    (check_manifest (λ text. true) manifest ≡ ok manifest)
    ↔ ((manifest ≡ manifest) × IsValidManifest (λ text. true) manifest)
check_manifest-eq-ok_iff_example = check_manifest-eq-ok_iff (λ text. true) manifest manifest

-- Every address below the bridge's is a sandbox's.
abbrev hosts_below : ℕ → List Ipv4
hosts_below zero = []
hosts_below (suc n) = hosts_below n ++ host_ip (suc n) ∷ []

abbrev crowded_rows : ℕ → List SandboxRecord
crowded_rows zero = []
crowded_rows (suc n) =
    sandbox (suc n) (decimal (suc n)) "running" (some 7) (some (show (host_ip (suc n))))
    ∷ crowded_rows n

abbrev crowded_db : Db
crowded_db = record empty_db { sandboxes = record { rows = crowded_rows 253; seq = 253 } }

crowded_stored_ip : stored_ip crowded_db "new" ≡ none
unfolding stored_ip sandbox_by_service megaserver.Rows.find decimal show
crowded_stored_ip = refl

crowded_taken : all (contains (used_addresses (list_sandboxes crowded_db))) (hosts_below 253) ≡ true
unfolding used_addresses list_sandboxes megaserver.Rows.Order.order_by parse show decimal
crowded_taken = refl

gateway_is_free : contains (used_addresses (list_sandboxes crowded_db)) (host_ip 254) ≡ false
unfolding used_addresses list_sandboxes megaserver.Rows.Order.order_by parse show decimal
gateway_is_free = refl

allocate_sandbox_ip_first_example :
    allocate_sandbox_ip (hosts_below 253 ++ host_ip 254 ∷ []) crowded_db "new"
    ≡ allocated (show (host_ip 254))
allocate_sandbox_ip_first_example =
    allocate_sandbox_ip_first (hosts_below 253) (host_ip 254) [] crowded_db "new" crowded_stored_ip
      crowded_taken gateway_is_free
