-- ===== src/App/Succeeding/Volumes.antt =====
-- The volumes of a start in rust/src/app.rs are there on a cooperative host.
use mathlib.Core.Path.{subst}
use megaserver.Common.{String, some, List, [], ◌∷◌, eq_refl}
use megaserver.Rows.{Stamp}
use megaserver.Paths.{StatePaths}
use megaserver.Manifest.{ServiceManifest}
use megaserver.State.{Db}
use megaserver.State.Resources.{upsert_volume, volume_by_name}
use megaserver.State.Lookups.{volume_by_name-upsert_volume}
use megaserver.Exec.Rules.{keeps_rules}
use megaserver.Exec.Successes.{
  Succeeds, Succeeds-pure, Succeeds-bind, Succeeds-bind_kept, Succeeds-or_error, Succeeds-if,
  success_rules, IsThere,
}
use megaserver.Host.{Host}
use megaserver.App.Support.{
  ensure_volume, volume_env_from, service_volume_env, volume_mounts_from, service_volume_mounts,
}
use megaserver.App.Constraints.Reads.{base_rules}
use megaserver.App.Constraints.OfService.{Keeps-ensure_volume}
use megaserver.App.Stopping.{Gives-query, Gives-exec}
use megaserver.App.Succeeding.{IsCooperative}
use megaserver.App.Succeeding.Calls.{Succeeds-open_db, Succeeds-query, Succeeds-exec, Succeeds-must}

-- The volumes of a service.
module _ (host : Host) (able : IsCooperative host) (paths : StatePaths) (service : String)
    {P : Db → Type 0}
    (kept : (st : Stamp) (name path : String) (db : Db)
      → P db
      → P (upsert_volume st (some service) name path db)) where
  volume-IsThere :
      (st : Stamp) (name path : String) (db : Db)
      → IsThere (volume_by_name (upsert_volume st (some service) name path db) name)
  volume-IsThere st name path db = rw (volume_by_name-upsert_volume, eq_refl) tt

  Succeeds-ensure_volume :
      (volume : String) → Succeeds P (ensure_volume host paths (some service) volume)
  unfolding ensure_volume
  Succeeds-ensure_volume volume =
      Succeeds-bind_kept _ _ (Succeeds-must _ _ (able.created _)) (search base_rules) λ u.
        Succeeds-bind _ _ (Succeeds-exec host able _)
          (Gives-exec host _ (λ st db h. volume-IsThere st volume _ db))
          λ v.
            Succeeds-bind _ _ (Succeeds-query host able _) (Gives-query host _)
              λ found. Succeeds-or_error found _ (λ db h. subst IsThere h.1 h.0)

  Succeeds-volume_env_from :
      (volumes : List String) (vars : List (String × String))
      → Succeeds P (volume_env_from host paths service vars volumes)
  unfolding volume_env_from
  Succeeds-volume_env_from [] vars = search success_rules
  Succeeds-volume_env_from (volume ∷ volumes) vars =
      Succeeds-bind_kept _ _ (Succeeds-ensure_volume volume)
        (Keeps-ensure_volume host service kept paths volume)
        λ row.
          Succeeds-bind_kept _ _ (search success_rules) (search keeps_rules)
            λ isolated. Succeeds-volume_env_from volumes _

  pub Succeeds-service_volume_env :
      (m : ServiceManifest) → Succeeds P (service_volume_env host paths service m)
  unfolding service_volume_env
  Succeeds-service_volume_env m =
      Succeeds-bind_kept _ _ (Succeeds-open_db host able) (search base_rules)
        λ u. Succeeds-volume_env_from m.volumes []

  Succeeds-volume_mounts_from :
      (volumes : List String) (mounts : List (String × String))
      → Succeeds P (volume_mounts_from host paths service mounts volumes)
  unfolding volume_mounts_from
  Succeeds-volume_mounts_from [] mounts = search success_rules
  Succeeds-volume_mounts_from (volume ∷ volumes) mounts =
      Succeeds-bind_kept _ _ (Succeeds-ensure_volume volume)
        (Keeps-ensure_volume host service kept paths volume)
        λ row. Succeeds-volume_mounts_from volumes _

  pub Succeeds-service_volume_mounts :
      (m : ServiceManifest) → Succeeds P (service_volume_mounts host paths service m)
  unfolding service_volume_mounts
  Succeeds-service_volume_mounts m =
      Succeeds-bind_kept _ _ (Succeeds-open_db host able) (search base_rules) λ u.
        Succeeds-bind_kept _ _ (search success_rules) (search keeps_rules) λ isolated.
          Succeeds-if _ _ _ (Succeeds-volume_mounts_from m.volumes []) (Succeeds-pure [])
