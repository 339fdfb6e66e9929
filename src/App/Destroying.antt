-- ===== src/App/Destroying.antt =====
-- What `destroy_only` of rust/src/app.rs leaves behind when it returns.
use megaserver.Common.{String, ◌≡◌, ◌∙◌, refl, none, List, [], ◌∷◌, eq_refl}
use megaserver.Rows.{where_key, text_key}
use megaserver.Paths.{StatePaths}
use megaserver.State.{Db}
use megaserver.State.Services.{
  service_by_name, delete_service, delete_service_statements, run_statements, deployment_service,
  route_service, secret_service,
}
use megaserver.State.Sandboxes.{sandbox_by_service}
use megaserver.State.Deletion.{delete_service-IsDeleted}
use megaserver.Exec.Outcomes.{Gives, Gives-bind, Gives-pure, Gives-before, Gives-Keeps}
use megaserver.Host.{Host}
use megaserver.App.Stop.{destroy_only, run_deletes}
use megaserver.App.Constraints.Reads.{
  call_rules, Keeps-kill_process, Keeps-cleanup_existing, Keeps-settle, Keeps-emit_event,
}
use megaserver.App.Stopping.{Gives-exec}

-- No row of the service is left in the five tables that have its name, apart from events.
abbrev pub IsGone : String → Db → Type 0
IsGone service db =
    (service_by_name db service ≡ none)
    × (sandbox_by_service db service ≡ none)
    × (where_key deployment_service service db.deployments.rows ≡ [])
    × (where_key route_service service db.routes.rows ≡ [])
    × (where_key secret_service service db.secrets.rows ≡ [])

delete_service-IsGone : (service : String) (db : Db) → IsGone service (delete_service service db)
delete_service-IsGone service db =
    let d = delete_service-IsDeleted service db in
    (
      d.service service ∙ rw eq_refl refl,
      d.sandbox service ∙ rw eq_refl refl,
      d.deployments service ∙ rw eq_refl refl,
      d.routes service ∙ rw eq_refl refl,
      d.secrets service ∙ rw eq_refl refl,
    )

module _ (host : Host) where
  Gives-run_deletes :
      (service : String) (statements : List (String → Db → Db))
      → Gives
          (λ db. IsGone service (run_statements statements service db))
          (run_deletes host statements service)
          (λ u db. IsGone service db)
  unfolding run_deletes run_statements
  Gives-run_deletes service [] = Gives-pure tt (λ db h. h)
  Gives-run_deletes service (sql ∷ rest) =
      Gives-bind _ _ (Gives-exec host _ (λ st db h. h)) (λ u. Gives-run_deletes service rest)

  -- When `destroy_only` returns, no service row, sandbox row, deployment, route or secret of the service is left.
  pub destroy_only-IsGone :
      (paths : StatePaths) (service : String)
      → Gives (λ db. Unit {0}) (destroy_only host paths service) (λ u db. IsGone service db)
  unfolding destroy_only delete_service
  destroy_only-IsGone paths service = Gives-bind _ _ (Gives-Keeps _ (search call_rules)) λ r.
      Gives-bind _ _ (Gives-Keeps _ (Keeps-kill_process host r.pid)) λ u.
        Gives-bind _ _ (Gives-Keeps _ (search call_rules)) λ v.
          Gives-bind _ _ (Gives-Keeps _ (search call_rules)) λ o.
            Gives-bind _ _ (Gives-Keeps _ (Keeps-cleanup_existing host service o)) λ w.
              Gives-bind _ _ (Gives-Keeps _ (Keeps-emit_event host _ _ _ (λ st text db h. h))) λ x.
                Gives-bind _ _ (Gives-exec host {Q = λ e db. Unit {0}} _ (λ st db h. tt)) λ y.
                  Gives-bind _ _
                    (Gives-before _ (λ db h. delete_service-IsGone service db)
                      (Gives-run_deletes service delete_service_statements))
                    λ z. Gives-Keeps _ (search (call_rules, Keeps-settle) depth 9)
