-- ===== src/App/Recorded.antt =====
-- What `set_secret_only` and `expose_value` of rust/src/app.rs have written when they return.
use megaserver.Common.{
  ℕ, ◌+◌, String, ◌≡◌, ◌∙◌, refl, sym, ap, false, ◌&&◌, Option, none, some, [], ◌∷◌, ◌++◌, ◌==◌,
  eq_refl, eq_iff, arith, Bool-cases, inl, inr,
}
use mathlib.Core.Path.{subst}
use mathlib.Core.Option.{none-ne-some}
use megaserver.Result.{or_error}
use megaserver.Rows.{Stamp}
use megaserver.Model.{ServiceRecord, RouteRecord}
use megaserver.State.{Db}
use megaserver.State.Services.{service_by_name, put_route, new_route}
use megaserver.State.Resources.{emit_event, secret_value, set_secret}
use megaserver.State.Lookups.{secret_value-set_secret}
use megaserver.Exec.{Sys, unknown_service}
use megaserver.Exec.Outcomes.{Gives-bind, Gives-Keeps, Gives-lift, Gives-pure, OnReturn}
use megaserver.Host.{Host}
use megaserver.App.Resources.{or_port, expose_value, set_secret_only}
use megaserver.App.Constraints.{Keeps-open_db}
use megaserver.App.Constraints.Reads.{Keeps-emit_event}
use megaserver.App.Stopping.{Gives-exec, Gives-query, found_service}

-- The pair has the value, and every other pair what it had.
abbrev pub IsStored : String → String → String → Db → Db → Type 0
IsStored service key value old db =
    (secret_value db service key ≡ some value)
    × ((j k : String) → ¬ ((service ≡ j) × (key ≡ k)) → secret_value db j k ≡ secret_value old j k)

-- One route more, of this domain, with the port that was asked for or else that of the service's row.
abbrev pub IsExposed : String → String → Option ℕ → Db → Db → Type 0
IsExposed service domain port old db =
    (r : ServiceRecord) × (service_by_name old service ≡ some r)
    × ((route : RouteRecord) × (db.routes.rows ≡ old.routes.rows ++ route ∷ [])
        × (route.service_name ≡ service)
        × (route.domain ≡ domain)
        × ((port ≡ none) → route.port ≡ r.port)
        × ((n : ℕ) → port ≡ some n → route.port ≡ some n))

set_secret-IsStored :
    (st : Stamp) (service key value : String) (db : Db)
    → IsStored service key value db (set_secret st service key value db)
set_secret-IsStored st service key value db = (
  rw (secret_value-set_secret, eq_refl service, eq_refl key) refl,
  (λ j k differs. rw (secret_value-set_secret, elsewhere j k differs) refl),
)
  where
    elsewhere : (j k : String) → ¬ ((service ≡ j) × (key ≡ k)) → (service == j && key == k) ≡ false
    elsewhere j k differs = elim (Bool-cases (service == j && key == k)) [
      | inl e ↦
          absurd (differs (ground (arith, e, eq_iff service j), ground (arith, e, eq_iff key k)))
      | inr e ↦ e
    ]

put_route-IsExposed :
    (st : Stamp) (service domain : String) (port : Option ℕ) (r : ServiceRecord) (old db : Db)
    → db ≡ old
    → service_by_name old service ≡ some r
    → IsExposed service domain port old (put_route st service domain (or_port port r.port) db)
unfolding put_route
put_route-IsExposed st service domain none r old db same found = (
  r,
  found,
  (
    new_route st service domain r.port (db.routes.seq + 1),
    ap (λ d. d.routes.rows ++ new_route st service domain r.port (db.routes.seq + 1) ∷ []) same,
    refl,
    refl,
    (λ e. refl),
    (λ n e. absurd (none-ne-some n e)),
  ),
)
put_route-IsExposed st service domain (some n) r old db same found = (
  r,
  found,
  (
    new_route st service domain (some n) (db.routes.seq + 1),
    ap (λ d. d.routes.rows ++ new_route st service domain (some n) (db.routes.seq + 1) ∷ []) same,
    refl,
    refl,
    (λ e. absurd (none-ne-some n (sym e))),
    (λ m e. e),
  ),
)

module _ (host : Host) where
  -- When `set_secret_only` returns, the service's secret of that key has the value, and every other secret of any service
  -- reads as before.
  pub set_secret_only-IsStored :
      (service key value : String) (s : Sys (Host.World host))
      → OnReturn (λ u. IsStored service key value s.db) (set_secret_only host service key value s)
  unfolding set_secret_only emit_event secret_value
  set_secret_only-IsStored service key value s =
      (Gives-bind _ _ (Gives-Keeps {P = λ db. db ≡ s.db} _ (Keeps-open_db host)) λ u.
          Gives-bind _ _
            (Gives-exec host {Q = λ u. IsStored service key value s.db} _ (λ st db same.
              subst (λ d. IsStored service key value d (set_secret st service key value db)) same
                (set_secret-IsStored st service key value db)))
            λ v. Gives-Keeps _ (Keeps-emit_event host _ _ _ (λ st text db h. h))).at
        s refl

  -- When `expose_value` returns, the service had a row, and there is one route more, of that service and domain, with the
  -- port that was asked for, or else the port of the row.
  pub expose_value-IsExposed :
      (service domain : String) (port : Option ℕ) (s : Sys (Host.World host))
      → OnReturn (λ u. IsExposed service domain port s.db) (expose_value host service domain port s)
  unfolding expose_value emit_event
  expose_value-IsExposed service domain port s =
      (Gives-bind _ _ (Gives-Keeps {P = λ db. db ≡ s.db} _ (Keeps-open_db host)) λ u.
          Gives-bind _ _ (Gives-query host (λ db. service_by_name db service)) λ found.
            Gives-bind _ _ (Gives-lift (or_error found (unknown_service service))) λ r.
              Gives-bind _ _
                (Gives-exec host {Q = λ u. IsExposed service domain port s.db} _ (λ st db h.
                  put_route-IsExposed st service domain port r s.db db h.0.0 (
                    ap (λ d. service_by_name d service) (sym h.0.0)
                    ∙ h.0.1
                    ∙ found_service host found service r h.1)))
                λ v.
                  Gives-bind _ _
                    (Gives-Keeps {P = IsExposed service domain port s.db} _
                      (Keeps-emit_event host _ _ _ (λ st text db h. h)))
                    λ w. Gives-pure _ (λ db h. h)).at
        s refl
