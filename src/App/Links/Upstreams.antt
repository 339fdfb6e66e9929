-- ===== src/App/Links/Upstreams.antt =====
-- A link that rust/src/app.rs signed leads, at the ingress of rust/src/host_abi.rs, to its service and target.
use mathlib.Core.Path.{subst}
use megaserver.Common.{
  length, ap, ◌∙◌, sym, refl, ℕ, ◌≤◌, String, ◌≡◌, ◌≢◌, ◌⊎◌, inl, inr, Bool, true, false, Option,
  none, some, List, [], arith, eq_iff,
}
use megaserver.Result.{Result, ok, err, or_error, ok-injective}
use megaserver.Rows.{Stamp}
use megaserver.Model.{ServiceRecord, SandboxRecord, RouteRecord}
use megaserver.State.{Db}
use megaserver.State.Services.{service_by_name, list_routes}
use megaserver.State.Sandboxes.{sandbox_by_service}
use megaserver.State.Resources.{secret_value, emit_event}
use megaserver.Ingress.{
  LinkError, SignedLink, link_pairs, signed_link, signed_path, resolve_signed_target, expiry_of,
}
use megaserver.Ingress.Signing.{IsSigned, signed_link-IsSigned, resolve_signed_target-signed_link}
use megaserver.Exec.{AppError, Sys, missing_signing_key}
use megaserver.Exec.Rules.{Keeps, keeps_rules}
use megaserver.Exec.Outcomes.{
  Gives, Gives-bind, Gives-Keeps, Gives-weaken, Gives-lift, Gives-pure, OnReturn,
}
use megaserver.Exec.Successes.{
  HasReturned, Returns, Returns-bind, Returns-pure, Returns-pull, Returns-read, Returns-bind_known,
  Returns-lift, Returns-call,
}
use megaserver.Host.{Host}
use megaserver.Host.Database.{check_engine, open_db, query}
use megaserver.App.Links.{
  Upstream, signed_link_value, ingress_resolve_value, link_outcome, route_of, service_target_host,
  check_exposed, check_available, upstream_path, signed_upstream_path, signing_key, filled_query,
}
use megaserver.App.Constraints.{Keeps-open_db, Keeps-query}
use megaserver.App.Constraints.Reads.{Keeps-emit_event}
use megaserver.App.Stopping.{Gives-query}

module _ (host : Host) (service domain target : String) (expires_in : ℕ) (scheme : String) where
  open host use {hmac, write_form}

  -- The link was signed at some time with the secret of the service.
  abbrev pub IsSignedBy : String → SignedLink → Type 0
  IsSignedBy secret link =
      (now : ℕ) × (signed_link now hmac write_form scheme domain service target expires_in secret
        ≡ ok link)

  outcome_link :
      (r : Result LinkError SignedLink) (link : SignedLink) → link_outcome r ≡ ok link → r ≡ ok link
  outcome_link (ok a) link h = ap ok (ok-injective a link h)
  outcome_link (err e) link h = absurd (ground (arith, h))

  Keeps-check_exposed :
      {P : Db → Type 0} (exposed : Bool) → Keeps P (check_exposed host service domain exposed)
  unfolding check_exposed
  Keeps-check_exposed true = search keeps_rules
  Keeps-check_exposed false = search keeps_rules

  same_secret :
      (value found : Option String) (secret secret' : String)
      → value ≡ some secret
      → value ≡ found
      → or_error found (missing_signing_key service) ≡ ok secret'
      → secret' ≡ secret
  same_secret value found secret secret' e f g = grind (arith, e, f, g)

  secret_value-emit_event :
      (st : Stamp) (kind text : String) (db : Db)
      → secret_value (emit_event st (some service) kind text db) service signing_key
        ≡ secret_value db service signing_key
  unfolding emit_event secret_value
  secret_value-emit_event st kind text db = refl

  Gives-signed_link_value :
      (secret : String)
      → Gives
          (λ db. secret_value db service signing_key ≡ some secret)
          (signed_link_value host service domain target expires_in scheme)
          (λ link db. (secret_value db service signing_key ≡ some secret) × IsSignedBy secret link)
  unfolding signed_link_value
  Gives-signed_link_value secret = Gives-bind _ _ (Gives-Keeps _ (Keeps-open_db host)) λ u.
      Gives-bind _ _ (Gives-Keeps _ (Keeps-query host _)) λ rows.
        Gives-bind _ _ (Gives-Keeps _ (Keeps-check_exposed _)) λ v.
          Gives-bind _ _ (Gives-query host _) λ found. Gives-bind _ _ (Gives-lift _) λ secret'.
            Gives-bind _ _ (Gives-Keeps _ (search keeps_rules)) λ now.
              Gives-bind _ _
                (Gives-weaken _
                  (λ link db h. (
                    h.0.0.0,
                    (
                      now,
                      subst
                          (λ x.
                            signed_link now hmac write_form scheme domain service target expires_in
                              x
                            ≡ ok link)
                          (same_secret _ found secret secret' h.0.0.0 h.0.0.1 h.0.1)
                          (outcome_link _ link h.1),
                    ),
                  ))
                  (Gives-lift (
                    link_outcome (
                      signed_link now hmac write_form scheme domain service target expires_in
                        secret'))))
                λ link.
                  Gives-bind _ _
                    (Gives-Keeps _ (
                      Keeps-emit_event host (some service) _ _
                        (λ st text db h. (secret_value-emit_event st _ text db ∙ h.0, h.1))))
                    λ w. Gives-pure link (λ db h. h)

-- The rows that a request for the domain meets: its route, the service with its sandbox, and its secret.
abbrev pub IsServed :
    String → RouteRecord → ServiceRecord → Option SandboxRecord → String → Db → Type 0
IsServed domain route r sandbox secret db =
    (route_of domain (list_routes db none) ≡ some route)
    × (service_by_name db route.service_name ≡ some r)
    × (sandbox_by_service db route.service_name ≡ sandbox)
    × (secret_value db route.service_name signing_key ≡ some secret)

abbrev pub IsAvailable : String → Type 0
IsAvailable status = (status ≡ "healthy") ⊎ (status ≡ "degraded")

-- The upstream is this service at its own host and port, with this path.
abbrev pub LeadsTo :
    RouteRecord → ServiceRecord → Option SandboxRecord → ℕ → String → Upstream → Type 0
LeadsTo route r sandbox port path u =
    (u.service ≡ route.service_name)
    × (u.service_status ≡ r.status)
    × (u.upstream_host ≡ service_target_host sandbox)
    × (u.upstream_port ≡ port)
    × (u.upstream_path ≡ path)

module _ (host : Host) (accepted : (w : Host.World host) → (Host.refuses host w).0 ≡ false) where
  open host use {hmac, write_form, parse_form, epoch_seconds, World}

  Returns-check_engine :
      {P : Db → Type 0} (what : String) (b : Bool)
      → b ≡ false
      → Returns P (check_engine host what b) (λ u. P)
  unfolding check_engine
  Returns-check_engine what true e = absurd (ground arith)
  Returns-check_engine what false e = Returns-pure tt (λ db h. h)

  Returns-open_db : {P : Db → Type 0} → Returns P (open_db host) (λ u. P)
  unfolding open_db
  Returns-open_db =
      Returns-bind _ _ (Returns-call {V = λ b. b ≡ false} _ accepted)
        (λ b. Returns-pull _ (Returns-check_engine "database" b))

  Returns-asked :
      {P : Db → Type 0} {A : Type 0} {Q : A → Db → Type 0} (f : Db → A)
      → ((db : Db) → P db → Q (f db) db)
      → Returns P (query host f) Q
  unfolding query
  Returns-asked f k = Returns-bind _ _ Returns-open_db (λ u. Returns-read f k)

  Returns-query :
      {P : Db → Type 0} {A : Type 0} (f : Db → A) (a : A)
      → ((db : Db) → P db → f db ≡ a)
      → Returns P (query host f) (λ x db. P db × (x ≡ a))
  Returns-query f a known = Returns-asked f (λ db h. (h, known db h))

  Returns-check_available :
      {P : Db → Type 0} (status : String)
      → IsAvailable status
      → Returns P (check_available host status) (λ u. P)
  unfolding check_available
  Returns-check_available status (inl e) = rw e (Returns-pure tt (λ db h. h))
  Returns-check_available status (inr e) = rw e (Returns-pure tt (λ db h. h))

  module _ (domain target scheme secret : String) (expires_in : ℕ) (link : SignedLink)
      (route : RouteRecord) (r : ServiceRecord) (sandbox : Option SandboxRecord) (port : ℕ) where
    Returns-signed_upstream_path :
        ((now : ℕ)
          → now ≤ link.expires_at
          → resolve_signed_target now hmac parse_form secret domain route.service_name
              (some link.query)
            ≡ ok target)
        → ((w : World) → (epoch_seconds w).0 ≤ link.expires_at)
        → Returns
            (IsServed domain route r sandbox secret)
            (signed_upstream_path host domain route.service_name (some link.query))
            (λ x db. IsServed domain route r sandbox secret db × (x ≡ target))
    unfolding signed_upstream_path
    Returns-signed_upstream_path resolves current =
        Returns-bind_known (some secret) _ _ (Returns-query _ _ (λ db h. h.3)) (
          Returns-bind_known secret _ _ (Returns-lift _ _ refl) (
            Returns-bind _ _ (Returns-call {V = λ now. now ≤ link.expires_at} _ current) λ now.
              Returns-pull _ λ early. Returns-lift _ _ (ap link_outcome (resolves now early))))

    Returns-upstream_path :
        ((now : ℕ)
          → now ≤ link.expires_at
          → resolve_signed_target now hmac parse_form secret domain route.service_name
              (some link.query)
            ≡ ok target)
        → ((w : World) → (epoch_seconds w).0 ≤ link.expires_at)
        → link.query ≢ ""
        → Returns
            (IsServed domain route r sandbox secret)
            (upstream_path host domain route.service_name signed_path
              (filled_query (some link.query)))
            (λ x db. IsServed domain route r sandbox secret db × (x ≡ target))
    unfolding upstream_path
    Returns-upstream_path resolves current filled =
        rw (unfiltered filled) (Returns-signed_upstream_path resolves current)
      where
        unfiltered : link.query ≢ "" → filled_query (some link.query) ≡ some link.query
        unfiltered filled = ground (arith, eq_iff link.query "")

    Returns-ingress_resolve_value :
        route.port ≡ some port
        → IsAvailable r.status
        → Returns
            (IsServed domain route r sandbox secret)
            (upstream_path host domain route.service_name signed_path
              (filled_query (some link.query)))
            (λ x db. IsServed domain route r sandbox secret db × (x ≡ target))
        → Returns
            (IsServed domain route r sandbox secret)
            (ingress_resolve_value host domain signed_path (some link.query))
            (λ u db. LeadsTo route r sandbox port target u)
    unfolding ingress_resolve_value
    Returns-ingress_resolve_value ported available resolved = Returns-bind _ _ Returns-open_db λ u.
        Returns-bind _ _ (Returns-rows) λ rows. Returns-pull _ λ found.
          Returns-bind_known route _ _ (Returns-lift _ _ (rw found refl)) (
            Returns-bind_known (some r) _ _ (Returns-query _ _ (λ db h. h.1)) (
              Returns-bind_known r _ _ (Returns-lift _ _ refl) (
                Returns-bind _ _ (Returns-check_available r.status available) λ v.
                  Returns-bind_known sandbox _ _ (Returns-query _ _ (λ db h. h.2)) (
                    Returns-bind_known port _ _ (Returns-lift _ _ (rw ported refl)) (
                      Returns-bind_known target _ _ resolved
                        (Returns-pure _ (λ db h. (refl, refl, refl, refl, refl))))))))
      where
        Returns-rows :
            Returns
              (IsServed domain route r sandbox secret)
              (query host (λ db. list_routes db none))
              (λ rows db.
                IsServed domain route r sandbox secret db × (route_of domain rows ≡ some route))
        Returns-rows = Returns-asked _ (λ db h. (h, h.0))

module _ {W A : Type 0} where
  OnReturn-ok :
      (Q : A → Db → Type 0) (run : Result AppError A × Sys W) (a : A)
      → OnReturn Q run
      → run.0 ≡ ok a
      → Q a run.1.db
  OnReturn-ok Q (ok b, s) a h e = subst (λ x. Q x s.db) (ok-injective b a e) h
  OnReturn-ok Q (err x, s) a h e = absurd (ground (arith, e))

-- A link that was signed for a domain of a service leads there until it expires. Where the route is the first that is
-- found for the domain and has a port, the service is healthy or degraded, the secret has not changed since, and the
-- parser of query texts reads back what the writer wrote and nothing in an empty text, the ingress answers a request for the link's query with the service, its own host and port, and the
-- target as the path. The database engine refuses nothing, and the clock is not past the expiry.
pub ingress_resolve_value-signed_link_value :
    (host : Host) (domain target scheme secret : String) (expires_in : ℕ) (link : SignedLink)
    (route : RouteRecord) (r : ServiceRecord) (sandbox : Option SandboxRecord) (port : ℕ)
    (s later : Sys (Host.World host))
    → ((w : Host.World host) → (Host.refuses host w).0 ≡ false)
    → ((pairs : List (String × String)) → Host.parse_form host (Host.write_form host pairs) ≡ pairs)
    → Host.parse_form host "" ≡ []
    → ((w : Host.World host) → (Host.epoch_seconds host w).0 ≤ link.expires_at)
    → secret_value s.db route.service_name signing_key ≡ some secret
    → (signed_link_value host route.service_name domain target expires_in scheme s).0 ≡ ok link
    → IsServed domain route r sandbox secret later.db
    → route.port ≡ some port
    → IsAvailable r.status
    → HasReturned
        (λ u db. LeadsTo route r sandbox port target u)
        (ingress_resolve_value host domain signed_path (some link.query) later)
ingress_resolve_value-signed_link_value host domain target scheme secret expires_in link route r
      sandbox port s later accepted reads empty current keyed signed served ported available =
    (Returns-ingress_resolve_value host accepted domain target scheme secret expires_in link route r
        sandbox port ported available
        (Returns-upstream_path host accepted domain target scheme secret expires_in link route r
          sandbox port resolves current filled)).at
      later served
  where
    by : IsSignedBy host route.service_name domain target expires_in scheme secret link
    by =
        (OnReturn-ok
          (λ link db.
            (secret_value db route.service_name signing_key ≡ some secret)
            × IsSignedBy host route.service_name domain target expires_in scheme secret link)
          (signed_link_value host route.service_name domain target expires_in scheme s) link
          ((Gives-signed_link_value host route.service_name domain target expires_in scheme
              secret).at
            s keyed)
          signed).1

    facts :
        IsSigned by.0
          (Host.hmac host)
          (Host.write_form host)
          domain
          route.service_name
          target
          expires_in
          secret
          link
    facts =
        signed_link-IsSigned by.0 (Host.hmac host) (Host.write_form host) scheme domain
          route.service_name target expires_in secret link by.1

    resolves :
        (now : ℕ)
        → now ≤ link.expires_at
        → resolve_signed_target now
            (Host.hmac host)
            (Host.parse_form host)
            secret
            domain
            route.service_name
            (some link.query)
          ≡ ok target
    resolves now early =
        resolve_signed_target-signed_link by.0 now (Host.hmac host) (Host.write_form host)
          (Host.parse_form host) scheme domain route.service_name target expires_in secret link
          reads by.1 (subst (λ x. now ≤ x) facts.dated early)

    filled : link.query ≢ ""
    filled blank = absurd (
        omega (
          arith,
          ap length (
              sym empty
              ∙ ap (Host.parse_form host) (sym blank ∙ facts.written)
              ∙ reads (link_pairs target (expiry_of by.0 expires_in) facts.signature)),
        ))
