-- ===== src/App/Links.antt =====
-- `signed_link_value` of rust/src/app.rs, and `ingress_resolve_value` of rust/src/host_abi.rs, which finds where a request
-- of the ingress goes.
pub mod Upstreams
use megaserver.Common.{
  ℕ, String, Bool, true, false, not, ◌&&◌, ◌==◌, any, Option, none, some, List, [], ◌∷◌,
  if◌then◌else◌,
}
use megaserver.Common.Texts.{concat}
use megaserver.Result.{Result, ok, err, or_error}
use megaserver.Json.{object, str, num}
use megaserver.Model.{ServiceRecord, SandboxRecord, RouteRecord}
use megaserver.State.Services.{service_by_name, list_routes}
use megaserver.State.Sandboxes.{sandbox_by_service}
use megaserver.State.Resources.{secret_value}
use megaserver.Ingress.{LinkError, SignedLink, signed_link, signed_path, resolve_signed_target}
use megaserver.Exec.{
  AppError, bad_link, no_route, unknown_service, service_unavailable, missing_route_port,
  links_not_enabled, not_exposed, missing_signing_key, M, pure, raise, ◌>>=◌, ◌>>◌, call, lift,
}
use megaserver.Host.{Host}
use megaserver.Host.Database.{open_db, query, emit}

abbrev signing_key : String
signing_key = "MEGASERVER_SIGNING_KEY"

-- `?` on a result of rust/src/ingress.rs.
abbrev pub link_outcome : {A : Type 0} → Result LinkError A → Result AppError A
link_outcome (ok a) = ok a
link_outcome (err e) = err (bad_link e)

unfoldable pub service_target_host : Option SandboxRecord → String
service_target_host none = "127.0.0.1"
service_target_host (some b) =
    if b.runtime_kind == "linux-namespace"
    then (elim b.ip_address [ none ↦ "127.0.0.1" | some ip ↦ ip ])
    else "127.0.0.1"

-- `.find(|route| route.domain == host)`
unfoldable pub route_of : String → List RouteRecord → Option RouteRecord
route_of domain [] = none
route_of domain (r ∷ rs) =
    let later = route_of domain rs in if r.domain == domain then some r else later

-- `.filter(|value| !value.is_empty())`
abbrev pub filled_query : Option String → Option String
filled_query none = none
filled_query (some text) = if text == "" then none else some text

abbrev pub plain_path : String → Option String → String
plain_path path none = path
plain_path path (some query) = concat (path ∷ "?" ∷ query ∷ [])

pub record Upstream : Type 0 where
  pub service : String
  pub service_status : String
  pub upstream_host : String
  pub upstream_port : ℕ
  pub upstream_path : String

abbrev upstream_of : RouteRecord → ServiceRecord → Option SandboxRecord → ℕ → String → Upstream
upstream_of route r sandbox port path = record {
  service = route.service_name;
  service_status = r.status;
  upstream_host = service_target_host sandbox;
  upstream_port = port;
  upstream_path = path;
}

module _ (host : Host) where
  open host use {World, epoch_seconds, hmac, parse_form, write_form}

  unfoldable pub check_exposed : String → String → Bool → M World (Unit {0})
  check_exposed service domain true = pure tt
  check_exposed service domain false = raise (not_exposed service domain)

  unfoldable pub signed_link_value : String → String → String → ℕ → String → M World SignedLink
  unfolding check_exposed
  signed_link_value service domain target expires_in scheme = do
    open_db host
    rows ← query host (λ db. list_routes db (some service))
    check_exposed service domain (any (λ r. r.domain == domain) rows)
    found ← query host (λ db. secret_value db service signing_key)
    secret ← lift (or_error found (missing_signing_key service))
    now ← call epoch_seconds
    link ← lift (
        link_outcome
          (signed_link now hmac write_form scheme domain service target expires_in secret))
    emit host (some service) "route.signed_link.created" (
        object (
          ("domain", str domain)
          ∷ ("target", str target)
          ∷ ("expires_in", num expires_in)
          ∷ ("scheme", str scheme)
          ∷ []))
    pure link

  unfoldable pub signed_upstream_path : String → String → Option String → M World String
  signed_upstream_path domain service text = do
    found ← query host (λ db. secret_value db service signing_key)
    secret ← lift (or_error found links_not_enabled)
    now ← call epoch_seconds
    lift (link_outcome (resolve_signed_target now hmac parse_form secret domain service text))

  unfoldable pub upstream_path : String → String → String → Option String → M World String
  unfolding signed_upstream_path
  upstream_path domain service path text =
      if path == signed_path
      then signed_upstream_path domain service text
      else pure (plain_path path text)

  unfoldable pub check_available : String → M World (Unit {0})
  check_available status =
      if not (status == "healthy") && not (status == "degraded")
      then raise service_unavailable
      else pure tt

  unfoldable pub ingress_resolve_value : String → String → Option String → M World Upstream
  unfolding route_of check_available upstream_path service_target_host
  ingress_resolve_value domain path given = do
    open_db host
    rows ← query host (λ db. list_routes db none)
    route ← lift (or_error (route_of domain rows) (no_route domain))
    found ← query host (λ db. service_by_name db route.service_name)
    r ← lift (or_error found (unknown_service route.service_name))
    check_available r.status
    sandbox ← query host (λ db. sandbox_by_service db route.service_name)
    port ← lift (or_error route.port missing_route_port)
    target ← upstream_path domain route.service_name path (filled_query given)
    pure (upstream_of route r sandbox port target)
