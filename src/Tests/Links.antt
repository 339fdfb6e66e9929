-- ===== src/Tests/Links.antt =====
-- A signed link of rust/src/ingress.rs, and the theorem on it.
use Prim.Native.Char.{Char, code}
use megaserver.Common.{
  ℕ, ◌≤◌, String, ◌≡◌, ◌∙◌, ◌↔◌, refl, ap, inl, Option, none, some, List, [], ◌∷◌, false, nat_eq,
  arith, if◌then◌else◌,
}
use megaserver.Result.{ok, err}
use megaserver.State.{Db}
use megaserver.State.Services.{service_by_name, list_routes}
use megaserver.State.Sandboxes.{sandbox_by_service}
use megaserver.State.Resources.{secret_value}
use megaserver.Model.{RouteRecord}
use megaserver.Ingress.{
  SignedLink, parse_u64, param, signature_payload, expired, signature_mismatch,
  resolve_signed_target, signed_link, link_of, link_pairs, expiry_of, signed_path,
}
use megaserver.Ingress.Links.{IsValidLink, resolve_signed_target-eq-ok_iff}
use megaserver.Ingress.Signing.{resolve_signed_target-signed_link}
use megaserver.Exec.{Sys}
use megaserver.Exec.Successes.{HasReturned}
use megaserver.Host.{Host}
use megaserver.App.Links.{signed_link_value, ingress_resolve_value, route_of}
use megaserver.App.Links.Upstreams.{LeadsTo, ingress_resolve_value-signed_link_value}
use megaserver.Tests.Systems.{host, running_db, service, sandbox}

abbrev hmac : String → String → Option String
hmac key payload = some payload

abbrev params : String → List (String × String)
params text =
    ("target", "/report") ∷ ("exp", "1700") ∷ ("sig", "web.example\nweb\n/report\n1700") ∷ []

link_tests :
    (resolve_signed_target 1000 hmac params "key" "web.example" "web" (some "query") ≡ ok "/report")
    × (resolve_signed_target 1701 hmac params "key" "web.example" "web" (some "query")
        ≡ err expired)
    × (resolve_signed_target 1000 hmac params "key" "web.example" "api" (some "query")
        ≡ err signature_mismatch)
    × (parse_u64 "18446744073709551615" ≡ some 18446744073709551615)
    × (parse_u64 "18446744073709551616" ≡ none)
unfolding resolve_signed_target param parse_u64 signature_payload megaserver.Common.Texts.decimal
link_tests = (refl, refl, refl, refl, refl)

resolve_signed_target-eq-ok_iff_example :
    (resolve_signed_target 1000 hmac params "key" "web.example" "web" (some "query") ≡ ok "/report")
    ↔ IsValidLink 1000 hmac "key" "web.example" "web" "/report" (params "query")
resolve_signed_target-eq-ok_iff_example =
    resolve_signed_target-eq-ok_iff 1000 hmac params "key" "web.example" "web" "query" "/report"

-- A query text that says each text's characters after an `a` and its end with a `b`.
abbrev write_text : String → String → String
write_text String.[] rest = String.◌∷◌ "b" rest
write_text (String.◌∷◌ c s) rest = String.◌∷◌ "a" (String.◌∷◌ c (write_text s rest))

abbrev write_pairs : List (String × String) → String
write_pairs [] = ""
write_pairs ((k, v) ∷ pairs) = write_text k (write_text v (write_pairs pairs))

abbrev with_first : Char → List String → List String
with_first c [] = []
with_first c (s ∷ rest) = String.◌∷◌ c s ∷ rest

abbrev read_texts : String → List String
read_texts String.[] = []
read_texts (String.◌∷◌ t String.[]) = "" ∷ []
read_texts (String.◌∷◌ t (String.◌∷◌ c s)) =
    let after = read_texts (String.◌∷◌ c s) in
    let inside = read_texts s in if nat_eq (code t) b'b' then "" ∷ after else with_first c inside

abbrev pair_up : List String → List (String × String)
pair_up [] = []
pair_up (k ∷ []) = []
pair_up (k ∷ v ∷ rest) = (k, v) ∷ pair_up rest

abbrev read_pairs : String → List (String × String)
read_pairs text = pair_up (read_texts text)

read_texts-write_text : (s rest : String) → read_texts (write_text s rest) ≡ s ∷ read_texts rest
read_texts-write_text String.[] String.[] = refl
read_texts-write_text String.[] (String.◌∷◌ c rest) = refl
read_texts-write_text (String.◌∷◌ c s) rest = ap (with_first c) (read_texts-write_text s rest)

read_pairs-write_pairs : (pairs : List (String × String)) → read_pairs (write_pairs pairs) ≡ pairs
read_pairs-write_pairs [] = refl
read_pairs-write_pairs ((k, v) ∷ pairs) =
    ap pair_up (
      read_texts-write_text k (write_text v (write_pairs pairs))
      ∙ ap (λ l. k ∷ l) (read_texts-write_text v (write_pairs pairs)))
    ∙ ap (λ l. (k, v) ∷ l) (read_pairs-write_pairs pairs)

-- The link that is signed at second 1000 for 300 seconds.
abbrev link : SignedLink
link =
    link_of "https" "web.example" "web" "/report" 1300
      (write_pairs (link_pairs "/report" 1300 "web.example\nweb\n/report\n1300"))

signed : signed_link 1000 hmac write_pairs "https" "web.example" "web" "/report" 300 "key" ≡ ok link
unfolding signed_link signature_payload megaserver.Common.Texts.decimal
signed = refl

current : 1200 ≤ expiry_of 1000 300
current = ground arith

resolve_signed_target-signed_link_example :
    resolve_signed_target 1200 hmac read_pairs "key" "web.example" "web" (some link.query)
    ≡ ok "/report"
resolve_signed_target-signed_link_example =
    resolve_signed_target-signed_link 1000 1200 hmac write_pairs read_pairs "https" "web.example"
      "web" "/report" 300 "key" link read_pairs-write_pairs signed current

-- A host with these texts, and the database with a key.
abbrev linking : Host
linking = record (host false) { parse_form = read_pairs; write_form = write_pairs }

abbrev keyed_db : Db
keyed_db = record running_db {
  secrets = record {
    rows =
        record {
          id = 1;
          service_name = "web";
          key = "MEGASERVER_SIGNING_KEY";
          value = "key";
          created_at = "2026-01-01T00:00:00Z";
        }
        ∷ [];
    seq = 1;
  };
}

abbrev keyed : Sys (Unit {0})
keyed = record { db = keyed_db; world = tt }

abbrev route : RouteRecord
route = record {
  id = 1;
  service_name = "web";
  domain = "web.example";
  port = some 8080;
  created_at = "2026-01-01T00:00:00Z";
}

current_clock : 1000 ≤ 1300
current_clock = ground arith

link_signed :
    (signed_link_value linking "web" "web.example" "/report" 300 "https" keyed).0 ≡ ok link
unfolding signed_link_value megaserver.Exec.◌>>=◌ megaserver.Host.Database.open_db
    megaserver.Exec.call megaserver.Exec.pure megaserver.Host.Database.query megaserver.Exec.read
    list_routes megaserver.Rows.Order.order_by megaserver.Rows.where_key megaserver.Exec.lift
    secret_value megaserver.Rows.find signed_link megaserver.Host.Database.emit
    megaserver.Exec.write megaserver.Common.Texts.decimal signature_payload
link_signed = refl

ingress_resolve_value-signed_link_value_example :
    HasReturned
      (λ u db.
        LeadsTo route
          (service 1 "web" "healthy" (some 7))
          (some (sandbox 1 "web" "running" (some 7) (some "10.42.0.1")))
          8080
          "/report"
          u)
      (ingress_resolve_value linking "web.example" signed_path (some link.query) keyed)
unfolding secret_value service_by_name sandbox_by_service list_routes route_of megaserver.Rows.find
    megaserver.Rows.Order.order_by
ingress_resolve_value-signed_link_value_example =
    ingress_resolve_value-signed_link_value linking "web.example" "/report" "https" "key" 300 link
      route (service 1 "web" "healthy" (some 7))
      (some (sandbox 1 "web" "running" (some 7) (some "10.42.0.1"))) 8080 keyed keyed (λ w. refl)
      read_pairs-write_pairs refl (λ w. current_clock) refl link_signed (refl, refl, refl, refl)
      refl (inl refl)
