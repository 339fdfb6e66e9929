-- ===== src/Tests/Proxy.antt =====
-- An exchange through the reverse proxy, and the theorems on it.
use megaserver.Common.{◌≡◌, refl, true, false, none, some, [], ◌∷◌, arith}
use megaserver.Result.{ok, err}
use megaserver.Json.{object, str, num}
use megaserver.Proxy.{
  Outside, ProxyPlan, Request, Response, UpstreamRequest, Reply, Bytes, proxy_request,
  proxy_plan_from_value, header_is_dropped, websocket_accept_key,
}
use megaserver.Proxy.Plans.{plan_value, proxy_plan_from_value-plan_value}
use megaserver.Proxy.Forwarding.{IsHttpPlan, proxy_request-answer, answer}

abbrev plan : ProxyPlan
plan = record {
  proxy_kind = "http";
  upstream_host = "10.0.0.2";
  upstream_port = 8080;
  upstream_path = "/a";
  drop_request_headers = "connection,te";
  drop_response_headers = "connection,upgrade";
  set_request_headers = ("x-forwarded-host", "web.local") ∷ [];
  set_response_headers = [];
}

abbrev response : Response
response = record {
  status = 200;
  headers = ("Upgrade", 104 ∷ []) ∷ ("etag", 49 ∷ []) ∷ [];
  body = some (111 ∷ 107 ∷ []);
}

abbrev outside : Outside
outside = record {
  dispatch_control = λ request. ok (plan_value plan);
  from_u16 = λ n. some n;
  to_str = λ v. some "web.local";
  from_bytes = λ m. some "GET";
  send = λ request. some response;
  builds = λ reply. true;
  sha1 = λ b. b;
  base64 = λ b. "key";
}

abbrev request : Request
request = record {
  method = "GET";
  path = "/a";
  query = none;
  headers = ("host", []) ∷ ("te", []) ∷ [];
  body = some [];
}

plan-IsHttpPlan : IsHttpPlan plan ("connection", "te" ∷ []) ("connection", "upgrade" ∷ [])
plan-IsHttpPlan = record { kind = refl; request_list = (refl, refl); response_list = (refl, refl) }

proxy_plan_from_value-plan_value_example : proxy_plan_from_value outside (plan_value plan) ≡ ok plan
proxy_plan_from_value-plan_value_example =
    proxy_plan_from_value-plan_value outside plan (omega arith) tt tt

proxy_request-answer_example :
    proxy_request outside "/home" "http" request
    ≡ (ok (answer ("connection", "upgrade" ∷ []) 200 response.headers (111 ∷ 107 ∷ [])), none)
unfolding megaserver.Proxy.header_value proxy_plan_from_value megaserver.Proxy.read_plan
proxy_request-answer_example =
    proxy_request-answer plan ("connection", "te" ∷ []) ("connection", "upgrade" ∷ [])
      plan-IsHttpPlan outside "/home" "http" request "web.local" "GET" [] (111 ∷ 107 ∷ []) response
      (plan_value plan) refl refl refl refl refl refl refl refl

proxy_tests :
    (header_is_dropped "Te" "connection,te" ≡ true)
    × (header_is_dropped "e" "connection,te" ≡ false)
    × (proxy_plan_from_value outside
          (object (("status", str "error") ∷ ("http_status", num 404) ∷ []))
        ≡ err 404)
    × (proxy_plan_from_value outside (object (("status", str "ok") ∷ [])) ≡ err 502)
unfolding header_is_dropped proxy_plan_from_value megaserver.Proxy.read_plan
proxy_tests = (refl, refl, refl, refl)
