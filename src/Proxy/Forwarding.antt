-- ===== src/Proxy/Forwarding.antt =====
-- What `proxy_request` of rust/src/proxy.rs sends to the service and answers the client with.
use megaserver.Common.{ℕ, ◌≡◌, refl, String, true, false, none, some, List, [], ◌∷◌, ◌++◌, ◌==◌}
use megaserver.Common.Texts.{concat, decimal}
use megaserver.Common.Utf8.{bytes}
use megaserver.Result.{ok}
use megaserver.Json.{Json}
use megaserver.Control.{IngressQuery, ingress_payload}
use megaserver.Proxy.{
  Outside, ProxyPlan, Request, Response, UpstreamRequest, Reply, Bytes, HeaderMap, header_value,
  proxy_plan_from_value, text_headers, copy_headers, upstream_request, reply_of, forward,
  ingress_plan, proxy_request,
}
use megaserver.Proxy.Dropping.{IsDropList, without, kept_headers-without}

-- A plan over HTTP, with the names of the headers that it drops.
pub record IsHttpPlan (plan : ProxyPlan) (asked answered : String × List String) : Type 0 where
  pub kind : (plan.proxy_kind == "websocket") ≡ false
  pub request_list : IsDropList asked.0 asked.1 plan.drop_request_headers
  pub response_list : IsDropList answered.0 answered.1 plan.drop_response_headers

-- What the control plane is asked.
abbrev pub asked_of : Outside → String → Request → String → IngressQuery
asked_of out ingress_scheme request host = record {
  host = host;
  path = request.path;
  query = request.query;
  ingress_scheme = ingress_scheme;
  upgrade = header_value out request.headers "upgrade";
  connection = header_value out request.headers "connection";
  websocket_protocol = header_value out request.headers "sec-websocket-protocol";
}

abbrev pub sent : ProxyPlan → String × List String → String → HeaderMap → Bytes → UpstreamRequest
sent plan asked method headers body = record {
  method = method;
  target =
      concat (
        "http://"
        ∷ plan.upstream_host
        ∷ ":"
        ∷ decimal plan.upstream_port
        ∷ plan.upstream_path
        ∷ []);
  headers = without (asked.0 ∷ asked.1) headers ++ text_headers plan.set_request_headers;
  body = body;
}

abbrev pub answer : String × List String → ℕ → HeaderMap → Bytes → Reply
answer answered status headers content = record {
  status = status;
  headers = without (answered.0 ∷ answered.1) headers;
  body = content;
}

module _ (plan : ProxyPlan) (asked answered : String × List String)
    (http : IsHttpPlan plan asked answered) where
  upstream_request-sent :
      (method : String) (headers : HeaderMap) (body : Bytes)
      → upstream_request plan method headers body ≡ sent plan asked method headers body
  unfolding upstream_request copy_headers
  upstream_request-sent method headers body =
      rw (kept_headers-without asked.0 asked.1 plan.drop_request_headers headers http.request_list)
        refl

  reply_of-answer :
      (response : Response) (content : Bytes)
      → reply_of plan response content ≡ answer answered response.status response.headers content
  unfolding reply_of
  reply_of-answer response content =
      rw
        (kept_headers-without answered.0 answered.1 plan.drop_response_headers response.headers
          http.response_list)
        refl

  -- Where the answer of the control plane to a request is read as such a plan, the request's body arrives, and its method is one, the
  -- service is sent the method and the body at the plan's host, port and path, with the headers of the client that the
  -- plan does not name, in any case of their letters, and after them those that it sets; and where the service answers
  -- and the builder takes the parts, the client gets the status and the body of the answer with its headers that the
  -- plan does not name.
  pub proxy_request-answer :
      (out : Outside) (home ingress_scheme : String) (request : Request) (host method : String)
      (body content : Bytes) (response : Response) (value : Json)
      → header_value out request.headers "host" ≡ some host
      → out.dispatch_control (ingress_payload home (asked_of out ingress_scheme request host))
        ≡ ok value
      → proxy_plan_from_value out value ≡ ok plan
      → request.body ≡ some body
      → out.from_bytes (bytes request.method) ≡ some method
      → out.send (sent plan asked method request.headers body) ≡ some response
      → response.body ≡ some content
      → out.builds (answer answered response.status response.headers content) ≡ true
      → proxy_request out home ingress_scheme request
        ≡ (ok (answer answered response.status response.headers content), none)
  unfolding proxy_request ingress_plan forward
  proxy_request-answer out home ingress_scheme request host method body content response value
        has_host planned is_plan arrived known replied read built =
      rw
        (
          has_host,
          planned,
          is_plan,
          http.kind,
          arrived,
          known,
          upstream_request-sent method request.headers body,
          replied,
          read,
          reply_of-answer response content,
          built,
        )
        refl
