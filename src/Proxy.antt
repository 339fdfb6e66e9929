-- ===== src/Proxy.antt =====
-- rust/src/proxy.rs: the reverse proxy asks the control plane for a plan and forwards the request by it. What it calls of
-- hyper, reqwest, sha1 and base64, and the control plane itself, are the fields of `Outside`.
pub mod Plans
pub mod Dropping
pub mod Forwarding
use megaserver.Common.{
  ℕ, ◌^◌, String, Bool, true, false, not, Option, none, some, List, [], ◌∷◌, ◌++◌, ◌==◌, any,
  if◌then◌else◌,
}
use megaserver.Common.Texts.{codes, concat, decimal, split, eq_ignore_case}
use megaserver.Common.Utf8.{bytes}
use megaserver.Result.{Result, ok, err, or_error, ◌>>=◌}
use megaserver.Json.{Json, str, obj, Fields, end, field, get, as_str, as_u64}
use megaserver.Http.Actions.{as_u16, text_or}
use megaserver.Control.{Error, IngressQuery, ingress_payload}

abbrev pub Bytes : Type 0
Bytes = List ℕ

abbrev pub HeaderMap : Type 0
HeaderMap = List (String × Bytes)

abbrev pub bad_request : ℕ
bad_request = 400

abbrev pub internal_server_error : ℕ
internal_server_error = 500

abbrev pub bad_gateway : ℕ
bad_gateway = 502

pub record ProxyPlan : Type 0 where
  pub proxy_kind : String
  pub upstream_host : String
  pub upstream_port : ℕ
  pub upstream_path : String
  pub drop_request_headers : String
  pub drop_response_headers : String
  pub set_request_headers : List (String × String)
  pub set_response_headers : List (String × String)

-- The request as it comes in; its body can fail to arrive.
pub record Request : Type 0 where
  pub method : String
  pub path : String
  pub query : Option String
  pub headers : HeaderMap
  pub body : Option Bytes

-- The calls on the builder of the request to the service.
pub record UpstreamRequest : Type 0 where
  pub method : String
  pub target : String
  pub headers : HeaderMap
  pub body : Bytes

-- What the service answers; its body can fail to arrive.
pub record Response : Type 0 where
  pub status : ℕ
  pub headers : HeaderMap
  pub body : Option Bytes

-- The calls on the builder of the response to the client.
pub record Reply : Type 0 where
  pub status : ℕ
  pub headers : HeaderMap
  pub body : Bytes

pub record Outside : Type 0 where
  pub dispatch_control : Json → Result Error Json
  -- `StatusCode::from_u16`, `HeaderValue::to_str` and `Method::from_bytes`.
  pub from_u16 : ℕ → Option ℕ
  pub to_str : Bytes → Option String
  pub from_bytes : Bytes → Option String
  pub send : UpstreamRequest → Option Response
  -- Whether the response builder takes the parts.
  pub builds : Reply → Bool
  pub sha1 : Bytes → Bytes
  pub base64 : Bytes → String

abbrev pub first_value : String → HeaderMap → Option Bytes
first_value name [] = none
first_value name ((n, v) ∷ rest) =
    let later = first_value name rest in if n == name then some v else later

unfoldable pub header_value : Outside → HeaderMap → String → Option String
header_value out headers name = elim (first_value name headers) [
  | none ↦ none
  | some v ↦ out.to_str v
]

unfoldable pub header_is_dropped : String → String → Bool
header_is_dropped name drop_headers =
    any (λ candidate. eq_ignore_case candidate (codes name)) (split b',' (codes drop_headers))

-- The loop over a header map that skips what is dropped.
unfoldable pub kept_headers : String → HeaderMap → HeaderMap
kept_headers drop_headers [] = []
kept_headers drop_headers ((name, value) ∷ rest) =
    let kept = kept_headers drop_headers rest in
    if header_is_dropped name drop_headers then kept else (name, value) ∷ kept

abbrev pub text_headers : List (String × String) → HeaderMap
text_headers [] = []
text_headers ((name, value) ∷ rest) = (name, bytes value) ∷ text_headers rest

unfoldable pub copy_headers : HeaderMap → ProxyPlan → HeaderMap
copy_headers headers plan =
    kept_headers plan.drop_request_headers headers ++ text_headers plan.set_request_headers

-- `filter_map` over the entries of an object.
abbrev pub text_fields : Fields → List (String × String)
text_fields end = []
text_fields (field name (str v) rest) = (name, v) ∷ text_fields rest
text_fields (field name _ rest) = text_fields rest

abbrev pub set_headers : Option Json → List (String × String)
set_headers (some (obj fs)) = text_fields fs
set_headers _ = []

abbrev pub error_status : Outside → Json → ℕ
error_status out value = elim (as_u16 (as_u64 (get "http_status" value))) [
  | none ↦ bad_gateway
  | some raw ↦ elim (out.from_u16 raw) [ none ↦ bad_gateway | some status ↦ status ]
]

abbrev pub is_ok : Option String → Bool
is_ok none = false
is_ok (some status) = status == "ok"

unfoldable pub read_plan : Json → Result ℕ ProxyPlan
read_plan value = do
  upstream_port ← or_error (as_u16 (as_u64 (get "upstream_port" value))) bad_gateway
  upstream_host ← or_error (as_str (get "upstream_host" value)) bad_gateway
  upstream_path ← or_error (as_str (get "upstream_path" value)) bad_gateway
  ok (record {
    proxy_kind = text_or "http" (as_str (get "proxy_kind" value));
    upstream_host = upstream_host;
    upstream_port = upstream_port;
    upstream_path = upstream_path;
    drop_request_headers = text_or "" (as_str (get "drop_request_headers" value));
    drop_response_headers = text_or "" (as_str (get "drop_response_headers" value));
    set_request_headers = set_headers (get "set_request_headers" value);
    set_response_headers = set_headers (get "set_response_headers" value);
  })

unfoldable pub proxy_plan_from_value : Outside → Json → Result ℕ ProxyPlan
unfolding read_plan
proxy_plan_from_value out value =
    if is_ok (as_str (get "status" value)) then read_plan value else err (error_status out value)

abbrev pub or_status : {A : Type 0} → ℕ → Result Error A → Result ℕ A
or_status status (ok a) = ok a
or_status status (err e) = err status

-- The home directory and the scheme are those of the proxy's state.
unfoldable pub ingress_plan : Outside → String → String → Request → String → Result ℕ ProxyPlan
unfolding proxy_plan_from_value header_value ingress_payload
ingress_plan out home ingress_scheme request host = do
  value ← or_status internal_server_error (
      out.dispatch_control (
        ingress_payload home record {
          host = host;
          path = request.path;
          query = request.query;
          ingress_scheme = ingress_scheme;
          upgrade = header_value out request.headers "upgrade";
          connection = header_value out request.headers "connection";
          websocket_protocol = header_value out request.headers "sec-websocket-protocol";
        }))
  proxy_plan_from_value out value

unfoldable pub websocket_accept_key : Outside → String → String
websocket_accept_key out key =
    out.base64 (out.sha1 (bytes key ++ bytes "258EAFA5-E914-47DA-95CA-C5AB0DC85B11"))

abbrev pub build_reply : Outside → Reply → Result ℕ Reply
build_reply out reply = if out.builds reply then ok reply else err internal_server_error

-- What the task that relays the messages of an upgraded connection is started with.
pub record Relay : Type 0 where
  pub target_host : String
  pub port : ℕ
  pub path_and_query : String
  pub request_headers : List (String × String)
  pub response_headers : List (String × String)

abbrev pub relay_of : ProxyPlan → Relay
relay_of plan = record {
  target_host = plan.upstream_host;
  port = plan.upstream_port;
  path_and_query = plan.upstream_path;
  request_headers = plan.set_request_headers;
  response_headers = plan.set_response_headers;
}

abbrev pub switching_reply : Outside → ProxyPlan → String → Reply
switching_reply out plan sec_key = record {
  status = 101;
  headers =
      ("connection", bytes "upgrade")
      ∷ ("upgrade", bytes "websocket")
      ∷ ("sec-websocket-accept", bytes (websocket_accept_key out sec_key))
      ∷ text_headers plan.set_response_headers;
  body = [];
}

-- An answer, with the task that has been started.
abbrev pub Outcome : Type 0
Outcome = Result ℕ Reply × Option Relay

unfoldable pub proxy_websocket : Outside → Request → ProxyPlan → Outcome
unfolding header_value websocket_accept_key
proxy_websocket out request plan = elim (header_value out request.headers "sec-websocket-key") [
  | none ↦ (err bad_request, none)
  | some sec_key ↦ (build_reply out (switching_reply out plan sec_key), some (relay_of plan))
]

unfoldable pub upstream_request : ProxyPlan → String → HeaderMap → Bytes → UpstreamRequest
unfolding copy_headers
upstream_request plan method headers body = record {
  method = method;
  target =
      concat (
        "http://"
        ∷ plan.upstream_host
        ∷ ":"
        ∷ decimal plan.upstream_port
        ∷ plan.upstream_path
        ∷ []);
  headers = copy_headers headers plan;
  body = body;
}

unfoldable pub reply_of : ProxyPlan → Response → Bytes → Reply
unfolding kept_headers
reply_of plan response body = record {
  status = response.status;
  headers = kept_headers plan.drop_response_headers response.headers;
  body = body;
}

unfoldable pub forward : Outside → Request → ProxyPlan → Result ℕ Reply
unfolding upstream_request reply_of
forward out request plan = do
  body ← or_error request.body bad_request
  method ← or_error (out.from_bytes (bytes request.method)) bad_request
  response ← or_error (out.send (upstream_request plan method request.headers body)) bad_gateway
  content ← or_error response.body bad_gateway
  build_reply out (reply_of plan response content)

-- Where the plan leads.
abbrev pub follow : Outside → Request → Result ℕ ProxyPlan → Outcome
follow out request (err status) = (err status, none)
follow out request (ok plan) =
    if plan.proxy_kind == "websocket"
    then proxy_websocket out request plan
    else (forward out request plan, none)

unfoldable pub proxy_request : Outside → String → String → Request → Outcome
unfolding ingress_plan proxy_websocket forward header_value
proxy_request out home ingress_scheme request = follow out request (do
  host ← or_error (header_value out request.headers "host") bad_request
  ingress_plan out home ingress_scheme request host)
