-- ===== src/Control.antt =====
-- rust/src/controlplane.rs: the client of the control plane. The foreign call that dispatches a request and the writer and
-- parser of JSON are arguments.
pub mod Accepted
use Prim.Native.Nat.{Ordering, lt, eq, gt}
use Prim.Native.String.{compare}
use megaserver.Common.{
  ℕ, String, Bool, true, false, Option, none, some, List, [], ◌∷◌, ◌++◌, ◌==◌, leb, if◌then◌else◌,
}
use megaserver.Common.Texts.{concat}
use megaserver.Result.{Result, ok, err, ◌>>=◌}
use megaserver.Json.{Json, null, str, obj, object, Fields, end, field, get, as_str, as_u64}
use megaserver.Http.{opt_field}
use megaserver.Http.Actions.{text_or}

-- An error with its causes, the outermost first.
abbrev pub Error : Type 0
Error = List String

-- `payload.insert` of a sorted map.
abbrev pub insert_field : String → Json → Fields → Fields
insert_field key value end = field key value end
insert_field key value (field k v rest) =
    let later = insert_field key value rest in
    elim (compare key k) [
      | lt ↦ field key value (field k v rest)
      | eq ↦ field key value rest
      | gt ↦ field k v later
    ]

abbrev pub insert_all : List (String × Json) → Fields → Fields
insert_all [] payload = payload
insert_all ((key, value) ∷ rest) payload = insert_all rest (insert_field key value payload)

unfoldable pub dispatch_payload : String → String → List (String × Json) → Json
dispatch_payload home action fields =
    obj (insert_all fields (insert_field "action" (str action) (field "home" (str home) end)))

-- The request of `dispatch_ingress_raw`.
pub record IngressQuery : Type 0 where
  pub host : String
  pub path : String
  pub query : Option String
  pub ingress_scheme : String
  pub upgrade : Option String
  pub connection : Option String
  pub websocket_protocol : Option String

unfoldable pub ingress_payload : String → IngressQuery → Json
ingress_payload home q = object (
    ("home", str home)
      ∷ ("ingress_host", str q.host)
      ∷ ("ingress_path", str q.path)
      ∷ ("ingress_scheme", str q.ingress_scheme)
      ∷ opt_field "ingress_query" q.query
    ++ opt_field "upgrade" q.upgrade
    ++ opt_field "connection" q.connection
    ++ opt_field "sec_websocket_protocol" q.websocket_protocol)

-- The request of `dispatch_http_raw`.
pub record HttpQuery : Type 0 where
  pub method : String
  pub path : String
  pub body : Option String
  pub content_type : Option String
  pub accept : Option String
  pub authorization : Option String

unfoldable pub http_payload : String → HttpQuery → Json
http_payload home q = object (
    ("home", str home) ∷ ("method", str q.method) ∷ ("path", str q.path) ∷ opt_field "body" q.body
    ++ opt_field "content_type" q.content_type
    ++ opt_field "accept" q.accept
    ++ opt_field "authorization" q.authorization)

-- Whether the value is an answer that reports an error, with its message.
abbrev pub error_message : Json → Option String
error_message value = elim (as_str (get "status" value)) [
  | none ↦ none
  | some status ↦
      if status == "error"
      then some (text_or "unknown control plane failure" (as_str (get "message" value)))
      else none
]

abbrev pub not_null : Json → Result Error Json
not_null null = err ("control plane returned null" ∷ [])
not_null value = ok value

unfoldable pub require_status_ok : Json → Result Error Json
require_status_ok value = elim (error_message value) [
  | some message ↦ err (message ∷ [])
  | none ↦ not_null value
]

-- `with_context`
abbrev pub with_context : {A : Type 0} → String → Result Error A → Result Error A
with_context context (ok a) = ok a
with_context context (err causes) = err (context ∷ causes)

-- `or_else`
abbrev pub or_else : {A : Type 0} → Option A → Option A → Option A
or_else none other = other
or_else (some a) other = some a

abbrev pub field_text : String → Option Json → Option String
field_text key none = none
field_text key (some value) = as_str (get key value)

module _ (dispatch_control : Json → Result Error Json) (show_json : Json → String)
    (parse_json : String → Option Json) where
  unfoldable pub dispatch : String → String → List (String × Json) → Result Error Json
  unfolding dispatch_payload
  dispatch home action fields = dispatch_control (dispatch_payload home action fields)

  unfoldable pub dispatch_ok : String → String → List (String × Json) → Result Error Json
  unfolding dispatch require_status_ok
  dispatch_ok home action fields =
      with_context (concat ("dispatch `" ∷ action ∷ "`" ∷ []))
        (do value ← dispatch home action fields; require_status_ok value)

  abbrev pub shown : Option Json → Option String
  shown none = none
  shown (some value) = some (show_json value)

  unfoldable pub dispatch_http : String → String → String → Option Json → Result Error Json
  unfolding http_payload
  dispatch_http home method path body = dispatch_control (
      http_payload home record {
        method = method;
        path = path;
        body = shown body;
        content_type = none;
        accept = none;
        authorization = none;
      })

  -- A body that is a text is read as JSON.
  abbrev pub parsed_body : Option Json → Option Json
  parsed_body none = none
  parsed_body (some (str text)) = parse_json text
  parsed_body (some value) = some value

  unfoldable pub failure_message : Json → String
  failure_message value = text_or "unknown control plane HTTP failure" (
      or_else (field_text "message" (parsed_body (get "body" value)))
        (as_str (get "message" value)))

  -- Where the body is not JSON it is the text.
  abbrev pub body_value : Json → Json
  body_value body = elim (parsed_body (some body)) [ none ↦ body | some parsed ↦ parsed ]

  unfoldable pub read_answer : String → String → Json → Result Error Json
  unfolding failure_message require_status_ok
  read_answer method path value =
      let plain =
        with_context (concat ("dispatch HTTP `" ∷ method ∷ " " ∷ path ∷ "`" ∷ []))
          (require_status_ok value) in
      elim (as_u64 (get "http_status" value)) [
        | none ↦ plain
        | some status ↦
            if leb 400 status
            then err (failure_message value ∷ [])
            else elim (get "body" value) [ none ↦ plain | some body ↦ ok (body_value body) ]
      ]

  unfoldable pub dispatch_http_ok : String → String → String → Option Json → Result Error Json
  unfolding dispatch_http read_answer
  dispatch_http_ok home method path body = do
    value ← dispatch_http home method path body
    read_answer method path value
