-- ===== src/Http.antt =====
-- HTTP requests in rust/src/host_abi.rs: `http_action_request` turns one into a request for an action. The parsers of
-- query texts (`form_urlencoded`) and of JSON objects (`serde_json`) are arguments.
pub mod Paths
pub mod Actions
pub mod Routing
pub mod Unrouted
use Prim.Native.String
use megaserver.Common.{
  ℕ, String, Bool, true, false, ◌&&◌, Option, none, some, List, [], ◌∷◌, ◌++◌, ◌==◌, if◌then◌else◌,
}
use megaserver.Common.Texts.{concat, is_blank}
use megaserver.Result.{Result, ok, err, or_error, ◌>>=◌}
use megaserver.Json.{
  Json, null, str, num, arr, nil, Fields, end, object, get, get_field, as_str, json_or,
}
use megaserver.App.Projects.Names.{trim}
use megaserver.Ingress.{parse_u64, param}
use megaserver.Http.Paths.{
  before_query, after_query, service_name_from_path, rollback_names_from_path,
}

-- The errors of the requests, apart from those of the actions themselves.
pub data RequestError : Type 0 where
  missing : String → RequestError
  invalid_body : RequestError
  invalid_json : RequestError
  unknown_action : String → RequestError
  no_current_dir : RequestError
  init_failed : RequestError

abbrev pub json_object_field : Fields → String → Result RequestError Json
json_object_field body key = or_error (get_field key body) (missing key)

unfoldable pub json_string_field : Fields → String → Result RequestError String
json_string_field body key = do
  value ← json_object_field body key
  or_error (as_str (some value)) (missing key)

-- The routes whose paths have no names.
pub data Route : Type 0 where
  health services deploy routes add_route signed_link projects import_project upload_project : Route
  volumes add_volume secrets set_secret events deployments deploy_project : Route

abbrev pub route_table : List (String × String × Route)
route_table =
    ("GET", "/v1/health", health)
    ∷ ("GET", "/v1/services", services)
    ∷ ("POST", "/v1/services/deploy", deploy)
    ∷ ("GET", "/v1/routes", routes)
    ∷ ("POST", "/v1/routes", add_route)
    ∷ ("POST", "/v1/routes/signed-link", signed_link)
    ∷ ("GET", "/v1/projects", projects)
    ∷ ("POST", "/v1/projects/import", import_project)
    ∷ ("POST", "/v1/projects/upload", upload_project)
    ∷ ("GET", "/v1/volumes", volumes)
    ∷ ("POST", "/v1/volumes", add_volume)
    ∷ ("GET", "/v1/secrets", secrets)
    ∷ ("POST", "/v1/secrets", set_secret)
    ∷ ("GET", "/v1/events", events)
    ∷ ("GET", "/v1/deployments", deployments)
    ∷ ("POST", "/v1/deployments", deploy_project)
    ∷ []

unfoldable pub find_route : String → String → List (String × String × Route) → Option Route
find_route method path [] = none
find_route method path ((m, p, route) ∷ rest) =
    let later = find_route method path rest in
    if method == m && path == p then some route else later

abbrev pub action_json : Json → String → List (String × Json) → Json
action_json home action rest = object (("home", home) ∷ ("action", str action) ∷ rest)

-- `if let Some(...) { payload[key] = ... }`
abbrev pub opt_field : String → Option String → List (String × Json)
opt_field key none = []
opt_field key (some text) = (key, str text) ∷ []

abbrev pub json_field : String → Option Json → List (String × Json)
json_field key none = []
json_field key (some value) = (key, value) ∷ []

-- The words of the service routes in the order of the tests; each is the name of its action too.
abbrev pub post_words : List String
post_words = "start" ∷ "stop" ∷ "restart" ∷ "destroy" ∷ "shell" ∷ "snapshot" ∷ []

abbrev pub get_words : List String
get_words = "inspect" ∷ "logs" ∷ []

unfoldable pub first_service : String → List String → Option (String × String)
first_service path [] = none
first_service path (word ∷ words) =
    let later = first_service path words in
    elim (service_name_from_path path (String.◌++◌ "/" word)) [
      | some service ↦ some (word, service)
      | none ↦ later
    ]

abbrev pub http_response : ℕ → String → Json
http_response status body = object (
    ("http_status", num status)
    ∷ ("content_type", str "application/json; charset=utf-8")
    ∷ ("body", str body)
    ∷ [])

abbrev pub unknown_route : String → String → Json
unknown_route method path = object (
    ("status", str "error")
    ∷ ("message", str (concat ("unknown route `" ∷ method ∷ " " ∷ path ∷ "`" ∷ [])))
    ∷ [])

abbrev pub unsupported_method : String → Json
unsupported_method method = object (
    ("status", str "error")
    ∷ ("message", str (concat ("unsupported method `" ∷ method ∷ "`" ∷ [])))
    ∷ [])

abbrev opt_lines : Option ℕ → List (String × Json)
opt_lines none = []
opt_lines (some n) = ("lines", num n) ∷ []

abbrev parse_lines : Option String → Option ℕ
parse_lines none = none
parse_lines (some text) = parse_u64 text

-- The fields that a service route adds to the service.
abbrev pub word_fields : String → Fields → List (String × String) → List (String × Json)
word_fields word body query =
    if word == "shell"
    then ("command", json_or (arr nil) (get_field "command" body)) ∷ []
    else if word == "logs"
    then opt_lines (parse_lines (param "lines" query))
    else []

module _ (parse_query : String → List (String × String)) (parse_object : String → Option Fields)
    (show_json : Json → String) where
  -- The body without the white space around it.
  unfoldable pub parse_body_text : String → Result RequestError Fields
  parse_body_text text = if text == "" then ok end else or_error (parse_object text) invalid_json

  unfoldable pub parse_request_body : Json → Result RequestError Fields
  unfolding parse_body_text
  parse_request_body request = elim (get "body" request) [
    | none ↦ ok end
    | some value ↦ (do
      text ← or_error (as_str (some value)) invalid_body
      parse_body_text (trim text))
  ]

  unfoldable pub parse_query_params : String → List (String × String)
  parse_query_params path = elim (after_query path) [ none ↦ [] | some raw ↦ parse_query raw ]

  unfoldable pub fixed_request :
      Route → Json → Fields → List (String × String) → Result RequestError Json
  fixed_request health home body query = ok (action_json home "health" [])
  fixed_request services home body query = ok (action_json home "services" [])
  fixed_request deploy home body query = do
    app_path ← json_string_field body "app_path"
    ok (action_json home "deploy" (("app_path", str app_path) ∷ []))
  fixed_request routes home body query =
      ok (action_json home "route_list" (opt_field "service" (param "service" query)))
  fixed_request add_route home body query = do
    service ← json_string_field body "service"
    domain ← json_string_field body "domain"
    ok (
        action_json home "route_add" (
          ("service", str service)
          ∷ ("domain", str domain)
          ∷ ("port", json_or null (get_field "port" body))
          ∷ []))
  fixed_request signed_link home body query = do
    service ← json_string_field body "service"
    domain ← json_string_field body "domain"
    path ← json_string_field body "path"
    ok (
        action_json home "route_sign" (
          ("service", str service)
          ∷ ("domain", str domain)
          ∷ ("path", str path)
          ∷ ("expires_in", json_or (num 300) (get_field "expires_in" body))
          ∷ ("scheme", json_or (str "https") (get_field "scheme" body))
          ∷ []))
  fixed_request projects home body query = ok (action_json home "project_list" [])
  fixed_request import_project home body query = do
    source_path ← json_string_field body "source_path"
    ok (
        action_json home "project_import" (
          ("source_path", str source_path)
          ∷ opt_field "project" (as_str (get_field "project" body))))
  fixed_request upload_project home body query = do
    archive ← json_string_field body "archive_base64"
    ok (
        action_json home "project_upload" (
          ("archive_base64", str archive) ∷ opt_field "format" (as_str (get_field "format" body))
          ++ opt_field "project" (as_str (get_field "project" body))))
  fixed_request volumes home body query = ok (action_json home "volume_list" [])
  fixed_request add_volume home body query = do
    name ← json_string_field body "name"
    ok (
        action_json home "volume_create"
          (("name", str name) ∷ opt_field "service" (as_str (get_field "service" body))))
  fixed_request secrets home body query =
      ok (action_json home "secret_list" (opt_field "service" (param "service" query)))
  fixed_request set_secret home body query = do
    service ← json_string_field body "service"
    key ← json_string_field body "key"
    value ← json_string_field body "value"
    ok (
        action_json home "secret_set"
          (("service", str service) ∷ ("key", str key) ∷ ("value", str value) ∷ []))
  fixed_request events home body query =
      ok (action_json home "events" (opt_field "service" (param "service" query)))
  fixed_request deployments home body query = ok (
      action_json home "deployment_list" (
        opt_field "project" (param "project" query) ++ opt_field "service" (param "service" query)))
  fixed_request deploy_project home body query = do
    project ← json_string_field body "project"
    ok (
        action_json home "deployment_create"
          (("project", str project) ∷ json_field "start" (get_field "start" body)))

  -- The request of a service route.
  abbrev pub service_request : Json → Fields → List (String × String) → String × String → Json
  service_request home body query (word, service) =
      action_json home word (("service", str service) ∷ word_fields word body query)

  unfoldable pub post_request : String → Json → Fields → List (String × String) → Json
  post_request path home body query = elim (first_service path post_words) [
    | some found ↦ service_request home body query found
    | none ↦ elim (rollback_names_from_path path) [
      | some (service, snapshot) ↦
          action_json home "rollback" (("service", str service) ∷ ("snapshot", str snapshot) ∷ [])
      | none ↦ http_response 404 (show_json (unknown_route "POST" path))
    ]
  ]

  unfoldable pub get_request : String → Json → Fields → List (String × String) → Json
  get_request path home body query = elim (first_service path get_words) [
    | some found ↦ service_request home body query found
    | none ↦ http_response 404 (show_json (unknown_route "GET" path))
  ]

  -- The last arm.
  unfoldable pub other_request : String → String → Json → Fields → List (String × String) → Json
  unfolding post_request get_request
  other_request method path home body query =
      if method == "POST"
      then post_request path home body query
      else if method == "GET"
      then get_request path home body query
      else http_response 405 (show_json (unsupported_method method))

  unfoldable pub http_action_request : Json → Result RequestError Json
  unfolding parse_request_body parse_query_params fixed_request other_request find_route
  http_action_request request = do
    method ← or_error (as_str (get "method" request)) (missing "method")
    path ← or_error (as_str (get "path" request)) (missing "path")
    body ← parse_request_body request
    let home = json_or null (get "home" request)
    elim (find_route method (before_query path) route_table) [
      | some route ↦ fixed_request route home body (parse_query_params path)
      | none ↦ ok (other_request method path home body (parse_query_params path))
    ]
