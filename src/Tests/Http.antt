-- ===== src/Tests/Http.antt =====
-- Requests over HTTP, and the theorems on them.
use megaserver.Common.{
  String, true, ◌≡◌, ◌≢◌, refl, Option, none, some, List, [], ◌∷◌, arith, eq_iff,
}
use megaserver.Result.{Result, ok, err}
use megaserver.Json.{Json, Fields, end, object, str}
use megaserver.App.Requests
use megaserver.Http.{
  RequestError, missing, find_route, first_service, post_words, json_string_field, fixed_request,
  http_action_request, parse_request_body,
}
use megaserver.Paths.{StatePaths, layout, resolve, join}
use megaserver.Http.Actions.{Command, run, read_command, resolve_paths, paths_and_command}
use megaserver.Http.Routing
use megaserver.Http.Routing.{http_command, http_command-Posts}
use megaserver.Http.Unrouted.{http_command-IsUnrouted}
use megaserver.Http.Paths.{
  before_query, rollback_names_from_path, service_name_from_path, strip_suffix, strip_prefix,
}

abbrev parse_pairs : String → List (String × String)
parse_pairs text = ("lines", text) ∷ []

abbrev parse_object : String → Option Fields
parse_object text = some end

abbrev show_json : Json → String
show_json value = "json"

abbrev request : String → String → Json
request method path = object (("method", str method) ∷ ("path", str path) ∷ [])

-- A request without a home, in this directory.
abbrev work : StatePaths
work = layout "/work/.megaserver"

abbrev command : Json → Result RequestError (StatePaths × Command)
command = http_command none (some "/work") (λ paths. true) parse_pairs parse_object show_json

http_tests :
    (command (request "GET" "/v1/services/web/logs?7") ≡ ok (work, Command.logs "web" 7))
    × (command (request "POST" "/v1/services/web/rollback/web-1")
        ≡ ok (work, run (Requests.rollback "web" "web-1")))
    × (command (request "POST" "/v1/services/deploy") ≡ err (missing "app_path"))
unfolding http_command paths_and_command resolve_paths resolve join layout http_action_request
    before_query read_command first_service service_name_from_path megaserver.Ingress.param
    megaserver.Http.Paths.after_query megaserver.Ingress.parse_u64 rollback_names_from_path
    json_string_field
http_tests = (refl, refl, refl)

web : ◌≢◌ {A = String} "web" ""
web = ground (arith, eq_iff "web" "")

http_command-Posts_example :
    command (request "POST" "/v1/services/web/stop?now") ≡ ok (work, run (Requests.stop "web"))
unfolding parse_request_body resolve_paths resolve join layout
http_command-Posts_example =
    http_command-Posts parse_pairs parse_object show_json none (some "/work") (λ paths. true)
      Routing.stop "web" (some "now") (request "POST" "/v1/services/web/stop?now") refl web
      (refl, refl, (end, refl))

no_such_view : first_service "/v1/nothing" ("inspect" ∷ "logs" ∷ []) ≡ none
unfolding first_service service_name_from_path
no_such_view = refl

no_operation :
    (first_service "/v1/nothing" post_words ≡ none)
    × (rollback_names_from_path "/v1/nothing" ≡ none)
unfolding first_service service_name_from_path rollback_names_from_path
no_operation = (refl, refl)

http_command-IsUnrouted_example : command (request "GET" "/v1/nothing") ≡ err (missing "action")
unfolding parse_request_body find_route before_query resolve_paths resolve join layout
http_command-IsUnrouted_example =
    http_command-IsUnrouted none (some "/work") (λ paths. true) parse_pairs parse_object show_json
      (request "GET" "/v1/nothing") "GET" "/v1/nothing" end refl refl refl
      (refl, (λ e. no_operation), (λ e. no_such_view))
