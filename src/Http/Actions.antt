-- ===== src/Http/Actions.antt =====
-- What `dispatch_value` of rust/src/host_abi.rs reads of a request for an action.
use megaserver.Common.{
  ℕ, ◌^◌, String, Bool, true, Option, none, some, List, [], ◌∷◌, ◌==◌, ltb, if◌then◌else◌,
}
use megaserver.Result.{Result, ok, err, or_error, guard, ◌>>=◌, ◌>>◌}
use megaserver.Json.{Json, arr, Items, nil, cons, get, as_str, as_u64, as_bool}
use megaserver.App.Requests
use megaserver.App.Requests.{Action}
use megaserver.Paths.{StatePaths, resolve}
use megaserver.Http.{RequestError, missing, unknown_action, no_current_dir, init_failed}

-- The arms: those that run an operation, and those that read.
pub data Command : Type 0 where
  run : Action → Command
  services : Command
  logs : String → ℕ → Command
  route_list : Option String → Command
  route_sign : String → String → String → ℕ → String → Command
  project_list : Command
  project_upload : String → String → Option String → Command
  volume_list : Command
  deployment_list : Option String → Option String → Command
  secret_list : Option String → Command
  events : Option String → Command
  health : Command
  shell : String → List String → Command
  ingress_resolve : Json → Command

-- `unwrap_or`
abbrev nat_or : ℕ → Option ℕ → ℕ
nat_or other none = other
nat_or other (some n) = n

abbrev pub text_or : String → Option String → String
text_or other none = other
text_or other (some text) = text

abbrev bool_or : Bool → Option Bool → Bool
bool_or other none = other
bool_or other (some b) = b

-- `u16::try_from(v).ok()`
abbrev pub as_u16 : Option ℕ → Option ℕ
as_u16 none = none
as_u16 (some n) = if ltb n (2 ^ 16) then some n else none

-- `filter_map(Value::as_str)` over the items of an array.
unfoldable pub item_texts : Items → List String
item_texts nil = []
item_texts (cons item items) =
    let rest = item_texts items in elim (as_str (some item)) [ none ↦ rest | some s ↦ s ∷ rest ]

unfoldable pub command_words : Option Json → List String
unfolding item_texts
command_words (some (arr items)) = item_texts items
command_words _ = []

abbrev need : Json → String → Result RequestError String
need request key = or_error (as_str (get key request)) (missing key)

abbrev text_at : Json → String → Option String
text_at request key = as_str (get key request)

-- An arm that reads the service alone.
abbrev of_service : Json → (String → Command) → Result RequestError Command
of_service request f = do service ← need request "service"; ok (f service)

unfoldable pub read_route_add : Json → Result RequestError Command
read_route_add request = do
  service ← need request "service"
  domain ← need request "domain"
  ok (run (Requests.route_add service domain (as_u16 (as_u64 (get "port" request)))))

unfoldable pub read_route_sign : Json → Result RequestError Command
read_route_sign request = do
  service ← need request "service"
  domain ← need request "domain"
  path ← need request "path"
  ok (
      route_sign service domain path (nat_or 300 (as_u64 (get "expires_in" request)))
        (text_or "https" (text_at request "scheme")))

unfoldable pub read_project_upload : Json → Result RequestError Command
read_project_upload request = do
  archive ← need request "archive_base64"
  ok (
      project_upload archive (text_or "tar.gz" (text_at request "format"))
        (text_at request "project"))

unfoldable pub read_secret_set : Json → Result RequestError Command
read_secret_set request = do
  service ← need request "service"
  key ← need request "key"
  value ← need request "value"
  ok (run (Requests.secret_set service key value))

unfoldable pub read_rollback : Json → Result RequestError Command
read_rollback request = do
  service ← need request "service"
  snapshot ← need request "snapshot"
  ok (run (Requests.rollback service snapshot))

-- The arms by the names of the actions.
abbrev arms : Json → List (String × Result RequestError Command)
arms request =
    ("deploy", do app_path ← need request "app_path"; ok (run (Requests.deploy app_path)))
    ∷ ("start", of_service request (λ s. run (Requests.start s)))
    ∷ ("stop", of_service request (λ s. run (Requests.stop s)))
    ∷ ("restart", of_service request (λ s. run (Requests.restart s)))
    ∷ ("destroy", of_service request (λ s. run (Requests.destroy s)))
    ∷ ("services", ok services)
    ∷ ("logs", of_service request (λ s. logs s (nat_or 50 (as_u64 (get "lines" request)))))
    ∷ ("route_add", read_route_add request)
    ∷ ("route_list", ok (route_list (text_at request "service")))
    ∷ ("route_sign", read_route_sign request)
    ∷ ("project_list", ok project_list)
    ∷ (
      "project_import",
      do
        source_path ← need request "source_path"
        ok (run (Requests.project_import source_path (text_at request "project"))),
    )
    ∷ ("project_upload", read_project_upload request)
    ∷ (
      "volume_create",
      do
        name ← need request "name"
        ok (run (Requests.volume_create name (text_at request "service"))),
    )
    ∷ ("volume_list", ok volume_list)
    ∷ (
      "deployment_list",
      ok (deployment_list (text_at request "project") (text_at request "service")),
    )
    ∷ (
      "deployment_create",
      do
        project ← need request "project"
        ok (
            run
              (Requests.deployment_create project (bool_or true (as_bool (get "start" request))))),
    )
    ∷ ("secret_set", read_secret_set request)
    ∷ ("secret_list", ok (secret_list (text_at request "service")))
    ∷ ("snapshot", of_service request (λ s. run (Requests.snapshot s)))
    ∷ ("rollback", read_rollback request)
    ∷ ("inspect", of_service request (λ s. run (Requests.inspect s)))
    ∷ ("events", ok (events (text_at request "service")))
    ∷ ("health", ok health)
    ∷ ("shell", of_service request (λ s. shell s (command_words (get "command" request))))
    ∷ ("ingress_resolve", ok (ingress_resolve request))
    ∷ []

unfoldable pub find_arm :
    String → List (String × Result RequestError Command) → Result RequestError Command
find_arm action [] = err (unknown_action action)
find_arm action ((name, arm) ∷ rest) =
    let later = find_arm action rest in if action == name then arm else later

-- `action_string` and the arms.
unfoldable pub read_command : Json → Result RequestError Command
unfolding find_arm read_route_add read_route_sign read_project_upload read_secret_set read_rollback
    command_words
read_command request = do action ← need request "action"; find_arm action (arms request)

-- `resolve_paths` of what the request has as its home: the environment variable and the current directory come next, and
-- `state::init` may fail.
module _ (env cwd : Option String) (init : StatePaths → Bool) where
  unfoldable pub resolve_paths : Option String → Result RequestError StatePaths
  resolve_paths home = do
    paths ← or_error (resolve home env cwd) no_current_dir
    guard (init paths) init_failed
    ok paths

  -- The beginning of `dispatch_value`, for a request without a method: the paths, and then the action.
  unfoldable pub paths_and_command : Json → Result RequestError (StatePaths × Command)
  unfolding resolve_paths read_command
  paths_and_command request = do
    paths ← resolve_paths (as_str (get "home" request))
    command ← read_command request
    ok (paths, command)
