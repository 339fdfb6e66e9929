-- ===== src/Http/Unrouted.antt =====
-- Requests of rust/src/host_abi.rs whose path or method leads nowhere.
use megaserver.Common.{
  ◌≡◌, refl, ℕ, String, Bool, Option, none, some, List, ◌==◌, arith, eq_iff, Bool-cases, inl, inr,
}
use megaserver.Result.{Result, ok, err, ◌>>=◌}
use megaserver.Paths.{StatePaths}
use megaserver.Json.{Json, Fields, get, as_str}
use megaserver.Http.{
  RequestError, missing, find_route, route_table, first_service, post_words, get_words,
  http_action_request, parse_request_body, other_request, post_request, get_request, http_response,
}
use megaserver.Http.Actions.{Command, read_command, resolve_paths, paths_and_command}
use megaserver.Http.Paths.{before_query, rollback_names_from_path}
use megaserver.Http.Routing.{http_command}

-- No route takes the path: a POST that names neither an operation nor a rollback, a GET that names no view, or another
-- method.
abbrev pub IsUnrouted : String → String → Type 0
IsUnrouted method path =
    (find_route method (before_query path) route_table ≡ none)
    × (method ≡ "POST"
        → (first_service path post_words ≡ none) × (rollback_names_from_path path ≡ none))
    × (method ≡ "GET" → first_service path get_words ≡ none)

module _ (env cwd : Option String) (init : StatePaths → Bool)
    (parse_query : String → List (String × String)) (parse_object : String → Option Fields)
    (show_json : Json → String) where
  -- The answer to a request that has neither a home nor an action.
  abbrev pub no_action : Result RequestError (StatePaths × Command)
  no_action = resolve_paths env cwd init none >>= λ paths. err (missing "action")

  -- An HTTP response that is taken for a request has no home and no action.
  response_unread :
      (status : ℕ) (body : String)
      → paths_and_command env cwd init (http_response status body) ≡ no_action
  unfolding paths_and_command read_command
  response_unread status body = refl

  post_unread :
      (path : String) (home : Json) (body : Fields) (query : List (String × String))
      → first_service path post_words ≡ none
      → rollback_names_from_path path ≡ none
      → paths_and_command env cwd init
          (post_request parse_query parse_object show_json path home body query)
        ≡ no_action
  unfolding post_request
  post_unread path home body query e f = rw (post_request, e, f) (response_unread 404 _)

  get_unread :
      (path : String) (home : Json) (body : Fields) (query : List (String × String))
      → first_service path get_words ≡ none
      → paths_and_command env cwd init
          (get_request parse_query parse_object show_json path home body query)
        ≡ no_action
  unfolding get_request
  get_unread path home body query e = rw (get_request, e) (response_unread 404 _)

  other_unread :
      (method path : String) (home : Json) (body : Fields) (query : List (String × String))
      → IsUnrouted method path
      → paths_and_command env cwd init
          (other_request parse_query parse_object show_json method path home body query)
        ≡ no_action
  unfolding other_request
  other_unread method path home body query unrouted = elim (Bool-cases (method == "POST")) [
    | inl e ↦
        let both = unrouted.1 (ground (arith, eq_iff method "POST")) in
        rw (e) (post_unread path home body query both.0 both.1)
    | inr e ↦ elim (Bool-cases (method == "GET")) [
      | inl f ↦
          rw (e, f)
            (get_unread path home body query (unrouted.2 (ground (arith, eq_iff method "GET"))))
      | inr f ↦ rw (e, f) (response_unread 405 _)
    ]
  ]

  -- Where a request has a method, a path and a body that can be read and no route takes it, the answer is an error: that
  -- of opening the paths of no home, whatever home the request has, or else the one for a missing action; never the
  -- response with status 404 or 405 that the router makes.
  pub http_command-IsUnrouted :
      (request : Json) (method path : String) (body : Fields)
      → as_str (get "method" request) ≡ some method
      → as_str (get "path" request) ≡ some path
      → parse_request_body parse_query parse_object show_json request ≡ ok body
      → IsUnrouted method path
      → http_command env cwd init parse_query parse_object show_json request ≡ no_action
  unfolding http_command http_action_request
  http_command-IsUnrouted request method path body m p b unrouted =
      rw (m, p, b, unrouted.0) (other_unread method path _ body _ unrouted)
