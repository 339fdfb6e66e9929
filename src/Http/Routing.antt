-- ===== src/Http/Routing.antt =====
-- The service routes of rust/src/host_abi.rs lead to the operations that they name.
use megaserver.Common.{
  ℕ, ◌≡◌, ◌≢◌, ◌∙◌, refl, ap, String, Bool, true, false, not, Option, none, some, List, [], ◌∷◌,
  all, any, nat_eq, ◌==◌, arith, eq_iff, Bool-cases, inl, inr,
}
use megaserver.Common.Texts.{codes, same_codes}
use megaserver.Result.{Result, ok, ◌>>=◌}
use megaserver.Json.{Json, Fields, get, as_str, null, json_or}
use megaserver.App.Requests
use megaserver.App.Requests.{Action}
use megaserver.Http.{
  RequestError, Route, find_route, route_table, first_service, post_words, http_action_request,
  parse_request_body, other_request, post_request, service_request, parse_query_params,
  fixed_request,
}
use megaserver.Paths.{StatePaths}
use megaserver.Http.Actions.{Command, run, read_command, find_arm, resolve_paths, paths_and_command}
use megaserver.Http.Paths.{before_query}
use megaserver.Http.Paths.Names.{
  HasNoMark, HasNoSlash, with_query, service_path, last_segment, service_path-last_segment,
  before_query-with_query, service_path-HasNoMark, service_name_from_path_self,
  service_name_from_path-other,
}

-- A request over HTTP is turned into one for an action, the paths of its home are opened, and the action is read.
module _ (env cwd : Option String) (init : StatePaths → Bool)
    (parse_query : String → List (String × String)) (parse_object : String → Option Fields)
    (show_json : Json → String) where
  unfoldable pub http_command : Json → Result RequestError (StatePaths × Command)
  unfolding paths_and_command
  http_command request =
      http_action_request parse_query parse_object show_json request
      >>= paths_and_command env cwd init

same_codes_refl : (xs : List ℕ) → same_codes xs xs ≡ true
same_codes_refl [] = refl
same_codes_refl (x ∷ xs) = grind (arith, same_codes_refl xs)

-- No list of words has another word with the same text before it, so the first that fits is the one.
module _ (service word : String) (query : Option String) (unmarked : HasNoMark service)
    (named : service ≢ "") (word_unmarked : HasNoMark word) (whole : HasNoSlash word) where
  first_service-word :
      (words : List String)
      → all (λ v. all (λ c. not (nat_eq c b'/')) (codes v)) words ≡ true
      → any (λ v. word == v) words ≡ true
      → first_service (with_query (service_path service word) query) words ≡ some (word, service)
  unfolding first_service
  first_service-word [] h k = absurd (ground arith)
  first_service-word (v ∷ words) h k = elim (Bool-cases (word == v)) [
    | inl e ↦
        rw
          (
            same_word v e,
            first_service,
            service_name_from_path_self service word query unmarked word_unmarked named,
          )
          (ap (λ x. some (x, service)) (same_word v e))
    | inr e ↦
        rw
          (
            first_service,
            service_name_from_path-other service word query unmarked word_unmarked v
                (first_whole v words h) whole (differs v e),
          )
          (first_service-word words (later_whole v words h) (elsewhere v words e k))
  ]
    where
      same_word : (v : String) → (word == v) ≡ true → v ≡ word
      same_word v e = ground (arith, eq_iff word v)

      differs : (v : String) → (word == v) ≡ false → word ≢ v
      differs v e same = ground (arith, eq_iff word v)

      first_whole :
          (v : String) (words : List String)
          → all (λ v. all (λ c. not (nat_eq c b'/')) (codes v)) (v ∷ words) ≡ true
          → HasNoSlash v
      first_whole v words h = ground arith

      later_whole :
          (v : String) (words : List String)
          → all (λ v. all (λ c. not (nat_eq c b'/')) (codes v)) (v ∷ words) ≡ true
          → all (λ v. all (λ c. not (nat_eq c b'/')) (codes v)) words ≡ true
      later_whole v words h = ground arith

      elsewhere :
          (v : String) (words : List String)
          → (word == v) ≡ false
          → any (λ v. word == v) (v ∷ words) ≡ true
          → any (λ v. word == v) words ≡ true
      elsewhere v words e k = ground arith

  -- The path of a service is none of the fixed ones, if its word ends none of them.
  find_route-none :
      (method : String) (table : List (String × String × Route))
      → all (λ entry. not (same_codes (codes word) (last_segment (codes entry.1)))) table ≡ true
      → find_route method (service_path service word) table ≡ none
  unfolding find_route
  find_route-none method [] h = refl
  find_route-none method ((m, p, r) ∷ table) h =
      elim (Bool-cases (service_path service word == p)) [
        | inl e ↦ absurd (ground (arith, clash p e, same_codes_refl (codes word)))
        | inr e ↦ ground (arith, e, find_route-none method table)
      ]
    where
      clash :
          (p : String)
          → (service_path service word == p) ≡ true
          → last_segment (codes p) ≡ codes word
      clash p e =
          ap (λ x. last_segment (codes x)) {x = p} {y = service_path service word}
            (ground (arith, eq_iff (service_path service word) p))
          ∙ service_path-last_segment service word query unmarked word_unmarked whole

-- The operations on a service that a POST without a body runs.
pub data Operation : Type 0 where
  start stop restart destroy snapshot : Operation

abbrev pub word_of : Operation → String
word_of start = "start"
word_of stop = "stop"
word_of restart = "restart"
word_of destroy = "destroy"
word_of snapshot = "snapshot"

abbrev pub action_of : Operation → String → Action
action_of start service = Requests.start service
action_of stop service = Requests.stop service
action_of restart service = Requests.restart service
action_of destroy service = Requests.destroy service
action_of snapshot service = Requests.snapshot service

-- What the proof uses of the words.
word-facts :
    (operation : Operation)
    → HasNoMark (word_of operation)
      × HasNoSlash (word_of operation)
      × (any (λ v. word_of operation == v) post_words ≡ true)
      × (all
            (λ entry. not (same_codes (codes (word_of operation)) (last_segment (codes entry.1))))
            route_table
          ≡ true)
word-facts start = (refl, refl, refl, refl)
word-facts stop = (refl, refl, refl, refl)
word-facts restart = (refl, refl, refl, refl)
word-facts destroy = (refl, refl, refl, refl)
word-facts snapshot = (refl, refl, refl, refl)

module _ (parse_query : String → List (String × String)) (parse_object : String → Option Fields)
    (show_json : Json → String) where
  -- The request is a POST to this path, with a body that can be read.
  abbrev pub Posts : String → Json → Type 0
  Posts path request =
      (as_str (get "method" request) ≡ some "POST")
      × (as_str (get "path" request) ≡ some path)
      × ((body : Fields) × (parse_request_body parse_query parse_object show_json request
            ≡ ok body))

  read_service :
      (operation : Operation) (service : String) (home : Json) (body : Fields)
      (query : List (String × String))
      → read_command (
          service_request parse_query parse_object show_json home body query
            (word_of operation, service))
        ≡ ok (run (action_of operation service))
  unfolding read_command find_arm
  read_service start service home body query = refl
  read_service stop service home body query = refl
  read_service restart service home body query = refl
  read_service destroy service home body query = refl
  read_service snapshot service home body query = refl

  posted :
      (operation : Operation) (service : String) (query : Option String)
      → HasNoMark service
      → service ≢ ""
      → (home : Json) (body : Fields) (pairs : List (String × String))
      → elim (find_route "POST"
            (before_query (with_query (service_path service (word_of operation)) query))
            route_table)
          as (λ r. Result RequestError Json) [
            | some r ↦ fixed_request parse_query parse_object show_json r home body pairs
            | none ↦ ok (
                other_request parse_query parse_object show_json "POST"
                  (with_query (service_path service (word_of operation)) query)
                  home
                  body
                  pairs)
          ]
        ≡ ok (
            service_request parse_query parse_object show_json home body pairs
              (word_of operation, service))
  unfolding other_request post_request
  posted operation service query unmarked named home body pairs =
      let facts = word-facts operation in
      rw
        (
          before_query-with_query (service_path service (word_of operation)) query
              (service_path-HasNoMark service (word_of operation) query unmarked facts.0),
          find_route-none service (word_of operation) query unmarked named facts.0 facts.1 "POST"
              route_table facts.3,
          other_request,
          post_request,
          first_service-word service (word_of operation) query unmarked named facts.0 facts.1
              post_words refl facts.2,
        )
        refl

  home_kept : (home : Option Json) → as_str (some (json_or null home)) ≡ as_str home
  home_kept none = refl
  home_kept (some home) = refl

  home_of_service :
      (operation : Operation) (service : String) (home : Json) (body : Fields)
      (query : List (String × String))
      → get "home" (
          service_request parse_query parse_object show_json home body query
            (word_of operation, service))
        ≡ some home
  home_of_service start service home body query = refl
  home_of_service stop service home body query = refl
  home_of_service restart service home body query = refl
  home_of_service destroy service home body query = refl
  home_of_service snapshot service home body query = refl

  -- A POST to /v1/services/{service}/{word}, with or without a query, is read as the request to run the operation of
  -- that word on that service, once the paths of the request's home are opened, where that fails the answer is its error:
  -- for every name that is not empty and has no question mark, slashes and all.
  pub http_command-Posts :
      (env cwd : Option String) (init : StatePaths → Bool) (operation : Operation)
      (service : String) (query : Option String) (request : Json)
      → HasNoMark service
      → service ≢ ""
      → Posts (with_query (service_path service (word_of operation)) query) request
      → http_command env cwd init parse_query parse_object show_json request ≡ (
          resolve_paths env cwd init (as_str (get "home" request)) >>= λ paths.
          ok (paths, run (action_of operation service)))
  unfolding http_command http_action_request paths_and_command
  http_command-Posts env cwd init operation service query request unmarked named posts =
      rw (posts.0, posts.1, posts.2.1)
        (rw
          (posted operation service query unmarked named (json_or null (get "home" request))
            posts.2.0
            (parse_query_params parse_query parse_object show_json
              (with_query (service_path service (word_of operation)) query)))
          (rw
            (
              home_of_service operation service (json_or null (get "home" request)) posts.2.0 _,
              home_kept (get "home" request),
              read_service operation service (json_or null (get "home" request)) posts.2.0 _,
            )
            refl))
