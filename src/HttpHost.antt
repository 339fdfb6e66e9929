-- ===== src/HttpHost.antt =====
-- rust/src/http_host.rs: the HTTP server hands a request to the control plane, up to three times, and answers with the
-- response that it names. What it calls of hyper and serde_json, and the control plane itself, are the fields of
-- `Outside`; the control plane is asked anew at each attempt and may answer differently.
pub mod Attempts
pub mod Responses
use text.Mathlib.Text.{find?}
use megaserver.Common.{
  ℕ, zero, suc, ◌+◌, String, Bool, true, false, ◌&&◌, ◌||◌, not, Option, none, some, List, [], ◌∷◌,
  ◌==◌, ltb, nat_eq, if◌then◌else◌,
}
use megaserver.Common.Texts.{concat}
use megaserver.Common.Utf8.{bytes}
use megaserver.Result.{Result, ok, err, ◌>>=◌}
use megaserver.Json.{Json, str, arr, obj, object, get, get_field, as_str, as_u64}
use megaserver.Http.Actions.{as_u16, text_or}
use megaserver.Control.{Error, HttpQuery, http_payload}
use megaserver.Proxy.{Bytes, HeaderMap, first_value}

-- A status and a message, or a panic.
pub data Failure : Type 0 where
  refused : ℕ → String → Failure
  panicked : Failure

-- The body can fail to arrive, with a message.
pub record HttpRequest : Type 0 where
  pub method : String
  pub path : String
  pub path_and_query : Option String
  pub headers : HeaderMap
  pub body : Result String Bytes

-- The calls on the builder of the response.
pub record HttpReply : Type 0 where
  pub status : ℕ
  pub content_type : String
  pub body : String

pub record Outside : Type 0 where
  -- What the control plane answers at an attempt.
  pub dispatch_control : ℕ → Json → Result Error Json
  pub from_u16 : ℕ → Option ℕ
  pub to_str : Bytes → Option String
  pub from_utf8 : Bytes → Result String String
  pub parse_json : String → Option Json
  pub show_json : Json → String
  -- What the builder says against the parts.
  pub respond : HttpReply → Result String HttpReply

abbrev transient_text : String
transient_text = "invalid control request json: EOF while parsing a value"

abbrev pub contains : String → Bool
contains text = elim (find? text transient_text) [ none ↦ false | some i ↦ true ]

abbrev contains_text : Option String → Bool
contains_text none = false
contains_text (some text) = contains text

abbrev is_500 : Option ℕ → Bool
is_500 none = false
is_500 (some status) = nat_eq status 500

-- `err.to_string()`
abbrev pub top_text : Error → String
top_text [] = ""
top_text (text ∷ causes) = text

unfoldable pub retriable : Result Error Json → Bool
retriable (ok value) =
    is_500 (as_u64 (get "http_status" value)) && contains_text (as_str (get "body" value))
retriable (err e) = contains (top_text e)

abbrev cause_texts : Error → List String
cause_texts [] = []
cause_texts (cause ∷ causes) = ": " ∷ cause ∷ cause_texts causes

abbrev pub internal_error : Error → Failure
internal_error [] = refused 500 ""
internal_error (text ∷ causes) = refused 500 (concat (text ∷ cause_texts causes))

-- What the loop leaves: `response` and `last_err`, or the error it returns at once.
pub data Loop : Type 0 where
  left : Option Json → Option Error → Loop
  returned : Failure → Loop

-- `for attempt in 0..3`, with the rounds that are left.
unfoldable pub attempts : (ℕ → Result Error Json) → ℕ → ℕ → Option Error → Loop
attempts answers zero attempt last_err = left none last_err
attempts answers (suc rounds) attempt last_err = elim (answers attempt) [
  | ok value ↦
      let next = attempts answers rounds (attempt + 1) last_err in
      if retriable (ok value) && ltb attempt 2 then next else left (some value) last_err
  | err e ↦
      let next = attempts answers rounds (attempt + 1) (some e) in
      if retriable (err e) && ltb attempt 2 then next else returned (internal_error e)
]

-- `response.ok_or_else(|| internal_error(last_err.expect(...)))?`
abbrev pub after_loop : Loop → Result Failure Json
after_loop (left (some value) last_err) = ok value
after_loop (left none (some e)) = err (internal_error e)
after_loop (left none none) = err panicked
after_loop (returned failure) = err failure

unfoldable pub looks_like_success_payload : Json → Bool
looks_like_success_payload (arr items) = true
looks_like_success_payload (obj map) =
    not (elim (as_str (get_field "status" map)) [ none ↦ false | some s ↦ s == "error" ])
    && elim (get_field "message" map) [ none ↦ true | some v ↦ false ]
looks_like_success_payload _ = false

abbrev pub looks_parsed : Option Json → Bool
looks_parsed none = false
looks_parsed (some parsed) = looks_like_success_payload parsed

abbrev pub json_content_type : String
json_content_type = "application/json; charset=utf-8"

abbrev pub named_status : Outside → Json → ℕ
named_status out value = elim (as_u16 (as_u64 (get "http_status" value))) [
  | none ↦ 500
  | some raw ↦ elim (out.from_u16 raw) [ none ↦ 500 | some status ↦ status ]
]

abbrev body_text : Outside → Option Json → String
body_text out none = out.show_json (
    object (
      ("status", str "error")
      ∷ ("message", str "fzy response missing body")
      ∷ ("control_plane", str "rust-http-host")
      ∷ []))
body_text out (some (str text)) = text
body_text out (some other) = out.show_json other

-- A 500 whose body looks like a success is sent as 200.
unfoldable pub mended_status : Outside → ℕ → String → ℕ
unfolding looks_like_success_payload
mended_status out status body =
    if nat_eq status 500 && looks_parsed (out.parse_json body) then 200 else status

unfoldable pub named_reply : Outside → Json → HttpReply
unfolding mended_status
named_reply out value =
    let body = body_text out (get "body" value) in
    record {
      status = mended_status out (named_status out value) body;
      content_type = text_or json_content_type (as_str (get "content_type" value));
      body = body;
    }

abbrev pub built : Result String HttpReply → Result Failure HttpReply
built (ok reply) = ok reply
built (err message) = err (refused 500 message)

unfoldable pub response_from_fzy : Outside → Json → Result Failure HttpReply
unfolding named_reply
response_from_fzy out value = built (
    out.respond (elim (get "http_status" value) [
      | some status ↦ named_reply out value
      | none ↦ record { status = 200; content_type = json_content_type; body = out.show_json value }
    ]))

abbrev header_text : Outside → HeaderMap → String → Option String
header_text out headers name = elim (first_value name headers) [
  | none ↦ none
  | some v ↦ out.to_str v
]

abbrev pub or_bad_request : {A : Type 0} → Result String A → Result Failure A
or_bad_request (ok a) = ok a
or_bad_request (err message) = err (refused 400 message)

unfoldable pub request_text : Outside → Bytes → Result Failure (Option String)
request_text out [] = ok none
request_text out (b ∷ bs) = do text ← or_bad_request (out.from_utf8 (b ∷ bs)); ok (some text)

-- The request for the control plane.
unfoldable pub query_of : Outside → HttpRequest → Option String → HttpQuery
query_of out request body = record {
  method = request.method;
  path = elim request.path_and_query [ none ↦ request.path | some text ↦ text ];
  body = body;
  content_type = header_text out request.headers "content-type";
  accept = header_text out request.headers "accept";
  authorization = header_text out request.headers "authorization";
}

unfoldable pub handle_fzy_http : Outside → String → HttpRequest → Result Failure HttpReply
unfolding attempts request_text query_of response_from_fzy http_payload
handle_fzy_http out home request = do
  content ← or_bad_request request.body
  body ← request_text out content
  response ← after_loop (
      attempts
        (λ attempt. out.dispatch_control attempt (http_payload home (query_of out request body))) 3
        0 none)
  response_from_fzy out response
