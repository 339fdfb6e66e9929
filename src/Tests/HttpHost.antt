-- ===== src/Tests/HttpHost.antt =====
-- Exchanges through the HTTP server and the client of the control plane, and the theorems on them.
use megaserver.Common.{ℕ, zero, suc, ◌≡◌, refl, false, none, some, [], ◌∷◌, arith}
use megaserver.Result.{Result, ok, err}
use megaserver.Json.{Json, str, object}
use megaserver.Http.{http_response}
use megaserver.Control.{Error, dispatch_http, dispatch_http_ok, read_answer}
use megaserver.Control.Accepted.{IsAccepted, dispatch_http_ok-IsAccepted}
use megaserver.HttpHost
use megaserver.HttpHost.{
  HttpRequest, Failure, refused, attempts, after_loop, retriable, handle_fzy_http, request_text,
  looks_like_success_payload,
}
use megaserver.HttpHost.Attempts.{after_loop-attempts, settled}
use megaserver.HttpHost.Responses.{handle_fzy_http-http_response, reply_with}

abbrev cut_off : Error
cut_off = "dispatch: invalid control request json: EOF while parsing a value" ∷ []

-- Cut off at the first attempt, and answered at the next.
abbrev answers : ℕ → Result Error Json
answers zero = err cut_off
answers (suc n) = ok (http_response 404 "{}")

abbrev outside : HttpHost.Outside
outside = record {
  dispatch_control = λ attempt request. answers attempt;
  from_u16 = λ n. some n;
  to_str = λ v. none;
  from_utf8 = λ b. ok "body";
  parse_json = λ text. none;
  show_json = λ value. "json";
  respond = λ reply. ok reply;
}

abbrev request : HttpRequest
request = record {
  method = "GET";
  path = "/v1/nothing";
  path_and_query = some "/v1/nothing?a";
  headers = [];
  body = ok [];
}

host_tests :
    (after_loop (attempts (λ n. err cut_off) 3 0 none)
      ≡ err (refused 500 "dispatch: invalid control request json: EOF while parsing a value"))
    × (after_loop (attempts (λ n. err ("down" ∷ "refused" ∷ [])) 3 0 none)
        ≡ err (refused 500 "down: refused"))
    × (looks_like_success_payload (object (("message", str "no") ∷ [])) ≡ false)
unfolding attempts retriable looks_like_success_payload
host_tests = (refl, refl, refl)

after_loop-attempts_example :
    after_loop (attempts answers 3 0 none) ≡ settled (ok (http_response 404 "{}"))
unfolding retriable
after_loop-attempts_example = after_loop-attempts answers

handle_fzy_http-http_response_example :
    handle_fzy_http outside "/home" request ≡ ok (reply_with 404 "{}")
unfolding request_text retriable
handle_fzy_http-http_response_example =
    handle_fzy_http-http_response outside 404 "{}" (omega arith) refl
      (λ e. absurd (omega (arith, e))) "/home" request [] none refl refl refl refl

abbrev accepted : Json → Result Error Json
accepted sent = ok (http_response 200 "text")

abbrev IsAnswered : Json → Type 0
IsAnswered result =
    (value : Json) × (dispatch_http accepted outside.show_json outside.parse_json "/home" "GET"
        "/v1/health" none
      ≡ ok value)
    × IsAccepted accepted outside.show_json outside.parse_json value result

dispatch_http_ok-IsAccepted_example : IsAnswered (str "text")
unfolding dispatch_http_ok read_answer
dispatch_http_ok-IsAccepted_example =
    dispatch_http_ok-IsAccepted accepted outside.show_json outside.parse_json "/home" "GET"
      "/v1/health" none (str "text") refl
