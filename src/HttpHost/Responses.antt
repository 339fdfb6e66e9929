-- ===== src/HttpHost/Responses.antt =====
-- Responses of the router of rust/src/host_abi.rs through the server of rust/src/http_host.rs.
use megaserver.Common.{
  ℕ, ◌^◌, ◌<◌, ◌≡◌, refl, ap, ◌∙◌, nat_eq_iff, true, false, String, Option, some, nat_eq, ltb,
  arith, inl, inr, Bool-cases,
}
use megaserver.Result.{ok}
use megaserver.Http.{http_response}
use megaserver.Proxy.{Bytes}
use megaserver.HttpHost.Attempts.{first_settled, after_loop-attempts}
use megaserver.HttpHost.{
  looks_parsed, named_status, Outside, HttpRequest, HttpReply, json_content_type, mended_status,
  named_reply, query_of, request_text, response_from_fzy, handle_fzy_http,
}
use megaserver.Control.{http_payload}

abbrev pub reply_with : ℕ → String → HttpReply
reply_with status body = record { status = status; content_type = json_content_type; body = body }

module _ (out : Outside) (status : ℕ) (body : String) (small : status < 2 ^ 16)
    (known : out.from_u16 status ≡ some status)
    (honest : status ≡ 500 → looks_parsed (out.parse_json body) ≡ false) where
  mended_status-honest : mended_status out status body ≡ status
  unfolding mended_status
  mended_status-honest = elim (Bool-cases (nat_eq status 500)) [
    | inl e ↦ rw (e, honest ((nat_eq_iff status 500).0 e)) refl
    | inr e ↦ rw e refl
  ]

  named_status-http_response : named_status out (http_response status body) ≡ status
  named_status-http_response = rw (named_status, wide, short, known) refl
    where
      wide : ltb status (2 ^ 64) ≡ true
      wide = ground arith

      short : ltb status (2 ^ 16) ≡ true
      short = ground arith

  named_reply-http_response : named_reply out (http_response status body) ≡ reply_with status body
  unfolding named_reply
  named_reply-http_response =
      ap (λ n. reply_with (mended_status out n body) body) named_status-http_response
      ∙ ap (λ n. reply_with n body) mended_status-honest

  -- Where the first settled answer of the control plane is a response of the router, with a status that is one and is
  -- not 500 for a body that looks like a success, and the request's body arrives as UTF-8 and the builder takes the
  -- parts, the client gets that status with that body as JSON, whatever failed at the attempts before.
  pub handle_fzy_http-http_response :
      (home : String) (request : HttpRequest) (content : Bytes) (text : Option String)
      → request.body ≡ ok content
      → request_text out content ≡ ok text
      → first_settled
          (λ attempt. out.dispatch_control attempt (http_payload home (query_of out request text)))
        ≡ ok (http_response status body)
      → out.respond (reply_with status body) ≡ ok (reply_with status body)
      → handle_fzy_http out home request ≡ ok (reply_with status body)
  unfolding handle_fzy_http response_from_fzy
  handle_fzy_http-http_response home request content text arrived read answered taken =
      rw
        (
          arrived,
          read,
          after_loop-attempts (λ attempt.
              out.dispatch_control attempt (http_payload home (query_of out request text))),
          answered,
          named_reply-http_response,
          taken,
        )
        refl
