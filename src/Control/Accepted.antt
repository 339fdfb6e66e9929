-- ===== src/Control/Accepted.antt =====
-- Answers over HTTP that the client of rust/src/controlplane.rs accepts.
use mathlib.Core.Path.{subst}
use megaserver.Common.{
  ℕ, ◌<◌, ◌≡◌, refl, ◌⊎◌, ◌≢◌, String, Option, none, some, leb, arith, inl, inr, Bool-cases,
  Option-cases,
}
use megaserver.Result.{Result, ok, err, OnOk, OnOk-ok, OnOk-weaken, OnOk-bind, OnOk-self}
use megaserver.Json.{Json, null, bool, num, str, arr, obj, get, as_u64}
use megaserver.Control.{
  Error, error_message, require_status_ok, not_null, with_context, dispatch_http, dispatch_http_ok,
  read_answer, body_value,
}

-- The answer as it is: it does not report an error, and is not null.
pub record IsPlain (value result : Json) : Type 0 where
  pub same : result ≡ value
  pub no_error : error_message value ≡ none
  pub present : value ≢ null

OnOk-with_context :
    {P : Json → Type 0} (context : String) (r : Result Error Json)
    → OnOk P r
    → OnOk P (with_context context r)
OnOk-with_context context (ok a) h = h
OnOk-with_context context (err e) h = record { holds = tt }

not_null-IsPlain :
    (value : Json) → error_message value ≡ none → OnOk (IsPlain value) (not_null value)
not_null-IsPlain null e = record { holds = tt }
not_null-IsPlain (bool b) e =
    OnOk-ok (bool b) record { same = refl; no_error = e; present = λ p. ground arith }
not_null-IsPlain (num n) e =
    OnOk-ok (num n) record { same = refl; no_error = e; present = λ p. ground arith }
not_null-IsPlain (str t) e =
    OnOk-ok (str t) record { same = refl; no_error = e; present = λ p. ground arith }
not_null-IsPlain (arr l) e =
    OnOk-ok (arr l) record { same = refl; no_error = e; present = λ p. ground arith }
not_null-IsPlain (obj fs) e =
    OnOk-ok (obj fs) record { same = refl; no_error = e; present = λ p. ground arith }

require_status_ok-IsPlain : (value : Json) → OnOk (IsPlain value) (require_status_ok value)
unfolding require_status_ok
require_status_ok-IsPlain value = elim (Option-cases (error_message value)) [
  | inl e ↦ rw (require_status_ok, e) (not_null-IsPlain value e)
  | inr (message, e) ↦ rw (require_status_ok, e) record { holds = tt }
]

module _ (dispatch_control : Json → Result Error Json) (show_json : Json → String)
    (parse_json : String → Option Json) where
  -- No status of 400 or more, and the body as JSON or the answer as it is.
  pub record IsAccepted (value result : Json) : Type 0 where
    pub status_low : (status : ℕ) → as_u64 (get "http_status" value) ≡ some status → status < 400
    pub payload :
        ((body : Json) × (get "body" value ≡ some body)
          × (result ≡ body_value dispatch_control show_json parse_json body))
        ⊎ IsPlain value result

  plain :
      (value : Json) (context : String)
      → ((status : ℕ) → as_u64 (get "http_status" value) ≡ some status → status < 400)
      → OnOk (IsAccepted value) (with_context context (require_status_ok value))
  plain value context low =
      OnOk-weaken (λ r h. record { status_low = low; payload = inr h })
        (with_context context (require_status_ok value))
        (OnOk-with_context context (require_status_ok value) (require_status_ok-IsPlain value))

  read_answer-IsAccepted :
      (method path : String) (value : Json)
      → OnOk
          (IsAccepted value)
          (read_answer dispatch_control show_json parse_json method path value)
  unfolding read_answer
  read_answer-IsAccepted method path value =
      elim (Option-cases (as_u64 (get "http_status" value))) [
        | inl e ↦ rw (read_answer, e) (plain value _ (λ status k. ground (arith, k, e)))
        | inr (status, e) ↦ elim (Bool-cases (leb 400 status)) [
          | inl high ↦ rw (read_answer, e, high) record { holds = tt }
          | inr low ↦ elim (Option-cases (get "body" value)) [
            | inl f ↦
                rw (read_answer, e, low, f) (plain value _ (λ other k. ground (arith, k, e, low)))
            | inr (body, f) ↦
                rw (read_answer, e, low, f)
                  (OnOk-ok (body_value dispatch_control show_json parse_json body) record {
                    status_low = λ other k. ground (arith, k, e, low);
                    payload = inl (body, f, refl);
                  })
          ]
        ]
      ]

  abbrev IsCall : String → String → String → Option Json → Json → Type 0
  IsCall home method path sent result =
      (value : Json) × (dispatch_http dispatch_control show_json parse_json home method path sent
        ≡ ok value)
      × IsAccepted value result

  -- Where a call over HTTP returns, the control plane has answered with no status of 400 or more, and the result is the
  -- body of the answer, as JSON where it is the text of some, or the whole answer, which then is not null and does not
  -- say that its status is an error.
  pub dispatch_http_ok-IsAccepted :
      (home method path : String) (sent : Option Json) (result : Json)
      → dispatch_http_ok dispatch_control show_json parse_json home method path sent ≡ ok result
      → (value : Json) × (dispatch_http dispatch_control show_json parse_json home method path sent
          ≡ ok value)
        × IsAccepted value result
  unfolding dispatch_http_ok
  dispatch_http_ok-IsAccepted home method path sent result e =
      (subst (OnOk (IsCall home method path sent)) e (
        OnOk-bind (dispatch_http dispatch_control show_json parse_json home method path sent)
          (read_answer dispatch_control show_json parse_json method path)
          (OnOk-self (dispatch_http dispatch_control show_json parse_json home method path sent))
          (λ value asked.
            OnOk-weaken (λ result accepted. (value, asked, accepted))
              (read_answer dispatch_control show_json parse_json method path value)
              (read_answer-IsAccepted method path value)))).holds
