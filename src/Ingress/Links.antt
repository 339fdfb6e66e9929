-- ===== src/Ingress/Links.antt =====
-- Which signed links rust/src/ingress.rs accepts.
use mathlib.Core.Path.{subst}
use megaserver.Common.{
  ap, ◌∙◌, ℕ, ◌≤◌, String, ◌≡◌, ◌↔◌, true, not, Option, some, List, ◌==◌, ltb, arith, eq_iff,
}
use megaserver.Result.{ok, OnOk, OnOk-ok, OnOk-or_error, OnOk-guard, OnOk-bind}
use megaserver.Ingress.{
  param, parse_u64, signature_payload, sign, check_link, resolve_signed_target,
}

-- The link names the target, has not expired, and is signed with the key for this domain, service, target and expiry.
pub record IsValidLink (now : ℕ) (hmac : String → String → Option String)
    (secret domain service target : String) (params : List (String × String)) : Type 0 where
  pub expiry : String
  pub expires_at : ℕ
  pub signature : String
  pub names : param "target" params ≡ some target
  pub dated : param "exp" params ≡ some expiry
  pub parsed : parse_u64 expiry ≡ some expires_at
  pub current : now ≤ expires_at
  pub signed : param "sig" params ≡ some signature
  pub keyed : hmac secret (signature_payload domain service target expires_at) ≡ some signature

not_before : (a b : ℕ) → not (ltb a b) ≡ true → b ≤ a
not_before a b h = ground arith

module _ (now : ℕ) (hmac : String → String → Option String)
    (parse_query : String → List (String × String)) where
  OnOk-check_link :
      (secret domain service : String) (params : List (String × String))
      → OnOk
          (λ target. IsValidLink now hmac secret domain service target params)
          (check_link now hmac parse_query secret domain service params)
  unfolding check_link sign
  OnOk-check_link secret domain service params =
      OnOk-bind _ _ (OnOk-or_error (param "target" params) _) λ target names.
        OnOk-bind _ _ (OnOk-or_error (param "exp" params) _) λ expiry dated.
          OnOk-bind _ _ (OnOk-or_error (parse_u64 expiry) _) λ expires_at parsed.
            OnOk-bind _ _ (OnOk-or_error (param "sig" params) _) λ signature signed.
              OnOk-bind _ _ (OnOk-guard (not (ltb expires_at now)) _) λ u current.
                OnOk-bind _ _
                  (OnOk-or_error (hmac secret (signature_payload domain service target expires_at))
                    _)
                  λ expected keyed. OnOk-bind _ _ (OnOk-guard (expected == signature) _) λ v same.
                    OnOk-ok _ (record {
                      expiry = expiry;
                      expires_at = expires_at;
                      signature = signature;
                      names = names;
                      dated = dated;
                      parsed = parsed;
                      current = not_before expires_at now current;
                      signed = signed;
                      keyed = keyed ∙ ap some ((eq_iff expected signature).0 same);
                    })

  module _ (secret domain service text target : String) where
    valid_of_ok :
        resolve_signed_target now hmac parse_query secret domain service (some text) ≡ ok target
        → IsValidLink now hmac secret domain service target (parse_query text)
    unfolding resolve_signed_target
    valid_of_ok h =
        (subst (OnOk (λ t. IsValidLink now hmac secret domain service t (parse_query text))) h
          (OnOk-check_link secret domain service (parse_query text))).holds

    ok_of_valid :
        IsValidLink now hmac secret domain service target (parse_query text)
        → resolve_signed_target now hmac parse_query secret domain service (some text) ≡ ok target
    unfolding resolve_signed_target check_link sign
    ok_of_valid v = ground (
      arith,
      v.names,
      v.dated,
      v.parsed,
      v.current,
      v.signed,
      v.keyed,
      eq_iff v.signature v.signature,
    )

    -- A query resolves to a target exactly if it names that target, carries an expiry that is a number of 64 bits and has
    -- not passed, and carries the keyed hash of the domain, the service, the target and that expiry.
    pub resolve_signed_target-eq-ok_iff :
        (resolve_signed_target now hmac parse_query secret domain service (some text) ≡ ok target)
        ↔ IsValidLink now hmac secret domain service target (parse_query text)
    resolve_signed_target-eq-ok_iff = (valid_of_ok, ok_of_valid)
