-- ===== src/Ingress/Signing.antt =====
-- The links that rust/src/ingress.rs signs are those that it accepts.
use mathlib.Core.Path.{subst}
use megaserver.Common.{
  ap, ◌∙◌, ℕ, ◌≤◌, ◌<◌, ◌^◌, String, ◌≡◌, refl, ◌||◌, Option, some, List, [], ◌∷◌, ◌==◌, arith,
}
use text.Mathlib.Text.{starts_with}
use megaserver.Common.Texts.{decimal}
use megaserver.Result.{ok, OnOk, OnOk-ok, OnOk-or_error, OnOk-guard, OnOk-bind}
use megaserver.Ingress.{
  SignedLink, signed_link, expiry_of, param, signature_payload, resolve_signed_target, bad_scheme,
  bad_target, invalid_key,
}
use megaserver.Ingress.Links.{resolve_signed_target-eq-ok_iff}
use megaserver.Ingress.Decimals.{parse_u64-decimal}

-- The link's query is the target, the expiry and its keyed hash.
pub record IsSigned (now : ℕ) (hmac : String → String → Option String)
    (write_query : List (String × String) → String) (domain service target : String)
    (expires_in : ℕ) (secret : String) (link : SignedLink) : Type 0 where
  pub signature : String
  pub keyed :
      hmac secret (signature_payload domain service target (expiry_of now expires_in))
      ≡ some signature
  pub dated : link.expires_at ≡ expiry_of now expires_in
  pub written :
      link.query
      ≡ write_query (
          ("target", target)
          ∷ ("exp", decimal (expiry_of now expires_in))
          ∷ ("sig", signature)
          ∷ [])

module _ (now : ℕ) (hmac : String → String → Option String)
    (write_query : List (String × String) → String) where
  OnOk-signed_link :
      (scheme domain service target : String) (expires_in : ℕ) (secret : String)
      → OnOk
          (IsSigned now hmac write_query domain service target expires_in secret)
          (signed_link now hmac write_query scheme domain service target expires_in secret)
  unfolding signed_link
  OnOk-signed_link scheme domain service target expires_in secret =
      OnOk-bind _ _ (OnOk-guard (scheme == "http" || scheme == "https") bad_scheme) λ u v.
        OnOk-bind _ _ (OnOk-guard (starts_with target "/") bad_target) λ w x.
          OnOk-bind _ _
            (OnOk-or_error
              (hmac secret (signature_payload domain service target (expiry_of now expires_in)))
              invalid_key)
            λ signature keyed.
              OnOk-ok _
                (record { signature = signature; keyed = keyed; dated = refl; written = refl })

  pub signed_link-IsSigned :
      (scheme domain service target : String) (expires_in : ℕ) (secret : String) (link : SignedLink)
      → signed_link now hmac write_query scheme domain service target expires_in secret ≡ ok link
      → IsSigned now hmac write_query domain service target expires_in secret link
  signed_link-IsSigned scheme domain service target expires_in secret link signed =
      (subst (OnOk (IsSigned now hmac write_query domain service target expires_in secret)) signed
        (OnOk-signed_link scheme domain service target expires_in secret)).holds

expiry_fits : (now expires_in : ℕ) → expiry_of now expires_in < 2 ^ 64
expiry_fits now expires_in = omega arith

-- A link that was signed resolves to its target until it expires: for the same domain, service and secret, where the
-- parser of query texts reads back what the writer wrote, with `expires_at` the sum of the time of signing and the
-- lifetime in 64 bits.
pub resolve_signed_target-signed_link :
    (now later : ℕ) (hmac : String → String → Option String)
    (write_query : List (String × String) → String) (parse_query : String → List (String × String))
    (scheme domain service target : String) (expires_in : ℕ) (secret : String) (link : SignedLink)
    → ((pairs : List (String × String)) → parse_query (write_query pairs) ≡ pairs)
    → signed_link now hmac write_query scheme domain service target expires_in secret ≡ ok link
    → later ≤ expiry_of now expires_in
    → resolve_signed_target later hmac parse_query secret domain service (some link.query)
      ≡ ok target
unfolding param
resolve_signed_target-signed_link now later hmac write_query parse_query scheme domain service
      target expires_in secret link reads signed current =
    let s =
      signed_link-IsSigned now hmac write_query scheme domain service target expires_in secret link
        signed in
    (resolve_signed_target-eq-ok_iff later hmac parse_query secret domain service link.query
        target).1
      (record {
        expiry = decimal (expiry_of now expires_in);
        expires_at = expiry_of now expires_in;
        signature = s.signature;
        names = ap (param "target") (pairs_read s);
        dated = ap (param "exp") (pairs_read s);
        parsed = parse_u64-decimal (expiry_of now expires_in) (expiry_fits now expires_in);
        current = current;
        signed = ap (param "sig") (pairs_read s);
        keyed = s.keyed;
      })
  where
    pairs_read :
        (s : IsSigned now hmac write_query domain service target expires_in secret link)
        → parse_query link.query
          ≡ ("target", target)
            ∷ ("exp", decimal (expiry_of now expires_in))
            ∷ ("sig", s.signature)
            ∷ []
    pairs_read s = ap parse_query s.written ∙ reads _
