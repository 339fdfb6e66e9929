-- ===== src/Ingress.antt =====
-- `signed_link` and `resolve_signed_target` of rust/src/ingress.rs. The clock, the keyed hash and the parser and writer of
-- query texts are arguments: the seconds since the epoch, HMAC-SHA256 in hexadecimal (which may refuse its key), and
-- `form_urlencoded`.
pub mod Links
pub mod Decimals
pub mod Signing
use megaserver.Common.{
  ℕ, ◌+◌, ◌*◌, ◌-◌, ◌%◌, ◌^◌, ◌||◌, String, Bool, true, false, ◌&&◌, not, Option, none, some, List,
  [], ◌∷◌, ◌==◌, leb, ltb, if◌then◌else◌,
}
use text.Mathlib.Text.{starts_with}
use megaserver.Common.Texts.{codes, concat, decimal}
use megaserver.Result.{Result, ok, err, or_error, guard, ◌>>=◌, ◌>>◌}

pub data LinkError : Type 0 where
  missing_query : LinkError
  missing_target : LinkError
  missing_expiry : LinkError
  invalid_expiry : LinkError
  missing_signature : LinkError
  expired : LinkError
  invalid_key : LinkError
  signature_mismatch : LinkError
  bad_scheme : LinkError
  bad_target : LinkError

-- What `signed_link` answers with.
pub record SignedLink : Type 0 where
  pub service : String
  pub domain : String
  pub scheme : String
  pub target : String
  pub expires_at : ℕ
  pub query : String
  pub ingress_path : String
  pub url : String

abbrev pub signed_path : String
signed_path = "/_megaserver/signed"

abbrev signed_url : String → String → String → String
signed_url scheme domain path = concat (scheme ∷ "://" ∷ domain ∷ path ∷ [])

abbrev link_path : String → String
link_path query = concat (signed_path ∷ "?" ∷ query ∷ [])

-- `now_epoch_seconds() + expires_in` of two `u64`, which wraps in a release build.
abbrev pub expiry_of : ℕ → ℕ → ℕ
expiry_of now expires_in = (now + expires_in) % 2 ^ 64

-- `parse::<u64>()`: an optional plus sign, and at least one digit, of a value that fits.
abbrev pub fits : Option ℕ → Option ℕ
fits none = none
fits (some n) = if ltb n (2 ^ 64) then some n else none

abbrev pub digits_value : ℕ → List ℕ → Option ℕ
digits_value n [] = some n
digits_value n (c ∷ cs) =
    let rest = digits_value (n * 10 + (c - b'0')) cs in
    if leb b'0' c && leb c b'9' then rest else none

abbrev pub unsigned : List ℕ → Option ℕ
unsigned [] = none
unsigned (c ∷ cs) = digits_value 0 (c ∷ cs)

abbrev pub without_plus : List ℕ → List ℕ
without_plus [] = []
without_plus (c ∷ cs) = if leb b'+' c && leb c b'+' then cs else c ∷ cs

unfoldable pub parse_u64 : String → Option ℕ
parse_u64 text = fits (unsigned (without_plus (codes text)))

-- `collect::<HashMap<_, _>>()` and `get`: the last pair of a key.
unfoldable pub param : String → List (String × String) → Option String
param key [] = none
param key ((k, v) ∷ rest) =
    let later = param key rest in
    elim later [ none ↦ if k == key then some v else none | some w ↦ some w ]

unfoldable pub signature_payload : String → String → String → ℕ → String
signature_payload domain service target expires_at =
    concat (domain ∷ "\n" ∷ service ∷ "\n" ∷ target ∷ "\n" ∷ decimal expires_at ∷ [])

module _ (now : ℕ) (hmac : String → String → Option String)
    (parse_query : String → List (String × String)) where
  unfoldable pub sign : String → String → String → String → ℕ → Result LinkError String
  sign secret domain service target expires_at =
      or_error (hmac secret (signature_payload domain service target expires_at)) invalid_key

  unfoldable pub check_link :
      String → String → String → List (String × String) → Result LinkError String
  unfolding sign
  check_link secret domain service params = do
    target ← or_error (param "target" params) missing_target
    expiry ← or_error (param "exp" params) missing_expiry
    expires_at ← or_error (parse_u64 expiry) invalid_expiry
    signature ← or_error (param "sig" params) missing_signature
    guard (not (ltb expires_at now)) expired
    expected ← sign secret domain service target expires_at
    guard (expected == signature) signature_mismatch
    ok target

  unfoldable pub resolve_signed_target :
      String → String → String → Option String → Result LinkError String
  unfolding check_link
  resolve_signed_target secret domain service query = do
    text ← or_error query missing_query
    check_link secret domain service (parse_query text)

-- The pairs of a link's query, in order.
abbrev pub link_pairs : String → ℕ → String → List (String × String)
link_pairs target expires_at signature =
    ("target", target) ∷ ("exp", decimal expires_at) ∷ ("sig", signature) ∷ []

abbrev pub link_of : String → String → String → String → ℕ → String → SignedLink
link_of scheme domain service target expires_at query = record {
  service = service;
  domain = domain;
  scheme = scheme;
  target = target;
  expires_at = expires_at;
  query = query;
  ingress_path = link_path query;
  url = signed_url scheme domain (link_path query);
}

-- The writer of query texts instead of the parser.
module _ (now : ℕ) (hmac : String → String → Option String)
    (write_query : List (String × String) → String) where
  unfoldable pub signed_link :
      String → String → String → String → ℕ → String → Result LinkError SignedLink
  signed_link scheme domain service target expires_in secret = do
    guard (scheme == "http" || scheme == "https") bad_scheme
    guard (starts_with target "/") bad_target
    let expires_at = expiry_of now expires_in
    signature ←
        or_error (hmac secret (signature_payload domain service target expires_at)) invalid_key
    ok (
        link_of scheme domain service target expires_at
          (write_query (link_pairs target expires_at signature)))
