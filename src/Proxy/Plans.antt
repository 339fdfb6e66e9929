-- ===== src/Proxy/Plans.antt =====
-- The plans that `proxy_plan_from_value` of rust/src/proxy.rs reads.
use Prim.Native.Nat.{Ordering}
use Prim.Native.String.{compare}
use megaserver.Common.{ℕ, ◌^◌, ◌<◌, ◌≡◌, refl, ap, ◌∙◌, String, true, List, [], ◌∷◌, ltb, arith}
use megaserver.Result.{ok}
use megaserver.Json.{Json, num, str, object, Fields, end, field, fields, add_field}
use megaserver.Proxy.{ProxyPlan, Outside, text_fields, proxy_plan_from_value, read_plan}

abbrev pub header_strings : List (String × String) → List (String × Json)
header_strings [] = []
header_strings ((name, value) ∷ rest) = (name, str value) ∷ header_strings rest

-- A plan as the control plane answers with it.
abbrev pub plan_value : ProxyPlan → Json
plan_value plan = object (
    ("status", str "ok")
    ∷ ("proxy_kind", str plan.proxy_kind)
    ∷ ("upstream_host", str plan.upstream_host)
    ∷ ("upstream_port", num plan.upstream_port)
    ∷ ("upstream_path", str plan.upstream_path)
    ∷ ("drop_request_headers", str plan.drop_request_headers)
    ∷ ("drop_response_headers", str plan.drop_response_headers)
    ∷ ("set_request_headers", object (header_strings plan.set_request_headers))
    ∷ ("set_response_headers", object (header_strings plan.set_response_headers))
    ∷ [])

-- The headers of a map: sorted by name, each name once.
abbrev pub IsSortedMap : List (String × String) → Type 0
IsSortedMap [] = Unit
IsSortedMap ((name, value) ∷ []) = Unit
IsSortedMap ((name, value) ∷ (next, other) ∷ rest) =
    (compare name next ≡ Ordering.lt) × IsSortedMap ((next, other) ∷ rest)

abbrev listed : List (String × String) → Fields
listed [] = end
listed ((name, value) ∷ rest) = field name (str value) (listed rest)

fields-header_strings :
    (headers : List (String × String))
    → IsSortedMap headers
    → fields (header_strings headers) ≡ listed headers
fields-header_strings [] h = refl
fields-header_strings ((name, value) ∷ []) h = refl
fields-header_strings ((name, value) ∷ (next, other) ∷ rest) h =
    ap (add_field name (str value)) (fields-header_strings ((next, other) ∷ rest) h.1)
    ∙ rw (add_field, h.0) refl

text_fields-listed : (headers : List (String × String)) → text_fields (listed headers) ≡ headers
text_fields-listed [] = refl
text_fields-listed ((name, value) ∷ rest) = ap (λ l. (name, value) ∷ l) (text_fields-listed rest)

text_fields-header_strings :
    (headers : List (String × String))
    → IsSortedMap headers
    → text_fields (fields (header_strings headers)) ≡ headers
text_fields-header_strings headers h =
    ap text_fields (fields-header_strings headers h) ∙ text_fields-listed headers

-- A plan whose port has 16 bits and whose headers to set stand as those of a map do, sorted by name with each name once,
-- is read back as it is from the object that has the fields of the plan.
pub proxy_plan_from_value-plan_value :
    (out : Outside) (plan : ProxyPlan)
    → plan.upstream_port < 2 ^ 16
    → IsSortedMap plan.set_request_headers
    → IsSortedMap plan.set_response_headers
    → proxy_plan_from_value out (plan_value plan) ≡ ok plan
unfolding proxy_plan_from_value read_plan
proxy_plan_from_value-plan_value out plan small asked answered =
    rw
      (
        wide plan.upstream_port small,
        short plan.upstream_port small,
        text_fields-header_strings plan.set_request_headers asked,
        text_fields-header_strings plan.set_response_headers answered,
      )
      refl
  where
    wide : (n : ℕ) → n < 2 ^ 16 → ltb n (2 ^ 64) ≡ true
    wide n h = ground arith

    short : (n : ℕ) → n < 2 ^ 16 → ltb n (2 ^ 16) ≡ true
    short n h = ground arith
