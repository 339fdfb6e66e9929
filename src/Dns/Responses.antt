-- ===== src/Dns/Responses.antt =====
-- What `respond` of rust/src/dns.rs sends back.
use mathlib.Core.Path.{subst}
use mathlib.Core.Option.{none-ne-some, some-injective}
use mathlib.Core.List.{append_assoc}
use megaserver.Common.{
  ℕ, ◌+◌, ◌%◌, ◌<◌, ◌≡◌, refl, sym, ap, true, false, Option, none, some, List, [], ◌∷◌, ◌++◌, take,
  get_elem?, arith,
}
use megaserver.Common.Texts.{eq_ignore_case}
use megaserver.Common.Utf8.{bytes}
use megaserver.Result.{Result, ok, or_error}
use megaserver.Ipv4.{Ipv4}
use megaserver.State.{Db}
use megaserver.State.Sandboxes.{list_sandboxes}
use megaserver.Exec.Outcomes.{
  Gives, Gives-bind, Gives-pure, Gives-raise, Gives-lift, Gives-weaken, Gives-Keeps, Gives-if,
  Gives-before, Gives-pull,
}
use megaserver.Host.{Host}
use megaserver.App.Constraints.{Keeps-open_db}
use megaserver.App.Stopping.{Gives-query}
use megaserver.Dns.Answers.{IsLookup, lookup_rows-IsLookup}
use megaserver.Dns.{
  ParsedQuery, DnsError, parse_query, build_response, response_from, answer_bytes, answer_count,
  byte_range,
}
use megaserver.Dns.Lookup.{
  Lookup, found, bad_ip, missing, is_gateway, lookup_rows, outcome, lookup_name, rcode_of,
  is_address_query, answer_query, parsed, respond,
}

-- The address for a name: 10.42.0.254 for the gateway's name in any ASCII case, else that of the first live sandbox row
-- that has the name.
pub data IsAddress (name : List ℕ) (db : Db) : Option Ipv4 → Type 0 where
  gateway :
      eq_ignore_case name (bytes "gateway.megaserver") ≡ true
      → IsAddress name db (some (record { a = 10; b = 42; c = 0; d = 254 }))
  sandbox :
      (ip : Ipv4)
      → eq_ignore_case name (bytes "gateway.megaserver") ≡ false
      → IsLookup name (list_sandboxes db) (found ip)
      → IsAddress name db (some ip)
  nobody :
      eq_ignore_case name (bytes "gateway.megaserver") ≡ false
      → IsLookup name (list_sandboxes db) missing
      → IsAddress name db none

-- The last four bytes, if there is an address.
abbrev pub EndsInAddress : Option Ipv4 → List ℕ → Type 0
EndsInAddress none out = Unit
EndsInAddress (some ip) out = (front : List ℕ) × (out ≡ front ++ ip.a ∷ ip.b ∷ ip.c ∷ ip.d ∷ [])

-- The bytes of a response: the id of the request, the code below the bit for recursion, the number of answers, and the
-- address at the end.
pub record IsReply (packet : List ℕ) (answer : Option Ipv4) (code count : ℕ) (out : List ℕ)
    : Type 0 where
  pub id : take 2 out ≡ take 2 packet
  pub code_byte : get_elem? out 3 ≡ some (0x80 + code)
  pub count_low : get_elem? out 7 ≡ some count
  pub address : EndsInAddress answer out

-- The response to a question: an address with code 0, no address with code 3, and code 4 for other types or classes.
pub data IsResponse (packet : List ℕ) (q : ParsedQuery) (db : Db) (out : List ℕ) : Type 0 where
  address :
      (ip : Ipv4)
      → (q.qtype ≡ 1) × (q.qclass ≡ 1)
      → IsAddress q.name db (some ip)
      → IsReply packet (some ip) 0 1 out
      → IsResponse packet q db out
  unknown :
      (q.qtype ≡ 1) × (q.qclass ≡ 1)
      → IsAddress q.name db none
      → IsReply packet none 3 0 out
      → IsResponse packet q db out
  other :
      ¬ ((q.qtype ≡ 1) × (q.qclass ≡ 1)) → IsReply packet none 4 0 out → IsResponse packet q db out

EndsInAddress-answer_bytes :
    (front : List ℕ) (answer : Option Ipv4) → EndsInAddress answer (front ++ answer_bytes answer)
EndsInAddress-answer_bytes front none = tt
EndsInAddress-answer_bytes front (some ip) = (
  front ++ 0xc0 ∷ 0x0c ∷ 0 ∷ 1 ∷ 0 ∷ 1 ∷ 0 ∷ 0 ∷ 0 ∷ 5 ∷ 0 ∷ 4 ∷ [],
  sym (append_assoc front _ _),
)

response_from-IsReply :
    (packet : List ℕ) (question : Option (List ℕ)) (answer : Option Ipv4) (code : ℕ) (out : List ℕ)
    → code < 16
    → response_from packet question answer code ≡ some out
    → IsReply packet answer code (answer_count answer) out
response_from-IsReply [] question answer code out small e = absurd (none-ne-some _ e)
response_from-IsReply (a ∷ []) question answer code out small e = absurd (none-ne-some _ e)
response_from-IsReply (a ∷ b ∷ []) question answer code out small e = absurd (none-ne-some _ e)
response_from-IsReply (a ∷ b ∷ c ∷ rest) none answer code out small e = absurd (none-ne-some _ e)
response_from-IsReply (a ∷ b ∷ c ∷ rest) (some question) answer code out small e =
    subst (IsReply (a ∷ b ∷ c ∷ rest) answer code (answer_count answer)) (some-injective _ _ e)
      record {
        id = refl;
        code_byte = ap (λ n. some (0x80 + n)) (omega (arith, small));
        count_low = refl;
        address =
            EndsInAddress-answer_bytes
              (a
                ∷ b
                ∷ (0x80 + c % 2)
                ∷ (0x80 + code % 16)
                ∷ 0
                ∷ 1
                ∷ 0
                ∷ answer_count answer
                ∷ 0
                ∷ 0
                ∷ 0
                ∷ 0
                ∷ question)
              answer;
      }

build_response-IsReply :
    (packet : List ℕ) (offset : ℕ) (answer : Option Ipv4) (code : ℕ) (out : List ℕ)
    → code < 16
    → build_response packet offset answer code ≡ some out
    → IsReply packet answer code (answer_count answer) out
unfolding build_response
build_response-IsReply packet offset answer code out small e =
    response_from-IsReply packet (byte_range 12 offset packet) answer code out small e

answered :
    (packet : List ℕ) (q : ParsedQuery) (db : Db) (answer : Option Ipv4) (out : List ℕ)
    → is_address_query q ≡ true
    → IsAddress q.name db answer
    → build_response packet q.end_offset answer (rcode_of answer) ≡ some out
    → IsResponse packet q db out
answered packet q db none out e h made =
    IsResponse.unknown (ground arith) h
      (build_response-IsReply packet q.end_offset none 3 out (omega arith) made)
answered packet q db (some ip) out e h made =
    IsResponse.address ip (ground arith) h
      (build_response-IsReply packet q.end_offset (some ip) 0 out (omega arith) made)

module _ (host : Host) where
  open host use {World}

  Gives-outcome :
      (name : List ℕ) (o : Lookup)
      → is_gateway name ≡ false
      → Gives
          (λ db. lookup_rows (list_sandboxes db) name ≡ o)
          (outcome host o)
          (λ answer db. IsAddress name db answer)
  unfolding outcome
  Gives-outcome name (found ip) e =
      Gives-pure _
        (λ db h. IsAddress.sandbox ip e (subst (IsLookup name _) h (lookup_rows-IsLookup _ name)))
  Gives-outcome name bad_ip e = Gives-raise _ _
  Gives-outcome name missing e =
      Gives-pure _
        (λ db h. IsAddress.nobody e (subst (IsLookup name _) h (lookup_rows-IsLookup _ name)))

  Gives-lookup_name :
      (name : List ℕ)
      → Gives (λ db. Unit {0}) (lookup_name host name) (λ answer db. IsAddress name db answer)
  unfolding lookup_name
  Gives-lookup_name name =
      Gives-if (is_gateway name) _ _ (λ e. Gives-pure _ (λ db h. IsAddress.gateway e))
        λ e. Gives-bind _ _ (Gives-Keeps {P = λ db. Unit {0}} _ (Keeps-open_db host)) λ u.
          Gives-bind _ _ (Gives-query host list_sandboxes) λ rows.
            Gives-before _ (λ db h. ap (λ rs. lookup_rows rs name) h.1)
              (Gives-outcome name (lookup_rows rows name) e)

  or_error-eq-ok : {E A : Type 0} (o : Option A) (e : E) (a : A) → or_error o e ≡ ok a → o ≡ some a
  or_error-eq-ok o e a h = ground arith

  Gives-answer_query :
      (packet : List ℕ) (q : ParsedQuery)
      → Gives (λ db. Unit {0}) (answer_query host packet q) (λ out db. IsResponse packet q db out)
  unfolding answer_query
  Gives-answer_query packet q =
      Gives-if (is_address_query q) _ _
        (λ e. Gives-bind _ _ (Gives-lookup_name q.name) λ answer.
          Gives-weaken _
            (λ out db h. answered packet q db answer out e h.0 (or_error-eq-ok _ _ out h.1))
            (Gives-lift _))
        λ e.
          Gives-weaken _
            (λ out db h.
              IsResponse.other (λ both. ground arith)
                (build_response-IsReply packet q.end_offset none 4 out (omega arith)
                  (or_error-eq-ok _ _ out h.1)))
            (Gives-lift {P = λ db. Unit {0}} _)

  parsed-eq-ok : (r : Result DnsError ParsedQuery) (q : ParsedQuery) → parsed r ≡ ok q → r ≡ ok q
  parsed-eq-ok r q h = ground arith

  -- When `respond` returns a packet, the request parses, and the packet has the id of the request. For a question of type
  -- A and class IN it has code 0, one answer, and as its last bytes 10.42.0.254 for the gateway's name or else the address
  -- of the first sandbox row that is not stopped, has an address and has the name, and code 3 without an answer if there
  -- is no such row; for any other type or class it has code 4 and no answer.
  pub respond-IsResponse :
      (packet : List ℕ)
      → Gives
          (λ db. Unit {0})
          (respond host packet)
          (λ out db. (q : ParsedQuery) × (parse_query packet ≡ ok q) × IsResponse packet q db out)
  unfolding respond
  respond-IsResponse packet = Gives-bind _ _ (Gives-lift {P = λ db. Unit {0}} _) λ q.
      Gives-pull _
        λ e. Gives-weaken _ (λ out db h. (q, parsed-eq-ok _ q e, h)) (Gives-answer_query packet q)
