-- ===== src/Dns/Packets.antt =====
-- Bounds of `parse_query` and `build_response` of rust/src/dns.rs.
use megaserver.Common.{
  ℕ, zero, suc, ◌+◌, ◌-◌, ◌≤◌, ◌<◌, ◌≡◌, ◌≢◌, refl, ap, ◌∙◌, Option, some, List, [], ◌∷◌, length,
  length-append, get_elem?, take, drop, arith,
}
use megaserver.Result.{ok, err}
use megaserver.Ipv4.{Ipv4}
use megaserver.Dns.{
  ParsedQuery, DnsError, byte_range, parse_labels, parse_tail, parse_query, build_response,
  answer_bytes, response_from,
}

get_elem?-bound :
    {A : Type 0} (xs : List A) (i : ℕ) (x : A) → get_elem? xs i ≡ some x → i < length xs
get_elem?-bound [] i x h = ground arith
get_elem?-bound (y ∷ xs) zero x h = ground arith
get_elem?-bound (y ∷ xs) (suc i) x h = ground (arith, get_elem?-bound xs i x h)

byte_range-bound :
    (start end : ℕ) (packet label : List ℕ)
    → byte_range start end packet ≡ some label
    → end ≤ length packet
unfolding byte_range
byte_range-bound start end packet label h = ground arith

-- Where the loop over the labels ends.
parse_labels-bound :
    (rounds : ℕ) (packet : List ℕ) (offset : ℕ) (labels out : List (List ℕ)) (end : ℕ)
    → parse_labels rounds packet offset labels ≡ ok (out, end)
    → offset + 1 ≤ end
unfolding parse_labels
parse_labels-bound zero packet offset labels out end h = ground arith
parse_labels-bound (suc rounds) packet offset labels out end h =
    grind (arith, parse_labels-bound rounds packet)

parse_labels-rounds :
    (rounds : ℕ) (packet : List ℕ) (offset : ℕ) (labels : List (List ℕ))
    → length packet < rounds + offset
    → offset ≤ length packet
    → ¬ (parse_labels rounds packet offset labels ≡ err DnsError.out_of_rounds)
unfolding parse_labels
parse_labels-rounds zero packet offset labels more here h = omega arith
parse_labels-rounds (suc rounds) packet offset labels more here h =
    grind (arith, parse_labels-rounds rounds packet, byte_range-bound)

parse_tail-eq-ok :
    (packet : List ℕ) (labels : List (List ℕ)) (offset : ℕ) (q : ParsedQuery)
    → parse_tail packet (labels, offset) ≡ ok q
    → (q.end_offset ≡ offset + 4) × (offset + 4 ≤ length packet)
unfolding parse_tail
parse_tail-eq-ok packet labels offset q h = grind (arith, get_elem?-bound)

found-bound :
    (rounds : ℕ) (packet : List ℕ) (offset : ℕ) (labels : List (List ℕ)) (named : List (List ℕ) × ℕ)
    → parse_labels rounds packet offset labels ≡ ok named
    → offset + 1 ≤ named.1
found-bound rounds packet offset labels named h =
    parse_labels-bound rounds packet offset labels named.0 named.1 h

tail-eq-ok :
    (packet : List ℕ) (named : List (List ℕ) × ℕ) (q : ParsedQuery)
    → parse_tail packet named ≡ ok q
    → (q.end_offset ≡ named.1 + 4) × (named.1 + 4 ≤ length packet)
tail-eq-ok packet named q h = parse_tail-eq-ok packet named.0 named.1 q h

parse_tail-rounds :
    (packet : List ℕ) (named : List (List ℕ) × ℕ)
    → ¬ (parse_tail packet named ≡ err DnsError.out_of_rounds)
unfolding parse_tail
parse_tail-rounds packet named h = ground arith

parse_query-eq-ok :
    (packet : List ℕ) (q : ParsedQuery)
    → parse_query packet ≡ ok q
    → (17 ≤ q.end_offset) × (q.end_offset ≤ length packet)
unfolding parse_query
parse_query-eq-ok packet q h = grind (arith, tail-eq-ok, found-bound)

-- The loop over the labels of a packet always ends by itself: its rounds never run out.
pub parse_query-rounds : (packet : List ℕ) → parse_query packet ≢ err DnsError.out_of_rounds
unfolding parse_query
parse_query-rounds packet h =
    grind (arith, parse_tail-rounds packet, parse_labels-rounds (length packet + 1) packet 12 [])

length-take-drop : (n k : ℕ) (xs : List ℕ) → n + k ≤ length xs → length (take n (drop k xs)) ≡ n
length-take-drop zero k xs h = refl
length-take-drop (suc n) zero [] h = omega arith
length-take-drop (suc n) zero (x ∷ xs) h = ground (arith, length-take-drop n zero xs)
length-take-drop (suc n) (suc k) [] h = omega arith
length-take-drop (suc n) (suc k) (x ∷ xs) h = length-take-drop (suc n) k xs (omega arith)

response_from-eq-some :
    (packet question : List ℕ) (answer : Option Ipv4) (rcode : ℕ)
    → 3 ≤ length packet
    → (out : List ℕ) × (response_from packet (some question) answer rcode ≡ some out)
      × (length out ≡ 12 + length question + length (answer_bytes answer))
response_from-eq-some (a ∷ b ∷ c ∷ rest) question answer rcode h =
    (_, refl, omega (arith, length-append question (answer_bytes answer)))
response_from-eq-some (a ∷ b ∷ []) question answer rcode h = absurd (omega arith)
response_from-eq-some (a ∷ []) question answer rcode h = absurd (omega arith)
response_from-eq-some [] question answer rcode h = absurd (omega arith)

pub byte_range-eq-some :
    (start end : ℕ) (packet : List ℕ)
    → start ≤ end
    → end ≤ length packet
    → byte_range start end packet ≡ some (take (end - start) (drop start packet))
unfolding byte_range
byte_range-eq-some start end packet low high = ground arith

-- A packet that parses is long enough for the slices of the response: building it does not panic, and it is as long
-- as the packet up to the end of its question, with the 16 bytes of the answer where there is one.
pub build_response-parse_query :
    (packet : List ℕ) (q : ParsedQuery) (answer : Option Ipv4) (rcode : ℕ)
    → parse_query packet ≡ ok q
    → (out : List ℕ) × (build_response packet q.end_offset answer rcode ≡ some out)
      × (length out ≡ q.end_offset + length (answer_bytes answer))
unfolding build_response
build_response-parse_query packet q answer rcode h =
    let (low, high) = parse_query-eq-ok packet q h in
    let question = length-take-drop (q.end_offset - 12) 12 packet (omega arith) in
    let (out, made, size) =
      response_from-eq-some packet (take (q.end_offset - 12) (drop 12 packet)) answer rcode
        (omega arith) in
    (
      out,
      (ap (λ o. response_from packet o answer rcode)
            (byte_range-eq-some 12 q.end_offset packet (omega arith) high)
          ∙ made),
      omega arith,
    )
