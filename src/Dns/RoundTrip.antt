-- ===== src/Dns/RoundTrip.antt =====
-- `build_a_query` of rust/src/dns.rs against its `parse_query`.
use mathlib.Core.List.{append_assoc, append-nil, reverse-cons}
use megaserver.Common.{
  ℕ, zero, suc, ◌+◌, ◌-◌, ◌≤◌, ◌<◌, ◌%◌, ◌≡◌, refl, sym, ap, ◌∙◌, true, some, List, [], ◌∷◌, ◌++◌,
  length, length-append, get_elem?, take, drop, take-append_length, All, leb, nat_eq, arith,
  nat_eq_iff, Bool-cases, inl, inr, reverse,
}
use megaserver.Common.Texts.{split, split_from}
use megaserver.Common.Utf8.{from_utf8_lossy}
use megaserver.Result.{ok}
use megaserver.Dns.{
  byte_range, parse_labels, parse_tail, parse_query, join_labels, encode_labels, build_a_query,
  query_header,
}
use megaserver.Dns.Packets.{byte_range-eq-some}

-- A label that a length byte can count and that decodes to itself.
pub record IsLabel (label : List ℕ) : Type 0 where
  pub nonempty : 1 ≤ length label
  pub short : length label < 256
  pub decodes : from_utf8_lossy label ≡ label

get_elem?-append_length : (xs ys : List ℕ) (y : ℕ) → get_elem? (xs ++ y ∷ ys) (length xs) ≡ some y
get_elem?-append_length [] ys y = refl
get_elem?-append_length (x ∷ xs) ys y = get_elem?-append_length xs ys y

drop-append_next : (xs ys : List ℕ) (y : ℕ) → drop (length xs + 1) (xs ++ y ∷ ys) ≡ ys
drop-append_next [] ys y = refl
drop-append_next (x ∷ xs) ys y =
    let e : suc (length xs) + 1 ≡ suc (length xs + 1) = omega arith in
    ap (λ n. drop n (x ∷ (xs ++ y ∷ ys))) e ∙ drop-append_next xs ys y

-- The slice behind a length byte is the label.
byte_range-label :
    (pre label rest : List ℕ) (n : ℕ)
    → byte_range (length pre + 1) (length pre + 1 + length label) (pre ++ n ∷ (label ++ rest))
      ≡ some label
byte_range-label pre label rest n =
    let e : (length pre + 1 + length label) - (length pre + 1) ≡ length label = omega arith in
    byte_range-eq-some (length pre + 1) (length pre + 1 + length label) _ (omega arith)
      (omega (arith, length-append pre (n ∷ (label ++ rest)), length-append label rest))
    ∙ ap some (
        ap (λ xs. take ((length pre + 1 + length label) - (length pre + 1)) xs)
          (drop-append_next pre (label ++ rest) n)
        ∙ ap (λ k. take k (label ++ rest)) e
        ∙ take-append_length label rest)

parse_labels-next :
    (packet label : List ℕ) (rounds offset n : ℕ) (acc : List (List ℕ))
    → get_elem? packet offset ≡ some n
    → 1 ≤ n
    → byte_range (offset + 1) (offset + 1 + n) packet ≡ some label
    → from_utf8_lossy label ≡ label
    → parse_labels (suc rounds) packet offset acc
      ≡ parse_labels rounds packet (offset + 1 + n) (acc ++ label ∷ [])
unfolding parse_labels
parse_labels-next packet label rounds offset zero acc here low slice decodes = absurd (omega arith)
parse_labels-next packet label rounds offset (suc n) acc here low slice decodes =
    rw (here, slice, decodes, parse_labels) refl

parse_labels-end :
    (packet : List ℕ) (rounds offset : ℕ) (acc : List (List ℕ))
    → get_elem? packet offset ≡ some 0
    → parse_labels (suc rounds) packet offset acc ≡ ok (acc, offset + 1)
unfolding parse_labels
parse_labels-end packet rounds offset acc here = rw (here, parse_labels) refl

-- One round over a label.
parse_labels-label :
    (pre label tail : List ℕ) (rounds n : ℕ) (acc : List (List ℕ))
    → n ≡ length label
    → IsLabel label
    → parse_labels (suc rounds) ((pre ++ n ∷ label) ++ tail) (length pre) acc
      ≡ parse_labels rounds
          ((pre ++ n ∷ label) ++ tail)
          (length (pre ++ n ∷ label))
          (acc ++ label ∷ [])
parse_labels-label pre label tail rounds n acc counted l =
    let whole = append_assoc pre (n ∷ label) tail in
    let here =
      ap (λ p. get_elem? p (length pre)) whole ∙ get_elem?-append_length pre (label ++ tail) n in
    let slice =
      ap (λ p. byte_range (length pre + 1) (length pre + 1 + n) p) whole
      ∙ ap (λ k. byte_range (length pre + 1) (length pre + 1 + k) (pre ++ n ∷ (label ++ tail)))
          counted
      ∙ byte_range-label pre label tail n in
    let next : length pre + 1 + n ≡ length (pre ++ n ∷ label) =
      omega (arith, length-append pre (n ∷ label), counted) in
    parse_labels-next _ label rounds (length pre) n acc here (omega (arith, counted, l.nonempty))
      slice l.decodes
    ∙ ap (λ k. parse_labels rounds ((pre ++ n ∷ label) ++ tail) k (acc ++ label ∷ [])) next

parse_labels-encode_labels :
    (labels : List (List ℕ)) (rounds : ℕ) (pre rest : List ℕ) (acc : List (List ℕ))
    → All IsLabel labels
    → length labels < rounds
    → parse_labels rounds (pre ++ (encode_labels labels ++ 0 ∷ rest)) (length pre) acc
      ≡ ok (acc ++ labels, length pre + length (encode_labels labels) + 1)
unfolding encode_labels
parse_labels-encode_labels [] (suc rounds) pre rest acc h more =
    let ends : length pre + 1 ≡ length pre + 0 + 1 = omega arith in
    parse_labels-end (pre ++ 0 ∷ rest) rounds (length pre) acc (get_elem?-append_length pre rest 0)
    ∙ (λ i. ok (sym (append-nil acc) i, ends i))
parse_labels-encode_labels (label ∷ labels) (suc rounds) pre rest acc (l, h) more =
    let n = length label % 256 in
    let tail = encode_labels labels ++ 0 ∷ rest in
    let counted : n ≡ length label = omega (arith, l.short) in
    let same : pre ++ (n ∷ (label ++ encode_labels labels ++ 0 ∷ rest))
        ≡ (pre ++ n ∷ label) ++ tail =
      ap (λ xs. pre ++ n ∷ xs) (append_assoc label (encode_labels labels) (0 ∷ rest))
      ∙ sym (append_assoc pre (n ∷ label) tail) in
    let ends : length (pre ++ n ∷ label) + length (encode_labels labels) + 1
        ≡ length pre + suc (length (label ++ encode_labels labels)) + 1 =
      omega (arith, length-append pre (n ∷ label), length-append label (encode_labels labels)) in
    ap (λ p. parse_labels (suc rounds) p (length pre) acc) same
    ∙ parse_labels-label pre label tail rounds n acc counted l
    ∙ parse_labels-encode_labels labels rounds (pre ++ n ∷ label) rest (acc ++ label ∷ []) h
        (omega arith)
    ∙ (λ i. ok (append_assoc acc (label ∷ []) labels i, ends i))
parse_labels-encode_labels labels zero pre rest acc h more = absurd (omega arith)

join_labels-split_next :
    (label : List ℕ) (cs piece : List ℕ)
    → join_labels (label ∷ split_from b'.' piece cs)
      ≡ label ++ b'.' ∷ join_labels (split_from b'.' piece cs)
join_labels-split_next label [] piece = refl
join_labels-split_next label (c ∷ cs) piece = elim (Bool-cases (nat_eq c b'.')) [
  | inl dot ↦ rw dot refl
  | inr other ↦ rw other (join_labels-split_next label cs (c ∷ piece))
]

join_labels-split_from :
    (cs piece : List ℕ) → join_labels (split_from b'.' piece cs) ≡ reverse piece ++ cs
join_labels-split_from [] piece = sym (append-nil (reverse piece))
join_labels-split_from (c ∷ cs) piece = elim (Bool-cases (nat_eq c b'.')) [
  | inl dot ↦ rw dot (
      join_labels-split_next (reverse piece) cs []
      ∙ ap (λ xs. reverse piece ++ b'.' ∷ xs) (join_labels-split_from cs [])
      ∙ ap (λ d. reverse piece ++ d ∷ cs) (sym ((nat_eq_iff c b'.').0 dot)))
  | inr other ↦ rw other (
      join_labels-split_from cs (c ∷ piece)
      ∙ ap (λ xs. xs ++ cs) (reverse-cons c piece)
      ∙ append_assoc (reverse piece) (c ∷ []) cs)
]

pub join_labels-split : (name : List ℕ) → join_labels (split b'.' name) ≡ name
join_labels-split name = join_labels-split_from name []

length-encode_labels : (labels : List (List ℕ)) → length labels ≤ length (encode_labels labels)
unfolding encode_labels
length-encode_labels [] = omega arith
length-encode_labels (label ∷ labels) =
    omega (arith, length-encode_labels labels, length-append label (encode_labels labels))

get_elem?-append_right :
    (xs ys : List ℕ) (k : ℕ) → get_elem? (xs ++ ys) (length xs + k) ≡ get_elem? ys k
get_elem?-append_right [] ys k = ap (λ i. get_elem? ys i) (omega arith)
get_elem?-append_right (x ∷ xs) ys k =
    let e : suc (length xs) + k ≡ suc (length xs + k) = omega arith in
    ap (λ i. get_elem? (x ∷ (xs ++ ys)) i) e ∙ get_elem?-append_right xs ys k

-- Type A and class IN behind a name.
parse_tail-a :
    (pre : List ℕ) (labels : List (List ℕ)) (offset : ℕ)
    → offset ≡ length pre
    → parse_tail (pre ++ 0 ∷ 1 ∷ 0 ∷ 1 ∷ []) (labels, offset)
      ≡ ok (record { name = join_labels labels; qtype = 1; qclass = 1; end_offset = offset + 4 })
unfolding parse_tail
parse_tail-a pre labels offset e =
    let rest : List ℕ = 0 ∷ 1 ∷ 0 ∷ 1 ∷ [] in
    let at : (k : ℕ) → get_elem? (pre ++ rest) (offset + k) ≡ get_elem? rest k =
      λ k. ap (λ i. get_elem? (pre ++ rest) (i + k)) e ∙ get_elem?-append_right pre rest k in
    let at0 : get_elem? (pre ++ rest) offset ≡ some 0 =
      ap (λ i. get_elem? (pre ++ rest) i) (omega arith) ∙ at 0 in
    rw (at0, at 1, at 2, at 3) refl

-- The query for a name, all of whose labels have between 1 and 255 bytes and are valid UTF-8 by themselves, parses
-- back to that name, type A, class IN, and its whole length.
pub parse_query-build_a_query :
    (name : List ℕ)
    → All IsLabel (split b'.' name)
    → parse_query (build_a_query name)
      ≡ ok (record { name = name; qtype = 1; qclass = 1; end_offset = length (build_a_query name) })
unfolding build_a_query parse_query
parse_query-build_a_query name h =
    let labels = split b'.' name in
    let packet = query_header ++ (encode_labels labels ++ 0 ∷ 0 ∷ 1 ∷ 0 ∷ 1 ∷ []) in
    let named : parse_labels (length packet + 1) packet 12 []
        ≡ ok (labels, 12 + length (encode_labels labels) + 1) =
      parse_labels-encode_labels labels (length packet + 1) query_header (0 ∷ 1 ∷ 0 ∷ 1 ∷ []) [] h (
        omega (
          arith,
          length-encode_labels labels,
          length-append (encode_labels labels) (0 ∷ 0 ∷ 1 ∷ 0 ∷ 1 ∷ []),
        )) in
    let enough : leb 12 (length packet) ≡ true = ground arith in
    let pre = query_header ++ (encode_labels labels ++ 0 ∷ []) in
    let off = 12 + length (encode_labels labels) + 1 in
    let whole : packet ≡ pre ++ 0 ∷ 1 ∷ 0 ∷ 1 ∷ [] =
      ap (λ xs. query_header ++ xs)
        (sym (append_assoc (encode_labels labels) (0 ∷ []) (0 ∷ 1 ∷ 0 ∷ 1 ∷ []))) in
    let at_end : off ≡ length pre = omega (arith, length-append (encode_labels labels) (0 ∷ [])) in
    let size : off + 4 ≡ length packet =
      omega (arith, length-append (encode_labels labels) (0 ∷ 0 ∷ 1 ∷ 0 ∷ 1 ∷ [])) in
    rw (enough, named)
      (ap (λ p. parse_tail p (labels, off)) whole ∙ parse_tail-a pre labels off at_end ∙ (λ i.
        ok
          (record { name = join_labels-split name i; qtype = 1; qclass = 1; end_offset = size i })))
