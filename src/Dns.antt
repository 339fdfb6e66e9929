-- ===== src/Dns.antt =====
-- The packets of rust/src/dns.rs: `parse_query`, `build_response` and `build_a_query`. A packet is a list of bytes,
-- and so is a name (the bytes of the source's `String`).
pub mod Packets
pub mod RoundTrip
pub mod Lookup
pub mod Answers
pub mod Responses
use megaserver.Common.{
  ℕ, zero, suc, ◌+◌, ◌-◌, ◌*◌, ◌/◌, ◌%◌, Bool, true, false, ◌&&◌, Option, none, some, List, [], ◌∷◌,
  ◌++◌, length, get_elem?, take, drop, leb, ltb, nat_eq, if◌then◌else◌,
}
use megaserver.Common.Texts.{split}
use megaserver.Common.Utf8.{from_utf8_lossy}
use megaserver.Result.{Result, ok, err, or_error, ◌>>=◌, ◌>>◌, guard}
use megaserver.Ipv4.{Ipv4}

pub record ParsedQuery : Type 0 where
  pub name : List ℕ
  pub qtype : ℕ
  pub qclass : ℕ
  pub end_offset : ℕ

pub data DnsError : Type 0 where
  packet_too_short : DnsError
  question_count : DnsError
  label_offset_out_of_bounds : DnsError
  label_out_of_bounds : DnsError
  missing_qtype : DnsError
  missing_qclass : DnsError
  out_of_rounds : DnsError

-- `u16::from_be_bytes`
abbrev pub u16_from : ℕ → ℕ → ℕ
u16_from high low = high * 256 + low

-- `packet.get(start..end)`
unfoldable pub byte_range : ℕ → ℕ → List ℕ → Option (List ℕ)
byte_range start end packet =
    if leb start end && leb end (length packet)
    then some (take (end - start) (drop start packet))
    else none

-- The loop over the labels: a length byte of 0 ends it. Each round moves the offset on, so as many rounds as the
-- packet has bytes, and one more, are enough.
unfoldable pub parse_labels : ℕ → List ℕ → ℕ → List (List ℕ) → Result DnsError (List (List ℕ) × ℕ)
unfolding byte_range
parse_labels zero packet offset labels = err out_of_rounds
parse_labels (suc rounds) packet offset labels = elim (get_elem? packet offset) [
  | none ↦ err label_offset_out_of_bounds
  | some zero ↦ ok (labels, offset + 1)
  | some (suc n) ↦ elim (byte_range (offset + 1) (offset + 1 + suc n) packet) [
    | none ↦ err label_out_of_bounds
    | some label ↦
        parse_labels rounds packet (offset + 1 + suc n) (labels ++ from_utf8_lossy label ∷ [])
  ]
]

-- `labels.join(".")`
abbrev pub join_labels : List (List ℕ) → List ℕ
join_labels [] = []
join_labels (label ∷ []) = label
join_labels (label ∷ next ∷ labels) = label ++ b'.' ∷ join_labels (next ∷ labels)

abbrev question_count_of : List ℕ → ℕ
question_count_of (_ ∷ _ ∷ _ ∷ _ ∷ high ∷ low ∷ _) = u16_from high low
question_count_of _ = 0

-- What stands after the name.
unfoldable pub parse_tail : List ℕ → List (List ℕ) × ℕ → Result DnsError ParsedQuery
parse_tail packet (labels, offset) = do
  type_high ← or_error (get_elem? packet offset) missing_qtype
  type_low ← or_error (get_elem? packet (offset + 1)) missing_qtype
  class_high ← or_error (get_elem? packet (offset + 2)) missing_qclass
  class_low ← or_error (get_elem? packet (offset + 3)) missing_qclass
  ok (record {
    name = join_labels labels;
    qtype = u16_from type_high type_low;
    qclass = u16_from class_high class_low;
    end_offset = offset + 4;
  })

unfoldable pub parse_query : List ℕ → Result DnsError ParsedQuery
unfolding parse_labels parse_tail
parse_query packet = do
  guard (leb 12 (length packet)) packet_too_short
  guard (nat_eq (question_count_of packet) 1) question_count
  named ← parse_labels (length packet + 1) packet 12 []
  parse_tail packet named

-- The A record: a pointer to the name at offset 12, type 1, class 1, 5 seconds, and the four octets.
abbrev pub answer_bytes : Option Ipv4 → List ℕ
answer_bytes none = []
answer_bytes (some ip) =
    0xc0 ∷ 0x0c ∷ 0 ∷ 1 ∷ 0 ∷ 1 ∷ 0 ∷ 0 ∷ 0 ∷ 5 ∷ 0 ∷ 4 ∷ ip.a ∷ ip.b ∷ ip.c ∷ ip.d ∷ []

abbrev pub answer_count : Option Ipv4 → ℕ
answer_count none = 0
answer_count (some ip) = 1

-- From the parts that the slices give.
abbrev pub response_of : ℕ → ℕ → ℕ → List ℕ → Option Ipv4 → ℕ → List ℕ
response_of id_high id_low flags question answer rcode =
    id_high
      ∷ id_low
      ∷ (0x80 + flags % 2)
      ∷ (0x80 + rcode % 16)
      ∷ 0
      ∷ 1
      ∷ 0
      ∷ answer_count answer
      ∷ 0
      ∷ 0
      ∷ 0
      ∷ 0
      ∷ question
    ++ answer_bytes answer

abbrev pub response_from : List ℕ → Option (List ℕ) → Option Ipv4 → ℕ → Option (List ℕ)
response_from (id_high ∷ id_low ∷ flags ∷ _) (some question) answer rcode =
    some (response_of id_high id_low flags question answer rcode)
response_from _ _ answer rcode = none

-- A slice out of bounds is a panic, which is `none` here.
unfoldable pub build_response : List ℕ → ℕ → Option Ipv4 → ℕ → Option (List ℕ)
unfolding byte_range
build_response request question_end answer rcode =
    response_from request (byte_range 12 question_end request) answer rcode

-- `label.len() as u8`, then the label.
unfoldable pub encode_labels : List (List ℕ) → List ℕ
encode_labels [] = []
encode_labels (label ∷ labels) = length label % 256 ∷ label ++ encode_labels labels

abbrev pub query_header : List ℕ
query_header = 0x12 ∷ 0x34 ∷ 1 ∷ 0 ∷ 0 ∷ 1 ∷ 0 ∷ 0 ∷ 0 ∷ 0 ∷ 0 ∷ 0 ∷ []

unfoldable pub build_a_query : List ℕ → List ℕ
unfolding encode_labels
build_a_query name = query_header ++ encode_labels (split b'.' name) ++ 0 ∷ 0 ∷ 1 ∷ 0 ∷ 1 ∷ []
