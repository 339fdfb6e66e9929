-- ===== src/Ipv4.antt =====
-- `std::net::Ipv4Addr`: its text form and its parser, as rust/src/state.rs and rust/src/dns.rs use them.
use megaserver.Common.{
  ℕ, ◌+◌, ◌*◌, ◌-◌, String, ◌≡◌, refl, Bool, ◌&&◌, Option, none, some, List, [], ◌∷◌, leb, ltb,
  nat_eq, if◌then◌else◌,
}
use megaserver.Common.Texts.{codes, concat, decimal, split}

-- The four octets, each below 256.
pub record Ipv4 : Type 0 where
  pub a : ℕ
  pub b : ℕ
  pub c : ℕ
  pub d : ℕ

abbrev pub same_ip : Ipv4 → Ipv4 → Bool
same_ip x y = nat_eq x.a y.a && nat_eq x.b y.b && nat_eq x.c y.c && nat_eq x.d y.d

-- `to_string`
unfoldable pub show : Ipv4 → String
unfolding decimal
show x = concat (decimal x.a ∷ "." ∷ decimal x.b ∷ "." ∷ decimal x.c ∷ "." ∷ decimal x.d ∷ [])

abbrev is_digit : ℕ → Bool
is_digit c = leb b'0' c && leb c b'9'

-- One to three digits, without a leading zero, of value at most 255.
abbrev octet : List ℕ → Option ℕ
octet (x ∷ []) = if is_digit x then some (x - b'0') else none
octet (x ∷ y ∷ []) =
    if is_digit x && is_digit y && ltb b'0' x then some ((x - b'0') * 10 + (y - b'0')) else none
octet (x ∷ y ∷ z ∷ []) =
    let n = (x - b'0') * 100 + (y - b'0') * 10 + (z - b'0') in
    if is_digit x && is_digit y && is_digit z && ltb b'0' x && leb n 255 then some n else none
octet _ = none

abbrev from_octets : Option ℕ → Option ℕ → Option ℕ → Option ℕ → Option Ipv4
from_octets (some a) (some b) (some c) (some d) = some (record { a = a; b = b; c = c; d = d })
from_octets _ _ _ _ = none

abbrev from_pieces : List (List ℕ) → Option Ipv4
from_pieces (a ∷ b ∷ c ∷ d ∷ []) = from_octets (octet a) (octet b) (octet c) (octet d)
from_pieces _ = none

-- `s.parse::<Ipv4Addr>().ok()`
unfoldable pub parse : String → Option Ipv4
parse s = from_pieces (split b'.' (codes s))

parse_tests :
    (parse "10.42.0.254" ≡ some (record { a = 10; b = 42; c = 0; d = 254 }))
    × (parse "10.42.0.256" ≡ none)
    × (parse "10.42.00.1" ≡ none)
    × (show (record { a = 10; b = 42; c = 0; d = 254 }) ≡ "10.42.0.254")
unfolding parse show
parse_tests = (refl, refl, refl, refl)
