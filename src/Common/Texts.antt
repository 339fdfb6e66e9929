-- ===== src/Common/Texts.antt =====
-- Texts by their code points: what the program uses of Rust's `str`, `char` and `format!`.
use Prim.Native.Nat.{ℕ, zero, suc, ◌+◌, ◌/◌, ◌%◌}
use Prim.Native.Char.{code}
use Prim.Native.String
use Prim.Native.String.{String}
use mathlib.Core.Bool.{Bool, true, false, ◌&&◌, ◌||◌}
use mathlib.Core.Option.{none, some}
use mathlib.Core.List.{List, [], ◌∷◌, ◌++◌}
use mathlib.Core.Path.{◌≡◌, ap}
use megaserver.Common.Tests.{ltb, leb, nat_eq, if◌then◌else◌}
use megaserver.Common.Lists.{get_elem?}

-- `s.chars()`, as numbers.
abbrev pub codes : String → List ℕ
codes String.[] = []
codes (String.◌∷◌ c s) = code c ∷ codes s

pub codes-append : (s t : String) → codes (String.◌++◌ s t) ≡ codes s ++ codes t
codes-append String.[] t = ap codes (String.append.nil t)
codes-append (String.◌∷◌ c s) t =
    rw (String.append.cons c s t) (ap (λ l. code c ∷ l) (codes-append s t))

-- `format!` over parts that are texts already.
abbrev pub concat : List String → String
concat [] = ""
concat (s ∷ rest) = String.◌++◌ s (concat rest)

-- `char::is_whitespace`, the White_Space property.
abbrev pub is_whitespace : ℕ → Bool
is_whitespace c =
    (leb 9 c && leb c 13)
    || nat_eq c 32
    || nat_eq c 0x85
    || nat_eq c 0xa0
    || nat_eq c 0x1680
    || (leb 0x2000 c && leb c 0x200a)
    || nat_eq c 0x2028
    || nat_eq c 0x2029
    || nat_eq c 0x202f
    || nat_eq c 0x205f
    || nat_eq c 0x3000

abbrev all_whitespace : List ℕ → Bool
all_whitespace [] = true
all_whitespace (c ∷ cs) = is_whitespace c && all_whitespace cs

-- `s.trim().is_empty()`
unfoldable pub is_blank : String → Bool
is_blank s = all_whitespace (codes s)

-- Equality of `str`s by their code points.
abbrev pub same_codes : List ℕ → List ℕ → Bool
same_codes [] [] = true
same_codes (a ∷ xs) (b ∷ ys) = nat_eq a b && same_codes xs ys
same_codes _ _ = false

-- `c.to_ascii_lowercase()` on code points, and `eq_ignore_ascii_case`.
abbrev pub to_ascii_lowercase : ℕ → ℕ
to_ascii_lowercase c = if leb b'A' c && leb c b'Z' then c + 32 else c

abbrev pub eq_ignore_case : List ℕ → List ℕ → Bool
eq_ignore_case [] [] = true
eq_ignore_case (a ∷ xs) (b ∷ ys) =
    nat_eq (to_ascii_lowercase a) (to_ascii_lowercase b) && eq_ignore_case xs ys
eq_ignore_case _ _ = false

abbrev pub digit_texts : List String
digit_texts = "0" ∷ "1" ∷ "2" ∷ "3" ∷ "4" ∷ "5" ∷ "6" ∷ "7" ∷ "8" ∷ "9" ∷ []

abbrev pub digit_text : ℕ → String
digit_text d = elim (get_elem? digit_texts d) [ none ↦ "" | some t ↦ t ]

-- `n.to_string()` on fuel; `n + 1` rounds are more than a number has digits.
unfoldable pub decimal_from : ℕ → ℕ → String → String
decimal_from zero n rest = rest
decimal_from (suc fuel) n rest =
    let more = decimal_from fuel (n / 10) (String.◌++◌ (digit_text (n % 10)) rest) in
    if ltb n 10 then String.◌++◌ (digit_text n) rest else more

unfoldable pub decimal : ℕ → String
unfolding decimal_from
decimal n = decimal_from (n + 1) n ""

-- `s.split(sep)` on code points: one piece more than there are separators.
abbrev pub split_from : ℕ → List ℕ → List ℕ → List (List ℕ)
split_from sep piece [] = mathlib.Core.List.reverse piece ∷ []
split_from sep piece (c ∷ cs) =
    let closed = mathlib.Core.List.reverse piece ∷ split_from sep [] cs in
    let longer = split_from sep (c ∷ piece) cs in if nat_eq c sep then closed else longer

abbrev pub split : ℕ → List ℕ → List (List ℕ)
split sep cs = split_from sep [] cs
