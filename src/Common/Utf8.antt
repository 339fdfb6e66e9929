-- ===== src/Common/Utf8.antt =====
-- Texts as the bytes of their UTF-8 form: `str::as_bytes` and `String::from_utf8_lossy`.
use Prim.Native.Nat.{ℕ, zero, suc, ◌+◌, ◌/◌, ◌%◌}
use mathlib.Core.Path.{◌≡◌, refl, ap}
use mathlib.Core.Bool.{true, ◌&&◌}
use mathlib.Core.List.{List, [], ◌∷◌, ◌++◌}
use Prim.Native.String.{String}
use megaserver.Common.Tests.{ltb, leb, if◌then◌else◌}
use megaserver.Common.Lists.{All}
use megaserver.Common.Texts.{codes}

-- The bytes of one code point.
abbrev last_byte : ℕ → ℕ
last_byte c = 0x80 + c % 64

unfoldable pub char_bytes : ℕ → List ℕ
char_bytes c =
    if ltb c 0x80
    then (c ∷ [])
    else if ltb c 0x800
    then ((0xc0 + c / 64) ∷ last_byte c ∷ [])
    else if ltb c 0x10000
    then ((0xe0 + c / 4096) ∷ last_byte (c / 64) ∷ last_byte c ∷ [])
    else ((0xf0 + c / 262144) ∷ last_byte (c / 4096) ∷ last_byte (c / 64) ∷ last_byte c ∷ [])

abbrev code_bytes : List ℕ → List ℕ
code_bytes [] = []
code_bytes (c ∷ cs) = char_bytes c ++ code_bytes cs

-- `s.as_bytes()`
unfoldable pub bytes : String → List ℕ
unfolding char_bytes
bytes s = code_bytes (codes s)

-- U+FFFD
abbrev replacement : List ℕ
replacement = 0xef ∷ 0xbf ∷ 0xbd ∷ []

-- Where a decoder stands: between code points, or inside one, with the bytes it has had, the range of the next
-- byte, and how many more come after that one.
pub data Decoder : Type 0 where
  between : Decoder
  inside : List ℕ → ℕ → ℕ → ℕ → Decoder

-- A byte between two code points: what is given out, and where the decoder then stands.
abbrev pub first_byte : ℕ → List ℕ × Decoder
first_byte b =
    if ltb b 0x80
    then (b ∷ [], between)
    else if ltb b 0xc2
    then (replacement, between)
    else if ltb b 0xe0
    then ([], inside (b ∷ []) 0x80 0xbf 0)
    else if ltb b 0xe1
    then ([], inside (b ∷ []) 0xa0 0xbf 1)
    else if ltb b 0xed
    then ([], inside (b ∷ []) 0x80 0xbf 1)
    else if ltb b 0xee
    then ([], inside (b ∷ []) 0x80 0x9f 1)
    else if ltb b 0xf0
    then ([], inside (b ∷ []) 0x80 0xbf 1)
    else if ltb b 0xf1
    then ([], inside (b ∷ []) 0x90 0xbf 2)
    else if ltb b 0xf4
    then ([], inside (b ∷ []) 0x80 0xbf 2)
    else if ltb b 0xf5
    then ([], inside (b ∷ []) 0x80 0x8f 2)
    else (replacement, between)

abbrev continued : List ℕ → ℕ → ℕ → List ℕ × Decoder
continued had b zero = (had ++ b ∷ [], between)
continued had b (suc more) = ([], inside (had ++ b ∷ []) 0x80 0xbf more)

abbrev after_replacement : List ℕ × Decoder → List ℕ × Decoder
after_replacement (out, d) = (replacement ++ out, d)

-- A byte that cannot continue a code point ends what was begun with one replacement, and is read again.
abbrev pub next_byte : Decoder → ℕ → List ℕ × Decoder
next_byte between b = first_byte b
next_byte (inside had low high more) b =
    if leb low b && leb b high then continued had b more else after_replacement (first_byte b)

unfoldable pub decode : Decoder → List ℕ → List ℕ
decode between [] = []
decode (inside had low high more) [] = replacement
decode d (b ∷ bs) = let (out, d') = next_byte d b in out ++ decode d' bs

-- The bytes of `String::from_utf8_lossy`.
unfoldable pub from_utf8_lossy : List ℕ → List ℕ
unfolding decode
from_utf8_lossy bs = decode between bs

decode_tests :
    (from_utf8_lossy (0x61 ∷ 0xc3 ∷ 0xa9 ∷ []) ≡ 0x61 ∷ 0xc3 ∷ 0xa9 ∷ [])
    × (from_utf8_lossy (0xe2 ∷ 0x82 ∷ 0x41 ∷ []) ≡ 0xef ∷ 0xbf ∷ 0xbd ∷ 0x41 ∷ [])
    × (from_utf8_lossy (0xed ∷ 0xa0 ∷ []) ≡ 0xef ∷ 0xbf ∷ 0xbd ∷ 0xef ∷ 0xbf ∷ 0xbd ∷ [])
    × (bytes "é" ≡ 0xc3 ∷ 0xa9 ∷ [])
unfolding from_utf8_lossy bytes
decode_tests = (refl, refl, refl, refl)

-- ASCII bytes stay as they are.
abbrev pub IsAscii : List ℕ → Type 0
IsAscii = All (λ b. ltb b 0x80 ≡ true)

pub from_utf8_lossy-ascii : (bs : List ℕ) → IsAscii bs → from_utf8_lossy bs ≡ bs
unfolding from_utf8_lossy
from_utf8_lossy-ascii [] h = refl
from_utf8_lossy-ascii (b ∷ bs) (small, h) =
    rw small (ap (λ rest. b ∷ rest) (from_utf8_lossy-ascii bs h))
