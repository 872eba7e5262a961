-- ===== src/Base/Text.antt =====
-- The standard library's text functions that the file system uses. A string is its UTF-8 bytes,
-- a UTF-16 text its 16-bit units.
use Prim.Native.Nat.{ℕ, zero, suc, ◌+◌, ◌-◌, ◌*◌, ◌/◌, ◌%◌, ◌<◌}
use mathlib.Core.Path.{◌≡◌, refl}
use mathlib.Core.Bool.{Bool, true, false, ◌&&◌, ◌||◌}
use mathlib.Core.Option
use mathlib.Core.Option.{Option, none, some}
use mathlib.Core.List.{List, [], ◌∷◌, ◌++◌, map}
use native.Mathlib.Omega.{arith}
use fat32_reimplementation.Base.Tests.{ltb, leb, ◌==◌, if◌then◌else◌}
use fat32_reimplementation.Base.Lists.{All}

abbrev cons_first : ℕ → List (List ℕ) → List (List ℕ)
cons_first b [] = (b ∷ []) ∷ []
cons_first b (p ∷ ps) = (b ∷ p) ∷ ps

-- `split(sep)` at an ASCII separator; the result has one part at least.
unfoldable pub split : ℕ → List ℕ → List (List ℕ)
split sep [] = [] ∷ []
split sep (b ∷ bs) = let parts = split sep bs in if b == sep then [] ∷ parts else cons_first b parts

-- The continuation bytes that a lead byte asks for, and the range of the first of them.
unfoldable pub utf8_lead : ℕ → Option (ℕ × ℕ × ℕ)
utf8_lead b =
    if ltb b 0x80
    then some (0, 0x80, 0xBF)
    else if ltb b 0xC2
    then none
    else if ltb b 0xE0
    then some (1, 0x80, 0xBF)
    else if b == 0xE0
    then some (2, 0xA0, 0xBF)
    else if b == 0xED
    then some (2, 0x80, 0x9F)
    else if ltb b 0xF0
    then some (2, 0x80, 0xBF)
    else if b == 0xF0
    then some (3, 0x90, 0xBF)
    else if ltb b 0xF4
    then some (3, 0x80, 0xBF)
    else if b == 0xF4
    then some (3, 0x80, 0x8F)
    else none

-- With `left` continuation bytes still due, the next of them in the range.
unfoldable pub utf8_rest : (left lo hi : ℕ) → List ℕ → Bool
unfolding utf8_lead
utf8_rest zero lo hi [] = true
utf8_rest (suc left) lo hi [] = false
utf8_rest zero lo hi (b ∷ bs) = elim (utf8_lead b) [
  | none ↦ false
  | some (left, lo', hi') ↦ utf8_rest left lo' hi' bs
]
utf8_rest (suc left) lo hi (b ∷ bs) = leb lo b && leb b hi && utf8_rest left 0x80 0xBF bs

unfoldable pub is_utf8 : List ℕ → Bool
unfolding utf8_rest
is_utf8 bytes = utf8_rest 0 0x80 0xBF bytes

-- `from_utf8`; what it accepts it keeps as it is.
unfoldable pub from_utf8 : List ℕ → Option (List ℕ)
unfolding is_utf8
from_utf8 bytes = if is_utf8 bytes then some bytes else none

-- The bytes of a code point.
unfoldable pub encode_utf8 : ℕ → List ℕ
encode_utf8 c =
    if ltb c 0x80
    then c ∷ []
    else if ltb c 0x800
    then (0xC0 + c / 64) ∷ (0x80 + c % 64) ∷ []
    else if ltb c 0x1_0000
    then (0xE0 + c / 4096) ∷ (0x80 + c / 64 % 64) ∷ (0x80 + c % 64) ∷ []
    else (0xF0 + c / 0x4_0000)
      ∷ (0x80 + c / 4096 % 64)
      ∷ (0x80 + c / 64 % 64)
      ∷ (0x80 + c % 64)
      ∷ []

-- `from_utf16`: a surrogate that stands alone is refused.
unfoldable pub from_utf16 : List ℕ → Option (List ℕ)
unfolding encode_utf8
from_utf16 [] = some []
from_utf16 (u ∷ []) = if ltb u 0xD800 || ltb 0xDFFF u then some (encode_utf8 u) else none
from_utf16 (u ∷ v ∷ us) = elim (ltb u 0xD800 || ltb 0xDFFF u) [
  | true ↦ Option.map (λ text. encode_utf8 u ++ text) (from_utf16 (v ∷ us))
  | false ↦ elim (ltb u 0xDC00 && leb 0xDC00 v && leb v 0xDFFF) [
    | true ↦
        let c = 0x1_0000 + (u - 0xD800) * 1024 + (v - 0xDC00) in
        Option.map (λ text. encode_utf8 c ++ text) (from_utf16 us)
    | false ↦ none
  ]
]

abbrev pub IsAscii : List ℕ → Type 0
IsAscii = All (λ b. b < 0x80)

-- An ASCII text is UTF-8.
pub utf8-IsAscii : (bs : List ℕ) (lo hi : ℕ) → IsAscii bs → utf8_rest 0 lo hi bs ≡ true
unfolding utf8_rest
utf8-IsAscii [] lo hi h = refl
utf8-IsAscii (b ∷ bs) lo hi h = ground (arith, utf8-IsAscii bs 0x80 0xBF h.1)

pub from_utf8-IsAscii : (bs : List ℕ) → IsAscii bs → from_utf8 bs ≡ some bs
unfolding from_utf8
from_utf8-IsAscii bs h = rw (utf8-IsAscii bs 0x80 0xBF h)

-- A part without the separator is not split.
abbrev pub Without : ℕ → List ℕ → Type 0
Without sep = All (λ b. (b == sep) ≡ false)

pub split-Without : (sep : ℕ) (bs : List ℕ) → Without sep bs → split sep bs ≡ bs ∷ []
unfolding split
split-Without sep [] h = refl
split-Without sep (b ∷ bs) h = rw (split-Without sep bs h.1, h.0)

pub split-append :
    (sep : ℕ) (bs cs : List ℕ) → Without sep bs → split sep (bs ++ sep ∷ cs) ≡ bs ∷ split sep cs
unfolding split
split-append sep [] cs h = ground arith
split-append sep (b ∷ bs) cs h = rw (split-append sep bs cs h.1, h.0)

-- `to_uppercase` on one ASCII byte.
unfoldable pub ascii_upper : ℕ → ℕ
ascii_upper b = if leb b'a' b && leb b b'z' then b - 32 else b

-- What is used of the standard library's `to_uppercase`: on ASCII it works byte by byte.
abbrev pub UppersAscii : (List ℕ → List ℕ) → Type 0
UppersAscii to_uppercase = (s : List ℕ) → IsAscii s → to_uppercase s ≡ map ascii_upper s

pub map-ascii_upper-IsAscii : (s : List ℕ) → IsAscii s → IsAscii (map ascii_upper s)
unfolding ascii_upper
map-ascii_upper-IsAscii [] h = tt
map-ascii_upper-IsAscii (b ∷ s) h = (ground arith, map-ascii_upper-IsAscii s h.1)
