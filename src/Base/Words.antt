-- ===== src/Base/Words.antt =====
-- Machine words: arithmetic with overflow checks, and little-endian bytes.
use Prim.Native.Nat.{ℕ, zero, suc, ◌+◌, ◌-◌, ◌*◌, ◌/◌, ◌%◌, ◌^◌, ◌<◌, bit_and}
use mathlib.Core.Path.{◌≡◌, refl, ap}
use mathlib.Core.List.{List, [], ◌∷◌}
use native.Mathlib.Nat.{pow-suc}
use native.Mathlib.Omega.{arith}
use fat32_reimplementation.Base.Tests.{ltb, leb, ◌==◌, if◌then◌else◌}
use fat32_reimplementation.Base.Lists.{length, All}
use fat32_reimplementation.Base.Runs.{Run, done, panic}
use fat32_reimplementation.Base.Bits.{bit_and-low, bit_and-high}

abbrev pub IsByte : ℕ → Type 0
IsByte b = b < 256

-- `u32` operations with overflow checks.
abbrev pub add_u32 : ℕ → ℕ → Run ℕ
add_u32 a b = if ltb (a + b) (2 ^ 32) then done (a + b) else panic

abbrev pub sub_u32 : ℕ → ℕ → Run ℕ
sub_u32 a b = if leb b a then done (a - b) else panic

abbrev pub mul_u32 : ℕ → ℕ → Run ℕ
mul_u32 a b = if ltb (a * b) (2 ^ 32) then done (a * b) else panic

abbrev pub div_u32 : ℕ → ℕ → Run ℕ
div_u32 a b = if b == 0 then panic else done (a / b)

abbrev pub rem_u32 : ℕ → ℕ → Run ℕ
rem_u32 a b = if b == 0 then panic else done (a % b)

-- `from_le_bytes`, at the width of its argument.
abbrev pub from_le_bytes : List ℕ → ℕ
from_le_bytes [] = 0
from_le_bytes (b ∷ bs) = b + 256 * from_le_bytes bs

-- `to_le_bytes` of a number of `w` bytes.
abbrev pub to_le_bytes : ℕ → ℕ → List ℕ
to_le_bytes zero n = []
to_le_bytes (suc w) n = n % 256 ∷ to_le_bytes w (n / 256)

pub length-to_le_bytes : (w n : ℕ) → length (to_le_bytes w n) ≡ w
length-to_le_bytes zero n = refl
length-to_le_bytes (suc w) n = ap suc (length-to_le_bytes w (n / 256))

pub to_le_bytes-IsByte : (w n : ℕ) → All IsByte (to_le_bytes w n)
to_le_bytes-IsByte zero n = tt
to_le_bytes-IsByte (suc w) n = (omega arith, to_le_bytes-IsByte w (n / 256))

-- Four bytes hold a `u32`, two a `u16`.
pub from-to_le_bytes_four : (n : ℕ) → n < 2 ^ 32 → from_le_bytes (to_le_bytes 4 n) ≡ n
from-to_le_bytes_four n h = omega arith

pub from-to_le_bytes_two : (n : ℕ) → n < 2 ^ 16 → from_le_bytes (to_le_bytes 2 n) ≡ n
from-to_le_bytes_two n h = omega arith

pub from_le_bytes-lt : (bs : List ℕ) → All IsByte bs → from_le_bytes bs < 256 ^ length bs
from_le_bytes-lt [] h = omega arith
from_le_bytes-lt (b ∷ bs) h = omega (arith, pow-suc 256 (length bs), from_le_bytes-lt bs h.1)

-- The 28 bits of a FAT entry, and the 4 above them.
pub bit_and-low_28 : (a : ℕ) → bit_and a 0x0FFF_FFFF ≡ a % 2 ^ 28
bit_and-low_28 a = bit_and-low 28 a

pub bit_and-high_4 : (a : ℕ) → a < 2 ^ 32 → bit_and a 0xF000_0000 ≡ a / 2 ^ 28 * 2 ^ 28
bit_and-high_4 a h = ground (arith, bit_and-high 28 a 15, bit_and-low 4 (a / 2 ^ 28))
