-- ===== src/Vga/Colors.antt =====
-- src/vga_buffer.rs: colours, and the writer of the kernel.
use fat32_reimplementation.Base.{
  ℕ, ◌*◌, ◌/◌, ◌%◌, ◌^◌, ◌<◌, ◌≡◌, refl, ap, ◌∙◌, bit_or, arith, ◌+◌, List, [], ◌∷◌, get_elem?,
  some,
}
use fat32_reimplementation.Base.Bits.{bit_or-fields}
use fat32_reimplementation.Vga.{Writer, Buffer}

pub data Color : Type 0 where
  black blue green cyan red magenta brown light_gray : Color
  dark_gray light_blue light_green light_cyan light_red pink yellow white : Color

-- `color as u8`.
abbrev pub as_u8 : Color → ℕ
as_u8 black = 0
as_u8 blue = 1
as_u8 green = 2
as_u8 cyan = 3
as_u8 red = 4
as_u8 magenta = 5
as_u8 brown = 6
as_u8 light_gray = 7
as_u8 dark_gray = 8
as_u8 light_blue = 9
as_u8 light_green = 10
as_u8 light_cyan = 11
as_u8 light_red = 12
as_u8 pink = 13
as_u8 yellow = 14
as_u8 white = 15

-- `ColorCode::new`: a shift of a `u8`, and `|`.
unfoldable pub color_code : Color → Color → ℕ
color_code foreground background = bit_or (as_u8 background * 2 ^ 4 % 2 ^ 8) (as_u8 foreground)

-- `WRITER`, on the buffer of the screen.
abbrev pub kernel_writer : Buffer → Writer
unfolding color_code
kernel_writer chars = record {
  column_position = 0;
  color_code = color_code yellow black;
  chars = chars;
}

-- The colours, in the order of their numbers.
abbrev pub colors : List Color
colors =
    black ∷ blue ∷ green ∷ cyan ∷ red ∷ magenta ∷ brown ∷ light_gray ∷ dark_gray ∷ light_blue
    ∷ light_green ∷ light_cyan ∷ light_red ∷ pink ∷ yellow ∷ white ∷ []

get_elem?-colors : (color : Color) → get_elem? colors (as_u8 color) ≡ some color
get_elem?-colors black = refl
get_elem?-colors blue = refl
get_elem?-colors green = refl
get_elem?-colors cyan = refl
get_elem?-colors red = refl
get_elem?-colors magenta = refl
get_elem?-colors brown = refl
get_elem?-colors light_gray = refl
get_elem?-colors dark_gray = refl
get_elem?-colors light_blue = refl
get_elem?-colors light_green = refl
get_elem?-colors light_cyan = refl
get_elem?-colors light_red = refl
get_elem?-colors pink = refl
get_elem?-colors yellow = refl
get_elem?-colors white = refl

as_u8-lt : (color : Color) → as_u8 color < 16
as_u8-lt black = omega arith
as_u8-lt blue = omega arith
as_u8-lt green = omega arith
as_u8-lt cyan = omega arith
as_u8-lt red = omega arith
as_u8-lt magenta = omega arith
as_u8-lt brown = omega arith
as_u8-lt light_gray = omega arith
as_u8-lt dark_gray = omega arith
as_u8-lt light_blue = omega arith
as_u8-lt light_green = omega arith
as_u8-lt light_cyan = omega arith
as_u8-lt light_red = omega arith
as_u8-lt pink = omega arith
as_u8-lt yellow = omega arith
as_u8-lt white = omega arith

-- The color code of two colours is a byte, whose four high bits number the background and whose four
-- low bits number the foreground, in the order of `Color`.
pub color_code-nibbles :
    (foreground background : Color)
    → (color_code foreground background < 2 ^ 8)
      × (get_elem? colors (color_code foreground background / 16) ≡ some background)
      × (get_elem? colors (color_code foreground background % 16) ≡ some foreground)
unfolding color_code
color_code-nibbles foreground background =
    let lo = as_u8-lt foreground in
    let hi = as_u8-lt background in
    let word : as_u8 background * 2 ^ 4 % 2 ^ 8 ≡ as_u8 background * 2 ^ 4 = omega (arith, hi) in
    let fields : color_code foreground background ≡ as_u8 background * 2 ^ 4 + as_u8 foreground =
      ap (λ (k : ℕ). bit_or k (as_u8 foreground)) word
      ∙ bit_or-fields 4 (as_u8 background) (as_u8 foreground) lo in
    let high : color_code foreground background / 16 ≡ as_u8 background =
      omega (arith, fields, lo) in
    let low : color_code foreground background % 16 ≡ as_u8 foreground =
      omega (arith, fields, lo) in
    (
      omega (arith, fields, lo, hi),
      ap (λ (k : ℕ). get_elem? colors k) high ∙ get_elem?-colors background,
      ap (λ (k : ℕ). get_elem? colors k) low ∙ get_elem?-colors foreground,
    )
