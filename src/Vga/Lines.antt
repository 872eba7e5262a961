-- ===== src/Vga/Lines.antt =====
-- What `println!` of a line leaves on the screen.
use fat32_reimplementation.Base.{
  ℕ, ◌+◌, ◌-◌, ◌≤◌, ◌≡◌, refl, sym, ap, ◌∙◌, List, [], ◌∷◌, ◌++◌, length, get_elem?,
  lt_of_get_elem?, some, All, arith, leb, ◌&&◌, ◌||◌, ◌==◌, if◌then◌else◌,
}
use fat32_reimplementation.Vga.{
  Writer, new_line, write_byte, write_string, buffer_height, buffer_width,
}
use fat32_reimplementation.Vga.Scrolling.{new_line-scrolled}
use fat32_reimplementation.Vga.Typing.{IsPrintable, write_string-shown}

write_string-append :
    (xs ys : List ℕ) (writer : Writer)
    → write_string writer (xs ++ ys) ≡ write_string (write_string writer xs) ys
unfolding write_string
write_string-append [] ys writer = refl
write_string-append (x ∷ xs) ys writer =
    write_string-append xs ys
      (write_byte writer (if leb 0x20 x && leb x 0x7E || x == b'\n' then x else 0xFE))

write_string-newline : (writer : Writer) → write_string writer (b'\n' ∷ []) ≡ new_line writer
unfolding write_string write_byte
write_string-newline writer = refl

-- A line break, a printable text of at most the screen's width and a line break, written in this
-- order from any column: the text then stands on the last row but one from its start, byte after
-- byte in the writer's color, and the next byte goes to column 0.
pub write_string-line :
    (writer : Writer) (bytes : List ℕ) (i byte : ℕ)
    → All IsPrintable bytes
    → length bytes ≤ buffer_width
    → get_elem? bytes i ≡ some byte
    → ((write_string writer (b'\n' ∷ (bytes ++ b'\n' ∷ []))).chars (buffer_height - 2) i
        ≡ record { ascii_character = byte; color_code = writer.color_code })
      × ((write_string writer (b'\n' ∷ (bytes ++ b'\n' ∷ []))).column_position ≡ 0)
write_string-line writer bytes i byte printable fits at =
    let fresh = new_line writer in
    let typed = write_string fresh bytes in
    let (_, column, color) = new_line-scrolled writer 0 0 (omega arith) (omega arith) in
    let inside = lt_of_get_elem? bytes i byte at in
    let run : write_string writer (b'\n' ∷ (bytes ++ b'\n' ∷ [])) ≡ new_line typed =
      write_string-append (b'\n' ∷ []) (bytes ++ b'\n' ∷ []) writer
      ∙ ap (λ (w : Writer). write_string w (bytes ++ b'\n' ∷ [])) (write_string-newline writer)
      ∙ write_string-append bytes (b'\n' ∷ []) fresh
      ∙ write_string-newline typed in
    let (moved, reset, _) = new_line-scrolled typed 23 i (omega arith) (omega (arith, inside)) in
    let shown = write_string-shown fresh bytes i byte printable (omega (arith, column)) at in
    let start : fresh.column_position + i ≡ i = omega (arith, column) in
    (
      ap (λ (w : Writer). w.chars 23 i) run
          ∙ moved
          ∙ ap (λ (c : ℕ). typed.chars 24 c) (sym start)
          ∙ shown
          ∙ ap (λ (k : ℕ). record { ascii_character = byte; color_code = k }) color,
      ap (λ (w : Writer). w.column_position) run ∙ reset,
    )
