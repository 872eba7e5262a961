-- ===== src/Vga.antt =====
-- src/vga_buffer.rs: the writer of the text screen. The buffer is a function of row and column; the
-- source indexes it with constants, with loop counters below the bounds and with a column that
-- `write_byte` has just compared with the width, so no access is out of range.
pub mod Scrolling
pub mod Typing
pub mod Colors
pub mod Lines
use fat32_reimplementation.Base.{
  ℕ, zero, suc, ◌+◌, ◌-◌, List, [], ◌∷◌, ◌==◌, ◌&&◌, ◌||◌, leb, if◌then◌else◌,
}

abbrev pub buffer_height : ℕ
buffer_height = 25

abbrev pub buffer_width : ℕ
buffer_width = 80

pub record ScreenChar : Type 0 where
  pub ascii_character : ℕ
  pub color_code : ℕ

abbrev pub Buffer : Type 0
Buffer = ℕ → ℕ → ScreenChar

-- `chars[row][col].write(character)`.
abbrev pub write_char : Buffer → ℕ → ℕ → ScreenChar → Buffer
write_char chars row col character r c = if r == row && c == col then character else chars r c

pub record Writer : Type 0 where
  pub column_position : ℕ
  pub color_code : ℕ
  pub chars : Buffer

-- The inner loop of `new_line`, from `col` on with `count` columns left.
unfoldable pub copy_row : ℕ → ℕ → ℕ → Buffer → Buffer
copy_row zero col row chars = chars
copy_row (suc count) col row chars =
    copy_row count (col + 1) row (write_char chars (row - 1) col (chars row col))

-- Its outer loop.
unfoldable pub copy_rows : ℕ → ℕ → Buffer → Buffer
unfolding copy_row
copy_rows zero row chars = chars
copy_rows (suc count) row chars = copy_rows count (row + 1) (copy_row buffer_width 0 row chars)

abbrev pub blank : ℕ → ScreenChar
blank color_code = record { ascii_character = b' '; color_code = color_code }

unfoldable pub fill_row : ℕ → ℕ → ℕ → ScreenChar → Buffer → Buffer
fill_row zero col row character chars = chars
fill_row (suc count) col row character chars =
    fill_row count (col + 1) row character (write_char chars row col character)

unfoldable pub clear_row : Writer → ℕ → Writer
unfolding fill_row
clear_row writer row = record writer {
  chars = fill_row buffer_width 0 row (blank writer.color_code) writer.chars;
}

unfoldable pub new_line : Writer → Writer
unfolding copy_rows clear_row
new_line writer =
    let scrolled = record writer { chars = copy_rows (buffer_height - 1) 1 writer.chars } in
    record (clear_row scrolled (buffer_height - 1)) { column_position = 0 }

-- The character at the end of the last row.
unfoldable pub put_byte : Writer → ℕ → Writer
put_byte writer byte = record writer {
  column_position = writer.column_position + 1;
  chars =
      write_char writer.chars (buffer_height - 1) writer.column_position
        (record { ascii_character = byte; color_code = writer.color_code });
}

unfoldable pub write_byte : Writer → ℕ → Writer
unfolding new_line put_byte
write_byte writer byte =
    if byte == b'\n'
    then new_line writer
    else put_byte (if leb buffer_width writer.column_position then new_line writer else writer) byte

unfoldable pub write_string : Writer → List ℕ → Writer
unfolding write_byte
write_string writer [] = writer
write_string writer (byte ∷ bytes) =
    let shown = leb 0x20 byte && leb byte 0x7E || byte == b'\n' in
    write_string (write_byte writer (if shown then byte else 0xFE)) bytes
