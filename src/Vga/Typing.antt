-- ===== src/Vga/Typing.antt =====
-- `write_string` on a text that fits the line.
use fat32_reimplementation.Base.{
  ℕ, zero, suc, ◌+◌, ◌-◌, ◌≤◌, ◌<◌, ◌≡◌, ◌≢◌, refl, Bool, ◌&&◌, ◌||◌, true, ap, ◌∙◌, List, [], ◌∷◌,
  ◌==◌, ne→==, arith, length, get_elem?, some, All, leb, le→leb, lt→leb, if◌then◌else◌,
}
use fat32_reimplementation.Vga.{
  Writer, new_line, write_byte, put_byte, write_string, buffer_height, buffer_width,
}
use fat32_reimplementation.Vga.Scrolling.{write_char-here, write_char-col}

abbrev pub IsPrintable : ℕ → Type 0
IsPrintable byte = (0x20 ≤ byte) × (byte ≤ 0x7E)

write_byte-room :
    (writer : Writer) (byte : ℕ)
    → byte ≢ b'\n'
    → writer.column_position < buffer_width
    → write_byte writer byte ≡ put_byte writer byte
unfolding write_byte
write_byte-room writer byte ne room =
    ap
      (λ (b : Bool).
        if b
        then new_line writer
        else put_byte (if leb buffer_width writer.column_position then new_line writer else writer)
            byte)
      (ne→== byte b'\n' ne)
    ∙ ap (λ (b : Bool). put_byte (if b then new_line writer else writer) byte)
        (lt→leb buffer_width writer.column_position room)

is_shown : (byte : ℕ) → IsPrintable byte → leb 0x20 byte && leb byte 0x7E ≡ true
is_shown byte printable = rw (le→leb 0x20 byte printable.0, le→leb byte 0x7E printable.1) refl

-- A printable byte in a line that is not full is put behind the others.
write_string-∷ :
    (writer : Writer) (byte : ℕ) (bytes : List ℕ)
    → IsPrintable byte
    → writer.column_position < buffer_width
    → write_string writer (byte ∷ bytes) ≡ write_string (put_byte writer byte) bytes
unfolding write_string
write_string-∷ writer byte bytes printable room =
    ap
      (λ (b : Bool).
        write_string (write_byte writer (if b || byte == b'\n' then byte else 0xFE)) bytes)
      (is_shown byte printable)
    ∙ ap (λ (w : Writer). write_string w bytes)
        (write_byte-room writer byte (omega (arith, printable.0)) room)

put_byte-front :
    (writer : Writer) (byte c : ℕ)
    → c < writer.column_position
    → (put_byte writer byte).chars 24 c ≡ writer.chars 24 c
unfolding put_byte
put_byte-front writer byte c lt =
    write_char-col writer.chars 24 writer.column_position 24 c _ (omega arith)

put_byte-column :
    (writer : Writer) (byte : ℕ)
    → (put_byte writer byte).column_position ≡ writer.column_position + 1
unfolding put_byte
put_byte-column writer byte = refl

put_byte-here :
    (writer : Writer) (byte : ℕ)
    → (put_byte writer byte).chars 24 writer.column_position
      ≡ record { ascii_character = byte; color_code = writer.color_code }
unfolding put_byte
put_byte-here writer byte = write_char-here writer.chars 24 writer.column_position _

-- What stands in front of the text stays.
write_string-front :
    (writer : Writer) (bytes : List ℕ) (c : ℕ)
    → All IsPrintable bytes
    → writer.column_position + length bytes ≤ buffer_width
    → c < writer.column_position
    → (write_string writer bytes).chars 24 c ≡ writer.chars 24 c
unfolding write_string
write_string-front writer [] c printable fits lt = refl
write_string-front writer (byte ∷ bytes) c printable fits lt =
    let grown = put_byte-column writer byte in
    ap (λ (w : Writer). w.chars 24 c) (write_string-∷ writer byte bytes printable.0 (omega arith))
    ∙ write_string-front (put_byte writer byte) bytes c printable.1 (omega arith) (omega arith)
    ∙ put_byte-front writer byte c lt

-- A text of printable bytes that fits between the column and the line's end stands on the last row
-- from the column on, byte after byte in the writer's color.
pub write_string-shown :
    (writer : Writer) (bytes : List ℕ) (i byte : ℕ)
    → All IsPrintable bytes
    → writer.column_position + length bytes ≤ buffer_width
    → get_elem? bytes i ≡ some byte
    → (write_string writer bytes).chars (buffer_height - 1) (writer.column_position + i)
      ≡ record { ascii_character = byte; color_code = writer.color_code }
unfolding put_byte
write_string-shown writer [] i byte printable fits at = absurd (ground arith)
write_string-shown writer (b ∷ bytes) zero byte printable fits at =
    let same : b ≡ byte = ground arith in
    let grown = put_byte-column writer b in
    let start : writer.column_position + 0 ≡ writer.column_position = omega arith in
    ap (λ (w : Writer). w.chars 24 (writer.column_position + 0))
      (write_string-∷ writer b bytes printable.0 (omega arith))
    ∙ write_string-front (put_byte writer b) bytes (writer.column_position + 0) printable.1
        (omega arith) (omega arith)
    ∙ ap (λ (c : ℕ). (put_byte writer b).chars 24 c) start
    ∙ put_byte-here writer b
    ∙ ap (λ (x : ℕ). record { ascii_character = x; color_code = writer.color_code }) same
write_string-shown writer (b ∷ bytes) (suc i) byte printable fits at =
    let grown = put_byte-column writer b in
    let along : writer.column_position + suc i ≡ (put_byte writer b).column_position + i =
      omega arith in
    ap (λ (w : Writer). w.chars 24 (writer.column_position + suc i))
      (write_string-∷ writer b bytes printable.0 (omega arith))
    ∙ ap (λ (c : ℕ). (write_string (put_byte writer b) bytes).chars 24 c) along
    ∙ write_string-shown (put_byte writer b) bytes i byte printable.1 (omega arith) at
