-- ===== src/Vga/Scrolling.antt =====
-- `new_line` and the rows of the screen.
use mathlib.Core.Path.{subst}
use native.Mathlib.Decide.{ℕ_discrete}
use fat32_reimplementation.Base.{
  ℕ, zero, suc, ◌+◌, ◌-◌, ◌≤◌, ◌<◌, ◌≡◌, ◌≢◌, refl, sym, ap, Bool, ◌∙◌, ==-eq, ne→==, arith, ltb,
  lt→ltb, if◌then◌else◌,
}
use fat32_reimplementation.Vga.{
  Buffer, ScreenChar, Writer, write_char, copy_row, copy_rows, fill_row, clear_row, new_line, blank,
  buffer_height, buffer_width,
}

pub write_char-here :
    (chars : Buffer) (row col : ℕ) (x : ScreenChar) → write_char chars row col x row col ≡ x
write_char-here chars row col x = rw (==-eq row row refl, ==-eq col col refl) refl

pub write_char-row :
    (chars : Buffer) (row col r c : ℕ) (x : ScreenChar)
    → r ≢ row
    → write_char chars row col x r c ≡ chars r c
write_char-row chars row col r c x ne = rw (ne→== r row ne) refl

pub write_char-col :
    (chars : Buffer) (row col r c : ℕ) (x : ScreenChar)
    → c ≢ col
    → write_char chars row col x r c ≡ chars r c
write_char-col chars row col r c x ne = elim (ℕ_discrete r row) [
  | yes same ↦ rw (==-eq r row same, ne→== c col ne) refl
  | no other ↦ rw (ne→== r row other) refl
]

-- The inner loop leaves the other rows and the columns in front of it.
copy_row-row :
    (count col row r c : ℕ) (chars : Buffer)
    → r ≢ row - 1
    → copy_row count col row chars r c ≡ chars r c
unfolding copy_row
copy_row-row zero col row r c chars ne = refl
copy_row-row (suc count) col row r c chars ne =
    copy_row-row count (col + 1) row r c _ ne ∙ write_char-row chars (row - 1) col r c _ ne

copy_row-front :
    (count col row r c : ℕ) (chars : Buffer)
    → c < col
    → copy_row count col row chars r c ≡ chars r c
unfolding copy_row
copy_row-front zero col row r c chars lt = refl
copy_row-front (suc count) col row r c chars lt =
    copy_row-front count (col + 1) row r c _ (omega arith)
    ∙ write_char-col chars (row - 1) col r c _ (omega arith)

copy_row-copied :
    (count col row c : ℕ) (chars : Buffer)
    → 0 < row
    → col ≤ c
    → c < col + count
    → copy_row count col row chars (row - 1) c ≡ chars row c
unfolding copy_row
copy_row-copied zero col row c chars pos le lt = absurd (omega arith)
copy_row-copied (suc count) col row c chars pos le lt = elim (ℕ_discrete c col) [
  | yes same ↦ rw same (
      copy_row-front count (col + 1) row (row - 1) col _ (omega arith)
      ∙ write_char-here chars (row - 1) col _)
  | no ne ↦
      copy_row-copied count (col + 1) row c _ pos (omega arith) (omega arith)
      ∙ write_char-row chars (row - 1) col row c _ (omega arith)
]

-- The outer loop takes each row from the old row below it.
copy_rows-above :
    (count row r c : ℕ) (chars : Buffer) → r + 1 < row → copy_rows count row chars r c ≡ chars r c
unfolding copy_rows
copy_rows-above zero row r c chars lt = refl
copy_rows-above (suc count) row r c chars lt =
    copy_rows-above count (row + 1) r c _ (omega arith)
    ∙ copy_row-row buffer_width 0 row r c chars (omega arith)

row_above : {r row : ℕ} → r + 1 ≡ row → row - 1 ≡ r
row_above same = omega arith

copy_rows-moved :
    (count row r c : ℕ) (chars : Buffer)
    → 0 < row
    → row ≤ r + 1
    → r + 1 < row + count
    → c < buffer_width
    → copy_rows count row chars r c ≡ chars (r + 1) c
unfolding copy_rows
copy_rows-moved zero row r c chars pos le lt in_row = absurd (omega arith)
copy_rows-moved (suc count) row r c chars pos le lt in_row = elim (ℕ_discrete (r + 1) row) [
  | yes same ↦
      copy_rows-above count (row + 1) r c _ (omega arith)
      ∙ subst (λ (k : ℕ). copy_row buffer_width 0 row chars r c ≡ chars k c) (sym same)
          (subst (λ (k : ℕ). copy_row buffer_width 0 row chars k c ≡ chars row c) (row_above same)
            (copy_row-copied buffer_width 0 row c chars pos (omega arith) (omega arith)))
  | no ne ↦
      copy_rows-moved count (row + 1) r c _ (omega arith) (omega arith) (omega arith) in_row
      ∙ copy_row-row buffer_width 0 row (r + 1) c chars (omega arith)
]

fill_row-front :
    (count col row r c : ℕ) (x : ScreenChar) (chars : Buffer)
    → c < col
    → fill_row count col row x chars r c ≡ chars r c
unfolding fill_row
fill_row-front zero col row r c x chars lt = refl
fill_row-front (suc count) col row r c x chars lt =
    fill_row-front count (col + 1) row r c x _ (omega arith)
    ∙ write_char-col chars row col r c x (omega arith)

fill_row-row :
    (count col row r c : ℕ) (x : ScreenChar) (chars : Buffer)
    → r ≢ row
    → fill_row count col row x chars r c ≡ chars r c
unfolding fill_row
fill_row-row zero col row r c x chars ne = refl
fill_row-row (suc count) col row r c x chars ne =
    fill_row-row count (col + 1) row r c x _ ne ∙ write_char-row chars row col r c x ne

fill_row-filled :
    (count col row c : ℕ) (x : ScreenChar) (chars : Buffer)
    → col ≤ c
    → c < col + count
    → fill_row count col row x chars row c ≡ x
unfolding fill_row
fill_row-filled zero col row c x chars le lt = absurd (omega arith)
fill_row-filled (suc count) col row c x chars le lt = elim (ℕ_discrete c col) [
  | yes same ↦ rw same (
      fill_row-front count (col + 1) row row col x _ (omega arith)
      ∙ write_char-here chars row col x)
  | no ne ↦ fill_row-filled count (col + 1) row c x _ (omega arith) (omega arith)
]

-- What a screen position shows after the rows moved up: the old position below it, or a blank.
abbrev pub scrolled : Writer → ℕ → ℕ → ScreenChar
scrolled writer r c = if ltb r 24 then writer.chars (r + 1) c else blank writer.color_code

scrolled_row :
    (writer : Writer) (r c : ℕ)
    → r < 24
    → c < buffer_width
    → (x : ScreenChar)
    → fill_row buffer_width 0 24 x (copy_rows 24 1 writer.chars) r c ≡ scrolled writer r c
scrolled_row writer r c in_rows in_row x =
    fill_row-row buffer_width 0 24 r c x _ (omega arith)
    ∙ copy_rows-moved 24 1 r c writer.chars (omega arith) (omega arith) (omega arith) in_row
    ∙ sym (
        ap (λ (b : Bool). if b then writer.chars (r + 1) c else blank writer.color_code)
          (lt→ltb r 24 in_rows))

last_row :
    (writer : Writer) (r c : ℕ)
    → r ≡ 24
    → c < buffer_width
    → (chars : Buffer)
    → fill_row buffer_width 0 24 (blank writer.color_code) chars r c ≡ scrolled writer r c
last_row writer r c last in_row chars =
    let x = blank writer.color_code in
    subst (λ (k : ℕ). fill_row buffer_width 0 24 x chars k c ≡ scrolled writer k c) (sym last)
      (fill_row-filled buffer_width 0 24 c x chars (omega arith) in_row)

-- On every position of the 25 by 80 screen, `new_line` shows what stood one row below, and blanks
-- of the writer's color in the last row; the column is 0 and the color stays.
pub new_line-scrolled :
    (writer : Writer) (r c : ℕ)
    → r < buffer_height
    → c < buffer_width
    → ((new_line writer).chars r c ≡ scrolled writer r c)
      × ((new_line writer).column_position ≡ 0)
      × ((new_line writer).color_code ≡ writer.color_code)
unfolding new_line clear_row
new_line-scrolled writer r c in_rows in_row = (
  elim (ℕ_discrete r 24) [
    | yes last ↦ last_row writer r c last in_row (copy_rows (buffer_height - 1) 1 writer.chars)
    | no ne ↦ scrolled_row writer r c (omega arith) in_row _
  ],
  refl,
  refl,
)
