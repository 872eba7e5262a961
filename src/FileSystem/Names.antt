-- ===== src/FileSystem/Names.antt =====
-- src/file_system.rs: short names in the 8.3 format, and their checksum.
pub mod RoundTrip
pub mod Checksum
use mathlib.Core.List.{foldl}
use mathlib.Core.Option
use fat32_reimplementation.Base.{
  ℕ, zero, suc, ◌+◌, ◌*◌, ◌/◌, ◌%◌, bit_and, List, [], ◌∷◌, ◌++◌, get_or, take, replicate, length,
  ◌==◌, if◌then◌else◌, Result, ok, err, false, true,
}
use fat32_reimplementation.Base.Windows.{window, splice}
use fat32_reimplementation.Base.Text.{split, from_utf8}

-- `for &b in short_name.iter()`, over bytes with their wrap-around.
abbrev add_byte : ℕ → ℕ → ℕ
add_byte sum b = let carry = bit_and sum 1 * 128 % 256 in ((sum / 2 + carry) % 256 + b) % 256

unfoldable pub lfn_checksum : List ℕ → ℕ
lfn_checksum short_name = foldl add_byte 0 short_name

-- `while end > 0 && part[end - 1] == b' ' { end -= 1; }`
unfoldable pub trimmed_end : List ℕ → ℕ → ℕ
trimmed_end part zero = zero
trimmed_end part (suc end) =
    let shorter = trimmed_end part end in if get_or part end 0 == b' ' then shorter else suc end

-- The text of a padded field; it is empty if the bytes are not UTF-8.
unfoldable pub field_text : List ℕ → List ℕ
unfolding trimmed_end
field_text part = Option.get_or (from_utf8 (take (trimmed_end part (length part)) part)) []

abbrev pub join_name : List ℕ → List ℕ → List ℕ
join_name name_str [] = name_str
join_name name_str (e ∷ ext_str) = name_str ++ b'.' ∷ e ∷ ext_str

unfoldable pub short_name_to_string : List ℕ → List ℕ
unfolding field_text
short_name_to_string name11 =
    join_name (field_text (window name11 0 8)) (field_text (window name11 8 3))

-- `to_uppercase` is the standard library's, for the whole of Unicode.
module _ (to_uppercase : List ℕ → List ℕ) where
  abbrev write_parts : List (List ℕ) → Result (List ℕ)
  write_parts [] = err "Invalid name"
  write_parts ([] ∷ parts) = err "Invalid name"
  write_parts ((b ∷ bs) ∷ []) = ok (splice (replicate 11 b' ') 0 (take 8 (to_uppercase (b ∷ bs))))
  write_parts ((b ∷ bs) ∷ ext ∷ parts) =
      let named = splice (replicate 11 b' ') 0 (take 8 (to_uppercase (b ∷ bs))) in
      ok (splice named 8 (take 3 (to_uppercase ext)))

  unfoldable pub format_to_8_3 : List ℕ → Result (List ℕ)
  format_to_8_3 name = write_parts (split b'.' name)
