-- ===== src/FileSystem/LongNames.antt =====
-- src/file_system.rs: long names, collected fragment by fragment in front of a short entry.
pub mod Order
pub mod Spelling
use fat32_reimplementation.Base.{
  ℕ, bit_and, List, [], ◌∷◌, ◌++◌, map, chunks_exact, ◌==◌, leb, if◌then◌else◌, not, Option, none,
  some, Run, done, ◌>>=◌,
}
use fat32_reimplementation.Base.Words.{from_le_bytes}
use fat32_reimplementation.Base.Text.{from_utf16}
use fat32_reimplementation.FileSystem.Entry.{parse_lfn}

abbrev pub LfnFragments : Type 0
LfnFragments = List (ℕ × List ℕ)

-- What `list_directory_entries` carries from entry to entry.
pub record LfnState : Type 0 where
  pub fragments : LfnFragments
  pub expected_checksum : Option ℕ

abbrev pub no_lfn : LfnState
no_lfn = record { fragments = []; expected_checksum = none }

unfoldable pub byte_to_u16_vec : List ℕ → List ℕ
byte_to_u16_vec fragment = map from_le_bytes (chunks_exact 2 fragment)

-- The first fragment with this number is replaced; if there is none the fragment is added.
unfoldable pub put_fragment : ℕ → List ℕ → LfnFragments → LfnFragments
put_fragment seq fragment_data [] = (seq, fragment_data) ∷ []
put_fragment seq fragment_data ((existing_seq, existing_frag) ∷ fragments) =
    if existing_seq == seq
    then (existing_seq, fragment_data) ∷ fragments
    else (existing_seq, existing_frag) ∷ put_fragment seq fragment_data fragments

unfoldable pub process_lfn_entry : List ℕ → LfnState → Run LfnState
unfolding byte_to_u16_vec put_fragment parse_lfn
process_lfn_entry entry_chunk state = do
  lfn_entry ← parse_lfn entry_chunk
  let seq = bit_and lfn_entry.seq_num 0x1F
  let is_last = not (bit_and lfn_entry.seq_num 0x40 == 0)
  let fragment_data =
      byte_to_u16_vec lfn_entry.name_1
      ++ (byte_to_u16_vec lfn_entry.name_2 ++ byte_to_u16_vec lfn_entry.name_3)
  let collected = if is_last then [] else state.fragments
  done (record {
    fragments = put_fragment seq fragment_data collected;
    expected_checksum = if is_last then some lfn_entry.chksum else state.expected_checksum;
  })

-- `sort_by` on the sequence numbers: equal ones keep their order.
unfoldable pub insert_by_seq : ℕ × List ℕ → LfnFragments → LfnFragments
insert_by_seq a [] = a ∷ []
insert_by_seq a (b ∷ frags) = if leb a.0 b.0 then a ∷ (b ∷ frags) else b ∷ insert_by_seq a frags

unfoldable pub sort_by_seq : LfnFragments → LfnFragments
unfolding insert_by_seq
sort_by_seq [] = []
sort_by_seq (a ∷ frags) = insert_by_seq a (sort_by_seq frags)

-- The units of one fragment up to a 0x0000, without those that are 0xFFFF.
unfoldable pub fragment_units : List ℕ → List ℕ
fragment_units [] = []
fragment_units (ch ∷ frag) =
    let rest = fragment_units frag in
    if ch == 0x0000 then [] else if ch == 0xFFFF then rest else ch ∷ rest

unfoldable pub all_units : LfnFragments → List ℕ
unfolding fragment_units
all_units [] = []
all_units ((_, frag) ∷ frags) = fragment_units frag ++ all_units frags

unfoldable pub assemble_lfn : LfnFragments → Option (List ℕ)
unfolding all_units sort_by_seq
assemble_lfn [] = none
assemble_lfn (a ∷ frags) = from_utf16 (all_units (sort_by_seq (a ∷ frags)))
