-- ===== src/Tests/Writing.antt =====
-- The theorems on written files and refused requests at the example volume.
use mathlib.Core.Path.{subst}
use fat32_reimplementation.Base.{
  ℕ, ◌≤◌, ◌≡◌, ◌≢◌, refl, sym, inl, inr, List, [], ◌∷◌, ◌++◌, replicate, some, none, false, err, ok,
  arith, done,
}
use fat32_reimplementation.Base.Windows.{window, slice, splice}
use fat32_reimplementation.Base.Words.{to_le_bytes}
use fat32_reimplementation.Base.Text.{split, ascii_upper, from_utf8}
use fat32_reimplementation.FileSystem.{Fat32FileSystem, IsVolume, InData, InTable}
use fat32_reimplementation.FileSystem.Table.{table_entry}
use fat32_reimplementation.FileSystem.Table.Allocation.{Taken}
use fat32_reimplementation.FileSystem.Names.{format_to_8_3, short_name_to_string}
use fat32_reimplementation.FileSystem.Entry.{FileInfo, file_info, first_cluster}
use fat32_reimplementation.FileSystem.FilePath.{parse_path, path_parts, find_name}
use fat32_reimplementation.FileSystem.LongNames.{no_lfn}
use fat32_reimplementation.FileSystem.Listing.{list_directory_entries}
use fat32_reimplementation.FileSystem.Directories.Entering.{IsName}
use fat32_reimplementation.FileSystem.Listing.Contents.{cluster_chunks, entries_of, kind_of, shown}
use fat32_reimplementation.FileSystem.Directories.{free_slot, parent_of, create_file}
use fat32_reimplementation.FileSystem.Directories.Refusals.{
  no_parent, create_file-IsRefused, create_file_leaks,
}
use fat32_reimplementation.FileSystem.Files.{
  rsplit_slash, named_slot, write_file, read_file, text_result,
}
use fat32_reimplementation.FileSystem.Files.Chains.{cluster_bytes}
use fat32_reimplementation.FileSystem.Files.Saving.{write_file-splice}
use fat32_reimplementation.FileSystem.Files.Resizing.{entry_at}
use fat32_reimplementation.FileSystem.Files.Showing.{IsListed, write_file-listing}
use fat32_reimplementation.Tests.Fixture.{volume, test_name}
use fat32_reimplementation.Tests.Volume.{
  two_or_three, all_bytes-IsByte, volume-IsVolume, volume-InData, volume-InTable, entry_three,
}
use fat32_reimplementation.Tests.Witnesses.{upper}

abbrev goodbye : List ℕ
goodbye = b'b' ∷ b'y' ∷ b'e' ∷ []

abbrev test_short : List ℕ
test_short = b'T' ∷ b'E' ∷ b'S' ∷ b'T' ∷ b' ' ∷ b' ' ∷ b' ' ∷ b' ' ∷ b'T' ∷ b'X' ∷ b'T' ∷ []

abbrev test_file : FileInfo
test_file = file_info test_name false 5 3

found : parse_path volume test_name none ≡ done (some test_file)
unfolding parse_path slice window short_name_to_string from_utf8
found = refl

formatted : format_to_8_3 upper test_name ≡ ok test_short
unfolding format_to_8_3 split splice ascii_upper
formatted = refl

plain : rsplit_slash test_name ≡ none
unfolding rsplit_slash
plain = refl

in_root : named_slot test_short (cluster_chunks volume 2) 0 ≡ some 0
unfolding named_slot window
in_root = refl

write_file-splice_example :
    (fs' : Fat32FileSystem) × (write_file upper volume test_name goodbye ≡ done (ok tt, fs'))
    × (cluster_bytes fs' 3 ≡ splice (cluster_bytes volume 3) 0 goodbye)
    × (cluster_bytes fs' 2 ≡ splice (cluster_bytes volume 2) 28 (to_le_bytes 4 3))
    × ((d : ℕ) → 2 ≤ d → 3 ≢ d → 2 ≢ d → cluster_bytes fs' d ≡ cluster_bytes volume d)
    × ((k : ℕ) → InTable volume k → table_entry fs' k ≡ table_entry volume k)
write_file-splice_example =
    write_file-splice upper volume-IsVolume test_name test_short goodbye test_file 0 found refl
      (volume-InData 3 (omega arith) (omega arith)) (volume-InData 2 (omega arith) (omega arith))
      (omega arith) (all_bytes-IsByte goodbye refl) plain formatted in_root

test_name-IsName : IsName test_name
unfolding path_parts split
test_name-IsName = record { one_part = refl; relative = refl; not_dot = refl; not_dot_dot = refl }

test_listed : entry_at (cluster_chunks volume 2) no_lfn 0 ≡ some test_file
unfolding entry_at window short_name_to_string from_utf8 kind_of shown first_cluster
test_listed = refl

test_file-IsListed : IsListed upper volume test_name test_short test_file 0
unfolding entries_of find_name
test_file-IsListed = record {
  regular = refl;
  inside = volume-InData 3 (omega arith) (omega arith);
  root = volume-InData 2 (omega arith) (omega arith);
  apart = omega arith;
  in_table = volume-InTable 3 (omega arith);
  one_cluster = omega (arith, entry_three);
  one_name = test_name-IsName;
  no_slash = plain;
  formatted = formatted;
  slot = in_root;
  listed = test_listed;
  named = refl;
  first = refl;
}

write_file-listing_example :
    (fs' : Fat32FileSystem) × (before : List FileInfo) × (after : List FileInfo) × (write_file upper
        volume test_name goodbye
      ≡ done (ok tt, fs'))
    × (list_directory_entries volume 2 ≡ done (before ++ test_file ∷ after))
    × (list_directory_entries fs' 2 ≡ done (before ++ record test_file { size = 3 } ∷ after))
    × (read_file 1 fs' test_name none ≡ done (text_result (from_utf8 goodbye)))
write_file-listing_example =
    write_file-listing upper volume-IsVolume test_name test_short test_file 0 test_file-IsListed
      goodbye (all_bytes-IsByte goodbye refl)

abbrev missing : List ℕ
missing = b'X' ∷ []

no_missing : parent_of volume missing ≡ done none
unfolding parent_of slice window short_name_to_string from_utf8
no_missing = refl

create_file-IsRefused_example :
    create_file upper volume missing test_name ≡ done (err "Parent directory not found", volume)
create_file-IsRefused_example =
    create_file-IsRefused upper volume missing test_name volume-IsVolume
      "Parent directory not found" (no_parent no_missing)

-- The volume with a root directory whose four entries are in use.
abbrev packed : Fat32FileSystem
packed = record volume { disk = splice volume.disk 256 (replicate 128 b'T') }

packed-IsVolume : IsVolume packed
unfolding splice
packed-IsVolume = record {
  bytes = all_bytes-IsByte packed.disk refl;
  addressable = omega arith;
  sector_pos = omega arith;
  sector_whole = refl;
  cluster_pos = omega arith;
  table_first = omega arith;
  root = omega arith;
}

packed-InData : InData packed 2
unfolding splice
packed-InData = (omega arith, omega arith)

packed-InTable : (k : ℕ) → k ≤ 31 → InTable packed k
unfolding splice
packed-InTable k hi = (omega arith, omega arith)

packed_entries :
    (table_entry packed 2 ≡ 0x0FFF_FFFF)
    × (table_entry packed 3 ≡ 0x0FFF_FFFF)
    × (table_entry packed 4 ≡ 0)
unfolding table_entry window splice
packed_entries = (refl, refl, refl)

packed-Taken : Taken packed 2 4
packed-Taken k lo hi = (
  packed-InTable k (omega arith),
  elim (two_or_three k lo hi) [
    | inl two ↦
        subst (λ (c : ℕ). table_entry packed c ≢ 0) (sym two) (omega (arith, packed_entries.0))
    | inr three ↦
        subst (λ (c : ℕ). table_entry packed c ≢ 0) (sym three) (omega (arith, packed_entries.1))
  ],
)

packed_slot : free_slot (cluster_chunks packed 2) 0 ≡ none
unfolding free_slot window splice
packed_slot = refl

create_file_leaks_example :
    (fs' : Fat32FileSystem) × (create_file upper packed [] test_name
      ≡ done (err "No space in parent directory", fs'))
    × (table_entry fs' 4 ≡ 0x0FFF_FFFF)
create_file_leaks_example =
    create_file_leaks upper packed-IsVolume [] test_name 2 4 test_short (unfold parent_of in refl)
      formatted packed-InData packed_slot (omega arith) (omega arith) packed-Taken
      (packed-InTable 4 (omega arith)) packed_entries.2
