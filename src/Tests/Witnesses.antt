-- ===== src/Tests/Witnesses.antt =====
-- The theorems at the example volume and at other concrete inputs.
use fat32_reimplementation.Base.{
  ℕ, ◌%◌, ◌^◌, ◌≡◌, ◌≢◌, refl, List, [], ◌∷◌, ◌++◌, take, none, some, false, arith, done,
  out_of_fuel, ok, map,
}
use fat32_reimplementation.Base.Windows.{window, slice}
use fat32_reimplementation.Base.Text.{ascii_upper, UppersAscii, from_utf8}
use fat32_reimplementation.FileSystem.{Fat32FileSystem, cluster_offset, cluster_size}
use fat32_reimplementation.FileSystem.Sectors.{read_cluster}
use fat32_reimplementation.FileSystem.Sectors.Reading.{read_cluster-window}
use fat32_reimplementation.FileSystem.Table.{
  read_fat_entry, write_fat_entry, allocate_cluster, table_entry, set_entry,
}
use fat32_reimplementation.FileSystem.Table.Entries.{read_fat_entry-table_entry}
use fat32_reimplementation.FileSystem.Table.Agreement.{
  write_fat_entry-read_fat_entry, written-IsVolume, written-InData, written-InTable,
}
use fat32_reimplementation.FileSystem.Table.Updates.{table_entry-set_self}
use fat32_reimplementation.FileSystem.Table.Allocation.{allocate_cluster-first}
use fat32_reimplementation.FileSystem.Names.{
  lfn_checksum, format_to_8_3, short_name_to_string, join_name,
}
use fat32_reimplementation.FileSystem.Names.Checksum.{lfn_checksum-injective_byte}
use fat32_reimplementation.FileSystem.Names.RoundTrip.{IsPart, short_name_to_string-format_to_8_3}
use fat32_reimplementation.FileSystem.Entry.{file_info}
use fat32_reimplementation.FileSystem.LongNames.{no_lfn}
use fat32_reimplementation.FileSystem.Listing.{list_directory_entries}
use fat32_reimplementation.FileSystem.Listing.Description.{
  described, list_directory_entries-described,
}
use fat32_reimplementation.FileSystem.Listing.Contents.{cluster_chunks}
use fat32_reimplementation.FileSystem.FilePath.{parse_path}
use fat32_reimplementation.FileSystem.Files.{read_chain, read_file, text_result}
use fat32_reimplementation.FileSystem.Files.Chains.{
  Chain, last, chain_bytes, read_file-Chain, read_chain_loop,
}
use fat32_reimplementation.Tests.Fixture.{volume, test_name}
use fat32_reimplementation.Tests.Volume.{
  volume-IsVolume, volume-InData, volume-InTable, volume-Taken, entry_three, entry_four,
}

read_cluster-window_example :
    read_cluster volume 3
    ≡ done (window volume.disk (cluster_offset volume 3) (cluster_size volume))
read_cluster-window_example =
    read_cluster-window volume-IsVolume 3 (volume-InData 3 (omega arith) (omega arith))

read_fat_entry-table_entry_example : read_fat_entry volume 3 ≡ done (table_entry volume 3)
read_fat_entry-table_entry_example =
    read_fat_entry-table_entry volume-IsVolume 3 (volume-InTable 3 (omega arith))

write_fat_entry-read_fat_entry_example :
    (fs' : Fat32FileSystem) × (write_fat_entry volume 4 3 ≡ done fs')
    × (read_fat_entry fs' 4 ≡ done (3 % 2 ^ 28))
    × (read_fat_entry fs' 3 ≡ read_fat_entry volume 3)
    × (read_cluster fs' 2 ≡ read_cluster volume 2)
write_fat_entry-read_fat_entry_example =
    write_fat_entry-read_fat_entry volume-IsVolume 4 (volume-InTable 4 (omega arith)) 3 3 2
      (omega arith) (volume-InTable 3 (omega arith)) (volume-InData 2 (omega arith) (omega arith))

allocate_cluster-first_example :
    allocate_cluster volume ≡ done (ok 4, set_entry volume 4 0x0FFF_FFFF)
allocate_cluster-first_example =
    allocate_cluster-first volume-IsVolume 4 (omega arith) (omega arith) volume-Taken
      (volume-InTable 4 (omega arith)) entry_four

lfn_checksum-injective_byte_example :
    lfn_checksum ((b'A' ∷ []) ++ b'B' ∷ b'C' ∷ []) ≢ lfn_checksum ((b'A' ∷ []) ++ b'D' ∷ b'C' ∷ [])
lfn_checksum-injective_byte_example =
    lfn_checksum-injective_byte b'B' b'D' (b'A' ∷ []) (b'C' ∷ []) (omega arith) (omega arith)
      (omega arith)

abbrev pub upper : List ℕ → List ℕ
upper = map ascii_upper

upper-UppersAscii : UppersAscii upper
upper-UppersAscii s ascii = refl

readme : IsPart 8 (b'r' ∷ b'e' ∷ b'a' ∷ [])
readme = record {
  ascii = (omega arith, (omega arith, (omega arith, tt)));
  dotless = (refl, (refl, (refl, tt)));
  trimmed = refl;
  short = omega arith;
}

md : IsPart 3 (b'm' ∷ b'd' ∷ [])
md = record {
  ascii = (omega arith, (omega arith, tt));
  dotless = (refl, (refl, tt));
  trimmed = refl;
  short = omega arith;
}

short_name_to_string-format_to_8_3_example :
    (name11 : List ℕ) × (format_to_8_3 upper
        (join_name (b'r' ∷ b'e' ∷ b'a' ∷ []) (b'm' ∷ b'd' ∷ []))
      ≡ ok name11)
    × (short_name_to_string name11
        ≡ join_name
            (map ascii_upper (b'r' ∷ b'e' ∷ b'a' ∷ []))
            (map ascii_upper (b'm' ∷ b'd' ∷ [])))
short_name_to_string-format_to_8_3_example =
    short_name_to_string-format_to_8_3 upper upper-UppersAscii b'r' (b'e' ∷ b'a' ∷ [])
      (b'm' ∷ b'd' ∷ []) readme md

list_directory_entries-described_example :
    list_directory_entries volume 2 ≡ done (described (cluster_chunks volume 2) no_lfn)
list_directory_entries-described_example =
    list_directory_entries-described volume-IsVolume 2 (volume-InData 2 (omega arith) (omega arith))

resolved : parse_path volume test_name none ≡ done (some (file_info test_name false 5 3))
unfolding parse_path slice window short_name_to_string from_utf8
resolved = refl

three-Chain : Chain volume 3 (3 ∷ [])
three-Chain =
    last (volume-InData 3 (omega arith) (omega arith)) (volume-InTable 3 (omega arith))
      (omega (arith, entry_three))

read_file-Chain_example :
    read_file 1 volume test_name none
    ≡ done (text_result (from_utf8 (take 5 (chain_bytes volume (3 ∷ [])))))
read_file-Chain_example =
    read_file-Chain volume-IsVolume 1 test_name none (file_info test_name false 5 3) (3 ∷ [])
      resolved refl three-Chain (omega arith)

-- Cluster 4 as a chain that leads to itself.
abbrev looped : Fat32FileSystem
looped = set_entry volume 4 4

read_chain_loop_example : read_chain 1000 looped 4 [] ≡ out_of_fuel
read_chain_loop_example =
    let inside = volume-InTable 4 (omega arith) in
    read_chain_loop (written-IsVolume volume-IsVolume 4 inside 4) 1000 4 []
      (written-InData volume-IsVolume 4 inside 4 4 (volume-InData 4 (omega arith) (omega arith)))
      (written-InTable volume-IsVolume 4 inside 4 4 inside)
      (table_entry-set_self volume-IsVolume 4 inside 4) (omega arith)
