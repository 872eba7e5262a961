-- ===== src/Tests/Directories.antt =====
-- The theorems on directories and on mounting at the example volume.
use fat32_reimplementation.Base.{
  ℕ, get_or, ◌*◌, ◌+◌, ◌≡◌, refl, List, [], ◌∷◌, ◌++◌, some, true, false, arith, done, ok,
  replicate,
}
use fat32_reimplementation.Base.Windows.{window, splice}
use fat32_reimplementation.Base.Text.{split, ascii_upper}
use fat32_reimplementation.FileSystem.{Fat32FileSystem, mount, cluster_size}
use fat32_reimplementation.FileSystem.Boot.{field, described, mount-described}
use fat32_reimplementation.FileSystem.Directories.Fresh.{directory_bytes, recorded_parent}
use fat32_reimplementation.FileSystem.Table.{set_entry}
use fat32_reimplementation.FileSystem.Names.{format_to_8_3, short_name_to_string}
use fat32_reimplementation.FileSystem.Entry.{FileInfo, file_info}
use fat32_reimplementation.FileSystem.LongNames.{no_lfn, assemble_lfn}
use fat32_reimplementation.FileSystem.LongNames.Order.{assemble_lfn-swap}
use fat32_reimplementation.FileSystem.Listing.{list_directory_entries}
use fat32_reimplementation.FileSystem.Listing.Contents.{entries_of, kind_of, cluster_chunks}
use fat32_reimplementation.FileSystem.Directories.{
  create_file, mkdir, parent_of, new_entry, free_slot,
}
use fat32_reimplementation.FileSystem.Directories.Insertion.{lfn_at_slot, lfn_after, IsTerminated}
use fat32_reimplementation.FileSystem.Directories.Adding.{with_entry}
use fat32_reimplementation.FileSystem.Directories.Creation.{
  HasRoom, IsShortName, create_file-listing,
}
use fat32_reimplementation.FileSystem.Directories.Subdirectory.{mkdir-listing}
use fat32_reimplementation.FileSystem.Files.Chains.{cluster_bytes}
use fat32_reimplementation.Tests.Fixture.{image, volume}
use fat32_reimplementation.Tests.Volume.{
  all_bytes-IsByte, volume-IsVolume, volume-InData, volume-InTable, volume-Taken, entry_four,
}
use fat32_reimplementation.Tests.Witnesses.{upper}

abbrev pub new_name : List ℕ
new_name = b'N' ∷ b'E' ∷ b'W' ∷ []

abbrev pub new_short : List ℕ
new_short = new_name ++ replicate 8 b' '

pub new_short-IsShortName : IsShortName new_short
new_short-IsShortName = record {
  eleven = refl;
  bytes = all_bytes-IsByte new_short refl;
  not_end = omega arith;
  not_deleted = omega arith;
}

root_slot : free_slot (cluster_chunks volume 2) 0 ≡ some 1
unfolding free_slot window
root_slot = refl

root_settled : (lfn_at_slot (cluster_chunks volume 2) no_lfn).fragments ≡ []
unfolding lfn_at_slot lfn_after kind_of window
root_settled = refl

root-IsTerminated : IsTerminated (cluster_chunks volume 2)
unfolding entries_of kind_of window
root-IsTerminated = (λ e. refl, (λ e. refl, (λ e. refl, (λ e. refl, tt))))

pub root-HasRoom : HasRoom volume 2 1 4
root-HasRoom = record {
  inside = volume-InData 2 (omega arith) (omega arith);
  slot = root_slot;
  settled = root_settled;
  terminated = root-IsTerminated;
  low = omega arith;
  high = omega arith;
  taken = volume-Taken;
  in_table = volume-InTable 4 (omega arith);
  unused = entry_four;
}

pub root_parent : parent_of volume [] ≡ done (some 2)
unfolding parent_of
root_parent = refl

pub new_formatted : format_to_8_3 upper new_name ≡ ok new_short
unfolding format_to_8_3 ascii_upper splice split
new_formatted = refl

create_file-listing_example :
    (before : List FileInfo) × (after : List FileInfo) × (list_directory_entries volume 2
      ≡ done (before ++ after))
    × (create_file upper volume [] new_name
        ≡ done
            (ok tt, with_entry (set_entry volume 4 0x0FFF_FFFF) 2 1 (new_entry new_short 0x20 4)))
    × (list_directory_entries
          (with_entry (set_entry volume 4 0x0FFF_FFFF) 2 1 (new_entry new_short 0x20 4))
          2
        ≡ done (before ++ file_info (short_name_to_string new_short) false 0 4 ∷ after))
create_file-listing_example =
    create_file-listing upper volume-IsVolume [] new_name 2 1 4 new_short root_parent new_formatted
      new_short-IsShortName root-HasRoom

mkdir-listing_example :
    (fs' : Fat32FileSystem) × (before : List FileInfo) × (after : List FileInfo)
    × (list_directory_entries volume 2 ≡ done (before ++ after))
    × (mkdir upper volume [] new_name ≡ done (ok tt, fs'))
    × (list_directory_entries fs' 2
        ≡ done (before ++ file_info (short_name_to_string new_short) true 0 4 ∷ after))
    × (cluster_bytes fs' 4 ≡ directory_bytes (cluster_size volume) 4 (recorded_parent volume 2))
mkdir-listing_example =
    mkdir-listing upper volume-IsVolume [] new_name 2 1 4 new_short new_short-IsShortName
      root-HasRoom (volume-InData 4 (omega arith) (omega arith)) (omega arith) (omega arith)
      root_parent new_formatted

data_place : field image 14 2 + get_or image 16 0 * field image 36 4 ≡ 2
unfolding window
data_place = refl

mount-described_example : mount image ≡ done (described image)
mount-described_example = mount-described image (omega arith) (omega (arith, data_place))

assemble_lfn-swap_example :
    assemble_lfn ((3, b'c' ∷ []) ∷ (2, b'b' ∷ []) ∷ (1, b'a' ∷ []) ∷ [])
    ≡ assemble_lfn ((3, b'c' ∷ []) ∷ (1, b'a' ∷ []) ∷ (2, b'b' ∷ []) ∷ [])
assemble_lfn-swap_example =
    assemble_lfn-swap ((3, b'c' ∷ []) ∷ []) (2, b'b' ∷ []) (1, b'a' ∷ []) [] (omega arith)
