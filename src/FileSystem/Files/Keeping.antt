-- ===== src/FileSystem/Files/Keeping.antt =====
-- A file that is made, written and read.
use fat32_reimplementation.Base.{
  ℕ, ◌^◌, ◌<◌, ◌≡◌, ◌≢◌, refl, ap, sym, ◌∙◌, List, [], ◌∷◌, ◌++◌, length, All, take, min,
  chunks_exact, false, none, some, done, ◌>>=◌, bind-done, ok, arith,
}
use fat32_reimplementation.Base.Text.{from_utf8}
use fat32_reimplementation.Base.Chunks.{set}
use fat32_reimplementation.Base.Words.{IsByte}
use fat32_reimplementation.FileSystem.{Fat32FileSystem, IsVolume, InData, cluster_size}
use fat32_reimplementation.FileSystem.Table.{set_entry}
use fat32_reimplementation.FileSystem.Names.{short_name_to_string, format_to_8_3}
use fat32_reimplementation.FileSystem.Entry.{FileInfo, file_info}
use fat32_reimplementation.FileSystem.LongNames.{no_lfn}
use fat32_reimplementation.FileSystem.Listing.{list_directory_entries}
use fat32_reimplementation.FileSystem.Listing.Contents.{
  entries_of, cluster_chunks, list_directory_entries-entries_of,
}
use fat32_reimplementation.FileSystem.FilePath.{find_name, parse_path}
use fat32_reimplementation.FileSystem.Directories.{parent_of, create_file, new_entry}
use fat32_reimplementation.FileSystem.Directories.Insertion.{insert_entry}
use fat32_reimplementation.FileSystem.Directories.Slots.{name_field}
use fat32_reimplementation.FileSystem.Directories.Creation.{
  HasRoom, IsShortName, create_file-listing,
}
use fat32_reimplementation.FileSystem.Directories.Entering.{
  IsName, find_name-behind, parse_path-name,
}
use fat32_reimplementation.FileSystem.Files.{
  rsplit_slash, named_slot, write_file, read_file, text_result,
}
use fat32_reimplementation.FileSystem.Files.Writing.{written, fs_sized, written-count}
use fat32_reimplementation.FileSystem.Files.Saving.{
  write_file-read_file, sized_IsVolume, sized_InData, sized_root,
}
use fat32_reimplementation.FileSystem.Files.Sizing.{
  sized_entry, sized_entry-short, sized_entry-shown, named_slot-set,
}
use fat32_reimplementation.FileSystem.Files.Touching.{
  touched, touched-IsVolume, touched-InData, touched-InTable, touched_end, touched-chunks, slot-lt,
  sized-chunks,
}

-- A name that the root lists is found from the root.
pub from_root_name :
    (fs : Fat32FileSystem) (text : List ℕ) (files : List FileInfo) (file : FileInfo)
    → IsName text
    → list_directory_entries fs fs.root_cluster ≡ done files
    → find_name text files ≡ some file
    → parse_path fs text none ≡ done (some file)
unfolding parse_path
from_root_name fs text files file plain listing found =
    parse_path-name fs text fs.root_cluster files file plain listing found

-- A volume with room for a file in the root, under a name that is not there yet.
pub record IsNew (to_uppercase : List ℕ → List ℕ) (fs : Fat32FileSystem) (idx n : ℕ)
    (short_name name : List ℕ) (files : List FileInfo) : Type 0 where
  pub short : IsShortName short_name
  pub room : HasRoom fs fs.root_cluster idx n
  pub inside : InData fs n
  pub apart : n ≢ fs.root_cluster
  pub formatted : format_to_8_3 to_uppercase name ≡ ok short_name
  pub again : format_to_8_3 to_uppercase (short_name_to_string short_name) ≡ ok short_name
  pub one_name : IsName (short_name_to_string short_name)
  pub no_slash : rsplit_slash (short_name_to_string short_name) ≡ none
  pub listed : list_directory_entries fs fs.root_cluster ≡ done files
  pub not_listed : find_name (short_name_to_string short_name) files ≡ none
  pub no_slot : named_slot short_name (cluster_chunks fs fs.root_cluster) 0 ≡ none

module _ (to_uppercase : List ℕ → List ℕ) {fs : Fat32FileSystem} (v : IsVolume fs) (idx n : ℕ)
    (short_name name : List ℕ) (files : List FileInfo)
    (new : IsNew to_uppercase fs idx n short_name name files) where
  abbrev text : List ℕ
  text = short_name_to_string short_name

  abbrev made : Fat32FileSystem
  made = touched fs fs.root_cluster idx n short_name

  abbrev file : FileInfo
  file = file_info text false 0 n

  v1 : IsVolume made
  v1 = touched-IsVolume v fs.root_cluster idx n new.room short_name new.short

  small : n < 2 ^ 32
  small = omega (arith, new.room.high)

  found : parse_path made text none ≡ done (some file)
  unfolding set_entry parent_of
  found =
      let (before, after, old, created, listing) =
        create_file-listing to_uppercase v [] name fs.root_cluster idx n short_name refl
          new.formatted new.short new.room in
      let known = new.listed in
      let same : before ++ after ≡ files = cc in
      from_root_name made text (before ++ file ∷ after) file new.one_name listing
        (find_name-behind text before after file refl (ap (find_name text) same ∙ new.not_listed))

  slot : named_slot short_name (cluster_chunks made fs.root_cluster) 0 ≡ some idx
  slot =
      ap (λ (cs : List (List ℕ)). named_slot short_name cs 0)
        (touched-chunks v fs.root_cluster idx n new.room short_name new.short)
      ∙ named_slot-set short_name (new_entry short_name 0x20 n) (cluster_chunks fs fs.root_cluster)
          idx 0 (name_field short_name 0x20 n new.short.eleven)
          (slot-lt v fs.root_cluster idx n new.room short_name new.short) new.no_slot
      ∙ ap some (omega arith)

  inside1 : InData made n
  inside1 = touched-InData v fs.root_cluster idx n new.room short_name new.short n new.inside

  root1 : InData made made.root_cluster
  unfolding set_entry
  root1 =
      touched-InData v fs.root_cluster idx n new.room short_name new.short fs.root_cluster
        new.room.inside

  apart1 : n ≢ made.root_cluster
  unfolding set_entry
  apart1 = new.apart

  slot1 : named_slot short_name (cluster_chunks made made.root_cluster) 0 ≡ some idx
  unfolding set_entry
  slot1 = slot

  module _ (bytes : List ℕ) (good : All IsByte bytes) where
    abbrev kept : List ℕ
    kept = written to_uppercase v1 text short_name bytes file idx

    abbrev saved : Fat32FileSystem
    saved = fs_sized to_uppercase v1 text short_name bytes file idx

    saved-chunks :
        cluster_chunks saved saved.root_cluster
        ≡ set (cluster_chunks fs fs.root_cluster) idx (sized_entry short_name n (length kept))
    unfolding set_entry
    saved-chunks =
        ap (chunks_exact 32) (
          sized_root to_uppercase v1 text short_name bytes file idx inside1 root1 apart1 good slot1)
        ∙ sized-chunks v fs.root_cluster idx n new.room short_name new.short (length kept)

    kept_small : length kept < 2 ^ 32
    kept_small = omega (
      arith,
      written-count to_uppercase v1 text short_name bytes file idx,
      inside1.1,
      v1.addressable,
    )

    later : parse_path saved text none ≡ done (some (record file { size = length kept }))
    unfolding set_entry
    later =
        let y = sized_entry short_name n (length kept) in
        let info = file_info text false (length kept) n in
        let state = new.room.settled in
        let (before, after, old, listing) =
          insert_entry y info
            (sized_entry-short short_name new.short n (length kept) small kept_small)
            (cluster_chunks fs fs.root_cluster) no_lfn 0 idx (new.room.slot ∙ ap some (omega arith))
            (sized_entry-shown short_name new.short n (length kept) small kept_small _ state)
            new.room.terminated in
        let known =
          sym (list_directory_entries-entries_of v fs.root_cluster new.room.inside ∙ ap done old)
          ∙ new.listed in
        let same : before ++ after ≡ files = cc in
        let shown_now : list_directory_entries saved saved.root_cluster
            ≡ done (before ++ info ∷ after) =
          list_directory_entries-entries_of
            (sized_IsVolume to_uppercase v1 text short_name bytes file idx inside1 root1 apart1 good
              slot1)
            saved.root_cluster
            (sized_InData to_uppercase v1 text short_name bytes file idx inside1 root1 apart1 good
              slot1 made.root_cluster root1)
          ∙ ap (λ (cs : List (List ℕ)). done (entries_of cs no_lfn)) saved-chunks
          ∙ ap done listing in
        from_root_name saved text (before ++ info ∷ after) info new.one_name shown_now
          (find_name-behind text before after info refl (ap (find_name text) same ∙ new.not_listed))

    -- The new file is made, written and read.
    pub create_file-read_file :
        (create_file to_uppercase fs [] name >>= λ (_, fs1).
        write_file to_uppercase fs1 text bytes >>= λ (_, fs2). read_file 1 fs2 text none)
        ≡ done (text_result (from_utf8 (take (min (length bytes) (cluster_size fs)) bytes)))
    unfolding set_entry parent_of
    create_file-read_file =
        let (_, _, _, created, _) =
          create_file-listing to_uppercase v [] name fs.root_cluster idx n short_name refl
            new.formatted new.short new.room in
        bind-done _ created (
          write_file-read_file to_uppercase v1 text short_name bytes file idx found refl inside1
            root1 apart1 good new.no_slash new.again slot1
            (touched-InTable v fs.root_cluster idx n new.room short_name new.short)
            (omega (arith, touched_end v fs.root_cluster idx n new.room short_name new.short))
            later)
