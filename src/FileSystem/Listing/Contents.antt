-- ===== src/FileSystem/Listing/Contents.antt =====
-- What a directory's entries stand for, by their kinds, and the loop of the listing.
use mathlib.Core.Option
use mathlib.Core.List.{append-nil, append_assoc}
use fat32_reimplementation.Base.{
  ℕ, ◌/◌, sym, chunks_exact, ◌≡◌, refl, ap, ◌∙◌, bit_and, List, [], ◌∷◌, ◌++◌, get_or,
  get_elem?-some, length, All, ◌==◌, Bool-cases, if◌then◌else◌, not, inl, inr, Option, none, some,
  done, arith,
}
use fat32_reimplementation.Base.Windows.{window}
use fat32_reimplementation.Base.Chunks.{chunks-length}
use fat32_reimplementation.FileSystem.{
  Fat32FileSystem, IsVolume, InData, cluster_offset, cluster_size,
}
use fat32_reimplementation.FileSystem.Sectors.Reading.{read_cluster-window}
use fat32_reimplementation.FileSystem.Names.{short_name_to_string}
use fat32_reimplementation.FileSystem.Entry.{FatDir, FileInfo, file_info, first_cluster}
use fat32_reimplementation.FileSystem.Entry.Fields.{
  dir_of, lfn_of, parse_dir-dir_of, parse_lfn-lfn_of,
}
use fat32_reimplementation.FileSystem.LongNames.{
  LfnState, no_lfn, byte_to_u16_vec, put_fragment, process_lfn_entry,
}
use fat32_reimplementation.FileSystem.Listing.{
  long_name, process_data_entry, attr_directory, push_some, list_entries, list_directory_entries,
}

-- What an entry of 32 bytes is, by its first byte and its attributes.
pub data Kind : Type 0 where
  end deleted long short : Kind

unfoldable pub kind_of : List ℕ → Kind
kind_of chunk =
    if get_or chunk 0 0 == 0x00
    then end
    else if get_or chunk 0 0 == 0xE5
    then deleted
    else if get_or chunk 11 0 == 0x0F
    then long
    else short

-- The fragments after a long name entry.
unfoldable pub next_lfn : List ℕ → LfnState → LfnState
next_lfn chunk state =
    let entry = lfn_of chunk in
    let is_last = not (bit_and entry.seq_num 0x40 == 0) in
    record {
      fragments =
          put_fragment (bit_and entry.seq_num 0x1F)
            (byte_to_u16_vec entry.name_1
              ++ (byte_to_u16_vec entry.name_2 ++ byte_to_u16_vec entry.name_3))
            (if is_last then [] else state.fragments);
      expected_checksum = if is_last then some entry.chksum else state.expected_checksum;
    }

-- The file or directory of a short entry: nothing for a volume label.
unfoldable pub shown_dir : FatDir → LfnState → Option FileInfo
shown_dir entry state =
    let name = (long_name entry.name state.fragments state.expected_checksum).0 in
    if not (bit_and entry.attr 0x08 == 0)
    then none
    else some (
        file_info (Option.get_or name (short_name_to_string entry.name))
          (not (bit_and entry.attr 0x10 == 0)) entry.size (first_cluster entry))

unfoldable pub shown : List ℕ → LfnState → Option FileInfo
unfolding shown_dir
shown chunk state = shown_dir (dir_of chunk) state

-- The files and directories of a list of entries, given the fragments collected before it.
unfoldable pub entries_of : List (List ℕ) → LfnState → List FileInfo
entries_of [] state = []
entries_of (chunk ∷ chunks) state = elim (kind_of chunk) [
  | end ↦ []
  | deleted ↦ entries_of chunks no_lfn
  | long ↦ entries_of chunks (next_lfn chunk state)
  | short ↦ push_some [] (shown chunk state) ++ entries_of chunks no_lfn
]

abbrev pub IsChunk : List ℕ → Type 0
IsChunk chunk = length chunk ≡ 32

module _ (chunk : List ℕ) (state : LfnState) (whole : IsChunk chunk) where
  process_lfn_entry-next_lfn : process_lfn_entry chunk state ≡ done (next_lfn chunk state)
  unfolding process_lfn_entry next_lfn
  process_lfn_entry-next_lfn = rw (parse_lfn-lfn_of chunk whole)

  process_data_entry-shown :
      (r : LfnState) × (process_data_entry chunk state attr_directory ≡ done (shown chunk state, r))
  unfolding process_data_entry shown
  process_data_entry-shown = elim (Bool-cases (bit_and (get_or chunk 11 0) 0x08 == 0)) [
    | inl e ↦ (
      (long_name (window chunk 0 11) state.fragments state.expected_checksum).1,
      rw (parse_dir-dir_of chunk whole, e) refl,
    )
    | inr e ↦ (state, rw (parse_dir-dir_of chunk whole, e) refl)
  ]

  -- One round of the loop.
  list_entries-cons :
      (chunks : List (List ℕ)) (results : List FileInfo)
      → list_entries (chunk ∷ chunks) state results ≡ (elim (kind_of chunk) [
        | end ↦ done results
        | deleted ↦ list_entries chunks no_lfn results
        | long ↦ list_entries chunks (next_lfn chunk state) results
        | short ↦ list_entries chunks no_lfn (push_some results (shown chunk state))
      ])
  unfolding list_entries kind_of
  list_entries-cons chunks results =
      rw (get_elem?-some chunk 0 0 (omega arith), get_elem?-some chunk 11 0 (omega arith))
        (ground (arith, process_lfn_entry-next_lfn, process_data_entry-shown.1))

push_some-append :
    (results : List FileInfo) (o : Option FileInfo)
    → push_some results o ≡ results ++ push_some [] o
push_some-append results none = rw append-nil
push_some-append results (some f) = refl

-- The same round by the kind of the entry, given the rest of the loop.
list_entries-kind :
    (chunk : List ℕ) (chunks : List (List ℕ)) (state : LfnState) (results : List FileInfo)
    (k : Kind)
    → IsChunk chunk
    → kind_of chunk ≡ k
    → ((state' : LfnState) (more : List FileInfo)
        → list_entries chunks state' more ≡ done (more ++ entries_of chunks state'))
    → list_entries (chunk ∷ chunks) state results
      ≡ done (results ++ entries_of (chunk ∷ chunks) state)
unfolding entries_of
list_entries-kind chunk chunks state results end h e rest =
    list_entries-cons chunk state h chunks results
    ∙ rw (e, entries_of) (sym (ap done (append-nil results)))
list_entries-kind chunk chunks state results deleted h e rest =
    list_entries-cons chunk state h chunks results ∙ rw (e, entries_of) (rest no_lfn results)
list_entries-kind chunk chunks state results long h e rest =
    list_entries-cons chunk state h chunks results
    ∙ rw (e, entries_of) (rest (next_lfn chunk state) results)
list_entries-kind chunk chunks state results short h e rest =
    let found = push_some [] (shown chunk state) in
    list_entries-cons chunk state h chunks results
    ∙ rw (e, entries_of)
        (rest no_lfn (push_some results (shown chunk state))
          ∙ ap (λ (r : List FileInfo). done (r ++ entries_of chunks no_lfn))
              (push_some-append results (shown chunk state))
          ∙ ap done (append_assoc results found (entries_of chunks no_lfn)))

-- On entries of 32 bytes the loop does not panic, and adds what they stand for.
pub list_entries-entries_of :
    (chunks : List (List ℕ)) (state : LfnState) (results : List FileInfo)
    → All IsChunk chunks
    → list_entries chunks state results ≡ done (results ++ entries_of chunks state)
list_entries-entries_of [] state results h = unfold list_entries entries_of in rw append-nil
list_entries-entries_of (chunk ∷ chunks) state results h =
    list_entries-kind chunk chunks state results (kind_of chunk) h.0 refl
      λ state' more. list_entries-entries_of chunks state' more h.1

-- The entries of cluster `c`, 32 bytes each.
abbrev pub cluster_chunks : Fat32FileSystem → ℕ → List (List ℕ)
cluster_chunks fs c = chunks_exact 32 (window fs.disk (cluster_offset fs c) (cluster_size fs))

module _ {fs : Fat32FileSystem} (v : IsVolume fs) (c : ℕ) (inside : InData fs c) where
  pub cluster_chunks-IsChunk : All IsChunk (cluster_chunks fs c)
  cluster_chunks-IsChunk =
      let w = window fs.disk (cluster_offset fs c) (cluster_size fs) in
      chunks-length 32 (length w / 32) w (omega arith)

  -- On a volume, listing a cluster inside the image does not panic: it returns the files and
  -- directories of the cluster's entries.
  pub list_directory_entries-entries_of :
      list_directory_entries fs c ≡ done (entries_of (cluster_chunks fs c) no_lfn)
  unfolding list_directory_entries
  list_directory_entries-entries_of =
      rw (read_cluster-window v c inside)
        (list_entries-entries_of (cluster_chunks fs c) no_lfn [] cluster_chunks-IsChunk)
