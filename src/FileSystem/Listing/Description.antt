-- ===== src/FileSystem/Listing/Description.antt =====
-- What the bytes of a directory stand for, described by their places in an entry, and the listing.
use mathlib.Core.Path.{subst}
use mathlib.Core.Option
use fat32_reimplementation.Base.{
  ℕ, zero, suc, ◌+◌, ◌*◌, ◌^◌, ◌<◌, ◌≡◌, refl, ap, ◌∙◌, bit_and, List, [], ◌∷◌, ◌++◌, get_or,
  length, All, All-take, All-drop, drop, chunks, ◌/◌, ◌==◌, Bool-cases, if◌then◌else◌, not, inl,
  inr, Option, none, some, done, arith,
}
use fat32_reimplementation.Base.Bits.{bit_or-fields}
use fat32_reimplementation.Base.Windows.{window, length-window, All-window}
use fat32_reimplementation.Base.Words.{from_le_bytes, from_le_bytes-lt, IsByte}
use fat32_reimplementation.FileSystem.{
  Fat32FileSystem, IsVolume, InData, cluster_offset, cluster_size,
}
use fat32_reimplementation.FileSystem.Names.{short_name_to_string}
use fat32_reimplementation.FileSystem.Entry.{FileInfo, file_info, first_cluster}
use fat32_reimplementation.FileSystem.LongNames.{LfnFragments, LfnState, no_lfn}
use fat32_reimplementation.FileSystem.Listing.{long_name, push_some, list_directory_entries}
use fat32_reimplementation.FileSystem.Listing.Contents.{
  Kind, end, deleted, long, short, kind_of, shown, shown_dir, entries_of, IsChunk, cluster_chunks,
  cluster_chunks-IsChunk, list_directory_entries-entries_of,
}
use fat32_reimplementation.FileSystem.LongNames.Spelling.{spelled, assemble_lfn-spelled}
use fat32_reimplementation.FileSystem.Names.Checksum.{checksum, lfn_checksum-checksum}
use fat32_reimplementation.FileSystem.Listing.Fragments.{
  joined, next_lfn-joined, AreNumbered, next_lfn-AreNumbered,
}

-- The long name counts if its checksum is that of the short name.
abbrev pub own_name : List ℕ → LfnState → List ℕ
own_name name11 state = elim state.expected_checksum [
  | none ↦ short_name_to_string name11
  | some expected ↦
      if checksum name11 == expected
      then Option.get_or (spelled state.fragments) (short_name_to_string name11)
      else short_name_to_string name11
]

long_name-own_name :
    (name11 : List ℕ) (frags : LfnFragments) (expected : Option ℕ)
    → AreNumbered frags
    → Option.get_or ((long_name name11 frags expected).0) (short_name_to_string name11)
      ≡ own_name name11 (record { fragments = frags; expected_checksum = expected })
long_name-own_name name11 [] none h = refl
long_name-own_name name11 [] (some expected) h = ground arith
long_name-own_name name11 (f ∷ frags) none h = refl
long_name-own_name name11 (f ∷ frags) (some expected) h =
    rw (lfn_checksum-checksum name11, assemble_lfn-spelled (f ∷ frags) h)
      (elim (Bool-cases (expected == checksum name11)) [
        | inl same ↦ ground (arith, same)
        | inr ne ↦ ground (arith, ne)
      ])

-- What an entry in use lists: nothing for a volume label (bit 0x08), and otherwise its name, whether
-- it is a directory (bit 0x10), its size and its start cluster.
abbrev pub listed_as : List ℕ → LfnState → List FileInfo
listed_as chunk state =
    if bit_and (get_or chunk 11 0) 0x08 == 0
    then file_info (own_name (window chunk 0 11) state)
        (not (bit_and (get_or chunk 11 0) 0x10 == 0)) (from_le_bytes (window chunk 28 4))
        (from_le_bytes (window chunk 20 2) * 2 ^ 16 + from_le_bytes (window chunk 26 2))
      ∷ []
    else []

-- The files and directories of a list of entries, up to the first that begins with 0.
unfoldable pub described : List (List ℕ) → LfnState → List FileInfo
described [] state = []
described (chunk ∷ chunks) state = elim (kind_of chunk) [
  | end ↦ []
  | deleted ↦ described chunks no_lfn
  | long ↦ described chunks (joined chunk state)
  | short ↦ listed_as chunk state ++ described chunks no_lfn
]

shown-listed_as :
    (chunk : List ℕ) (state : LfnState)
    → AreNumbered state.fragments
    → from_le_bytes (window chunk 26 2) < 2 ^ 16
    → push_some [] (shown chunk state) ≡ listed_as chunk state
unfolding shown shown_dir first_cluster
shown-listed_as chunk state small low =
    let name11 = window chunk 0 11 in
    let name = long_name-own_name name11 state.fragments state.expected_checksum small in
    let start =
      bit_or-fields 16 (from_le_bytes (window chunk 20 2)) (from_le_bytes (window chunk 26 2))
        low in
    elim (Bool-cases (bit_and (get_or chunk 11 0) 0x08 == 0)) [
      | inl plain ↦ rw (plain, name, start) refl
      | inr label ↦ rw label refl
    ]

entries_of-kind :
    (chunk : List ℕ) (chunks : List (List ℕ)) (state : LfnState) (k : Kind)
    → IsChunk chunk
    → All IsByte chunk
    → kind_of chunk ≡ k
    → AreNumbered state.fragments
    → ((state' : LfnState)
        → AreNumbered state'.fragments
        → entries_of chunks state' ≡ described chunks state')
    → entries_of (chunk ∷ chunks) state ≡ described (chunk ∷ chunks) state
unfolding entries_of described
entries_of-kind chunk chunks state end whole bytes e small rest = rw (e, entries_of, described) refl
entries_of-kind chunk chunks state deleted whole bytes e small rest =
    rw (e, entries_of, described) (rest no_lfn tt)
entries_of-kind chunk chunks state long whole bytes e small rest =
    rw (e, entries_of, described)
      (ap (entries_of chunks) (next_lfn-joined chunk state whole)
        ∙ rest (joined chunk state) (
            subst (λ (l : LfnState). AreNumbered l.fragments) (next_lfn-joined chunk state whole)
              (next_lfn-AreNumbered chunk state small)))
entries_of-kind chunk chunks state short whole bytes e small rest =
    let two = length-window chunk 26 2 (omega (arith, whole)) in
    let low : from_le_bytes (window chunk 26 2) < 2 ^ 16 = omega (
      arith,
      subst (λ (n : ℕ). from_le_bytes (window chunk 26 2) < 256 ^ n) two
          (from_le_bytes-lt (window chunk 26 2) (All-window IsByte chunk 26 2 bytes)),
    ) in
    rw (e, entries_of, described)
      (ap (λ (l : List FileInfo). l ++ entries_of chunks no_lfn)
          (shown-listed_as chunk state small low)
        ∙ ap (λ (l : List FileInfo). listed_as chunk state ++ l) (rest no_lfn tt))

entries_of-described :
    (chunks : List (List ℕ)) (state : LfnState)
    → All IsChunk chunks
    → All (λ chunk. All IsByte chunk) chunks
    → AreNumbered state.fragments
    → entries_of chunks state ≡ described chunks state
entries_of-described [] state whole bytes small = unfold entries_of described in refl
entries_of-described (chunk ∷ chunks) state whole bytes small =
    entries_of-kind chunk chunks state (kind_of chunk) whole.0 bytes.0 refl small
      λ state' h. entries_of-described chunks state' whole.1 bytes.1 h

chunks-IsByte :
    (n : ℕ) (w : List ℕ) → All IsByte w → All (λ chunk. All IsByte chunk) (chunks 32 n w)
chunks-IsByte zero w bytes = tt
chunks-IsByte (suc n) w bytes =
    (All-take IsByte 32 w bytes, chunks-IsByte n (drop 32 w) (All-drop IsByte 32 w bytes))

-- On a volume, listing a cluster inside the image does not panic, and returns what its entries of 32
-- bytes stand for (`described`): nothing behind an entry that begins with 0; nothing for a deleted
-- entry (0xE5), a long name entry (attributes 0x0F) or a volume label (0x08); and for each other entry
-- its size and start cluster, read at their places, whether it is a directory (0x10), and its name.
-- That is the text of the long name entries right in front of it, by their numbers and each up to its
-- first unit 0, if they have the checksum of the short name and are UTF-16, or else the short name as
-- `short_name_to_string` reads it.
pub list_directory_entries-described :
    {fs : Fat32FileSystem}
    → IsVolume fs
    → (c : ℕ) → InData fs c
    → list_directory_entries fs c ≡ done (described (cluster_chunks fs c) no_lfn)
list_directory_entries-described {fs} v c inside =
    let w = window fs.disk (cluster_offset fs c) (cluster_size fs) in
    let bytes = All-window IsByte fs.disk (cluster_offset fs c) (cluster_size fs) v.bytes in
    list_directory_entries-entries_of v c inside
    ∙ ap done (
        entries_of-described (cluster_chunks fs c) no_lfn (cluster_chunks-IsChunk v c inside)
          (chunks-IsByte (length w / 32) w bytes) tt)
