-- ===== src/FileSystem/Directories/Opening.antt =====
-- What a new directory lists.
use fat32_reimplementation.Base.{
  ℕ, zero, suc, ◌+◌, ◌-◌, ◌/◌, ◌%◌, ◌^◌, ◌≤◌, ◌<◌, ◌≡◌, All, All-replicate, refl, ap, ◌∙◌, List, [],
  ◌∷◌, ◌++◌, length, length-append, chunks, chunks_exact, replicate, length-replicate, true, done,
  arith, get_elem?_ext, get_elem?-append, bit_and,
}
use fat32_reimplementation.Base.Text.{from_utf8}
use fat32_reimplementation.Base.Windows.{window, splice, get_elem?-splice, length-splice}
use fat32_reimplementation.Base.Bits.{bit_and-low}
use fat32_reimplementation.Base.Words.{IsByte, to_le_bytes}
use fat32_reimplementation.FileSystem.Directories.{new_entry, dot_name, dot_dot_name}
use fat32_reimplementation.FileSystem.Directories.Fresh.{directory_bytes}
use fat32_reimplementation.FileSystem.{Fat32FileSystem, IsVolume, InData, cluster_size}
use fat32_reimplementation.FileSystem.Names.{short_name_to_string}
use fat32_reimplementation.FileSystem.FilePath.{dot, dot_dot}
use fat32_reimplementation.FileSystem.Entry.{FileInfo, file_info}
use fat32_reimplementation.FileSystem.LongNames.{LfnState, no_lfn}
use fat32_reimplementation.FileSystem.Listing.{list_directory_entries}
use fat32_reimplementation.FileSystem.Listing.Contents.{
  kind_of, entries_of, list_directory_entries-entries_of,
}
use fat32_reimplementation.FileSystem.Directories.Insertion.{entries_of-new}
use fat32_reimplementation.FileSystem.Directories.Creation.{IsShortName, entry-short, entry-shown}
use fat32_reimplementation.FileSystem.Files.Chains.{cluster_bytes}

-- A write in the first part of a list.
splice_front :
    (xs ys new : List ℕ) (lo : ℕ)
    → lo + length new ≤ length xs
    → splice (xs ++ ys) lo new ≡ splice xs lo new ++ ys
splice_front xs ys new lo h = get_elem?_ext _ _ λ i. ground (
  arith,
  get_elem?-splice (xs ++ ys) lo new i,
  get_elem?-splice xs lo new i,
  get_elem?-append xs ys i,
  get_elem?-append (splice xs lo new) ys i,
  length-splice xs lo new h,
  length-append xs ys,
)

-- An entry whose low cluster word is given.
abbrev entry_with : List ℕ → ℕ → ℕ → List ℕ
entry_with name c low =
    splice
      (splice (splice (splice (replicate 32 0) 0 name) 11 (0x10 ∷ [])) 20
        (to_le_bytes 2 (c / 2 ^ 16 % 2 ^ 16)))
      26 (to_le_bytes 2 low)

entry_with-new_entry :
    (name : List ℕ) (c : ℕ) → entry_with name c (c % 2 ^ 16) ≡ new_entry name 0x10 c
unfolding new_entry
entry_with-new_entry name c =
    let masked : c % 2 ^ 16 ≡ bit_and c 0xFFFF % 2 ^ 16 = omega (arith, bit_and-low 16 c) in
    ap (entry_with name c) masked

two_entries :
    (c parent : ℕ)
    → directory_bytes 64 c parent ≡ new_entry dot_name 0x10 c ++ new_entry dot_dot_name 0x10 parent
unfolding splice
two_entries c parent =
    ap (λ (e : List ℕ). e ++ entry_with dot_dot_name parent (parent % 2 ^ 16))
      (entry_with-new_entry dot_name c)
    ∙ ap (λ (e : List ℕ). new_entry dot_name 0x10 c ++ e) (entry_with-new_entry dot_dot_name parent)

-- Writes, one after the other.
apply_writes : List ℕ → List (ℕ × List ℕ) → List ℕ
apply_writes bytes [] = bytes
apply_writes bytes (w ∷ writes) = apply_writes (splice bytes w.0 w.1) writes

-- Those of `init_directory_cluster`.
abbrev writes : ℕ → ℕ → List (ℕ × List ℕ)
writes c parent =
    (0, dot_name)
    ∷ (11, 0x10 ∷ [])
    ∷ (20, to_le_bytes 2 (c / 2 ^ 16 % 2 ^ 16))
    ∷ (26, to_le_bytes 2 (c % 2 ^ 16))
    ∷ (32, dot_dot_name)
    ∷ (43, 0x10 ∷ [])
    ∷ (52, to_le_bytes 2 (parent / 2 ^ 16 % 2 ^ 16))
    ∷ (58, to_le_bytes 2 (parent % 2 ^ 16))
    ∷ []

apply_writes_front :
    (first rest : List ℕ) (size : ℕ) (writes : List (ℕ × List ℕ))
    → length first ≡ size
    → All (λ (w : ℕ × List ℕ). w.0 + length w.1 ≤ size) writes
    → apply_writes (first ++ rest) writes ≡ apply_writes first writes ++ rest
unfolding apply_writes
apply_writes_front first rest size [] e fits = refl
apply_writes_front first rest size (w ∷ writes) e fits =
    let inside : w.0 + length w.1 ≤ length first = omega (arith, fits.0, e) in
    ap (λ (l : List ℕ). apply_writes l writes) (splice_front first rest w.1 w.0 inside)
    ∙ apply_writes_front (splice first w.0 w.1) rest size writes
        (length-splice first w.0 w.1 inside ∙ e) fits.1

replicate-append : (a b : ℕ) → replicate {A = ℕ} (a + b) 0 ≡ replicate a 0 ++ replicate b 0
replicate-append zero b =
    let e : zero + b ≡ b = omega arith in ap (λ (n : ℕ). replicate {A = ℕ} n 0) e
replicate-append (suc a) b =
    let e : suc a + b ≡ suc (a + b) = omega arith in
    ap (λ (n : ℕ). replicate {A = ℕ} n 0) e ∙ ap (λ (l : List ℕ). 0 ∷ l) (replicate-append a b)

-- The first 64 bytes are the two entries, and the others are zeros.
directory_front :
    (size c parent : ℕ)
    → 64 ≤ size
    → directory_bytes size c parent
      ≡ new_entry dot_name 0x10 c ++ new_entry dot_dot_name 0x10 parent ++ replicate (size - 64) 0
unfolding apply_writes
directory_front size c parent large =
    let split : size ≡ 64 + (size - 64) = omega arith in
    let zeros : List ℕ = replicate (size - 64) 0 in
    ap (λ (n : ℕ). directory_bytes n c parent) split
    ∙ ap (λ (l : List ℕ). apply_writes l (writes c parent)) (replicate-append 64 (size - 64))
    ∙ apply_writes_front (replicate 64 0) zeros 64 (writes c parent) refl (
      omega arith,
      (
        omega arith,
        (
          omega arith,
          (omega arith, (omega arith, (omega arith, (omega arith, (omega arith, tt))))),
        ),
      ),
    )
    ∙ ap (λ (l : List ℕ). l ++ zeros) (two_entries c parent)

-- Chunks of zeros list nothing.
entries_of-zeros :
    (k n : ℕ) (state : LfnState) → entries_of (chunks 32 k (replicate {A = ℕ} n 0)) state ≡ []
unfolding entries_of kind_of
entries_of-zeros zero n state = refl
entries_of-zeros (suc k) zero state = refl
entries_of-zeros (suc k) (suc n) state = refl

directory_chunks :
    (size c parent : ℕ)
    → 64 ≤ size
    → chunks_exact 32 (directory_bytes size c parent)
      ≡ new_entry dot_name 0x10 c
        ∷ new_entry dot_dot_name 0x10 parent
        ∷ chunks 32 ((size - 64) / 32) (replicate (size - 64) 0)
unfolding new_entry splice
directory_chunks size c parent large =
    let zeros : List ℕ = replicate (size - 64) 0 in
    let count : (64 + length zeros) / 32 ≡ suc (suc ((size - 64) / 32)) =
      omega (arith, length-replicate {A = ℕ} (size - 64) 0) in
    let bytes = new_entry dot_name 0x10 c ++ new_entry dot_dot_name 0x10 parent ++ zeros in
    let long : length bytes ≡ 64 + length zeros = omega arith in
    ap (chunks_exact 32) (directory_front size c parent large)
    ∙ ap (λ (n : ℕ). chunks 32 (n / 32) bytes) long
    ∙ ap (λ (n : ℕ). chunks 32 n bytes) count

dot_name-IsShortName : IsShortName dot_name
dot_name-IsShortName = record {
  eleven = refl;
  bytes = (omega arith, All-replicate IsByte 10 b' ' (omega arith));
  not_end = omega arith;
  not_deleted = omega arith;
}

dot_dot_name-IsShortName : IsShortName dot_dot_name
dot_dot_name-IsShortName = record {
  eleven = refl;
  bytes = (omega arith, (omega arith, All-replicate IsByte 9 b' ' (omega arith)));
  not_end = omega arith;
  not_deleted = omega arith;
}

dot_text : short_name_to_string dot_name ≡ dot
unfolding short_name_to_string from_utf8 window
dot_text = refl

dot_dot_text : short_name_to_string dot_dot_name ≡ dot_dot
unfolding short_name_to_string from_utf8 window
dot_dot_text = refl

abbrev info : List ℕ → ℕ → FileInfo
info name c = file_info (short_name_to_string name) true 0 c

listed :
    (name : List ℕ)
    → IsShortName name
    → (c : ℕ) → c < 2 ^ 32
    → (rest : List (List ℕ))
    → entries_of (new_entry name 0x10 c ∷ rest) no_lfn ≡ info name c ∷ entries_of rest no_lfn
listed name s c small rest =
    entries_of-new (new_entry name 0x10 c) (info name c)
      (entry-short name s 0x10 c small (omega arith)) rest no_lfn
      (entry-shown name s 0x10 c small no_lfn refl refl)

-- On a volume, a cluster inside the image whose bytes are those of a new directory lists `.` with
-- its own cluster and `..` with the parent's, and nothing else.
pub fresh-listing :
    {fs : Fat32FileSystem}
    → IsVolume fs
    → (c parent : ℕ) → InData fs c
    → 64 ≤ cluster_size fs
    → c < 2 ^ 32
    → parent < 2 ^ 32
    → cluster_bytes fs c ≡ directory_bytes (cluster_size fs) c parent
    → list_directory_entries fs c
      ≡ done (file_info dot true 0 c ∷ file_info dot_dot true 0 parent ∷ [])
fresh-listing {fs} v c parent inside large small small' bytes =
    let e1 = new_entry dot_name 0x10 c in
    let e2 = new_entry dot_dot_name 0x10 parent in
    let rest =
      chunks 32 ((cluster_size fs - 64) / 32) (replicate {A = ℕ} (cluster_size fs - 64) 0) in
    list_directory_entries-entries_of v c inside
    ∙ ap (λ (b : List ℕ). done (entries_of (chunks_exact 32 b) no_lfn)) bytes
    ∙ ap (λ (cs : List (List ℕ)). done (entries_of cs no_lfn))
        (directory_chunks (cluster_size fs) c parent large)
    ∙ ap done (
        listed dot_name dot_name-IsShortName c small (e2 ∷ rest)
        ∙ ap (λ (l : List FileInfo). info dot_name c ∷ l)
            (listed dot_dot_name dot_dot_name-IsShortName parent small' rest)
        ∙ ap (λ (l : List FileInfo). info dot_name c ∷ info dot_dot_name parent ∷ l)
            (entries_of-zeros ((cluster_size fs - 64) / 32) (cluster_size fs - 64) no_lfn)
        ∙ ap (λ (n : List ℕ). file_info n true 0 c ∷ info dot_dot_name parent ∷ []) dot_text
        ∙ ap (λ (n : List ℕ). file_info dot true 0 c ∷ file_info n true 0 parent ∷ []) dot_dot_text)
