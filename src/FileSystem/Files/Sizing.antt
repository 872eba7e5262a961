-- ===== src/FileSystem/Files/Sizing.antt =====
-- The entry of a new file, once the size of its contents is written into it.
use fat32_reimplementation.Base.{
  ℕ, zero, suc, ◌+◌, ◌^◌, ◌<◌, ◌≡◌, ap, sym, ◌∙◌, List, [], ◌∷◌, length, get_or, false, some, none,
  arith, bytes_eq, bytes_eq_refl, Bool-cases, Bool, inl, inr, if◌then◌else◌,
}
use fat32_reimplementation.Base.Chunks.{set}
use fat32_reimplementation.Base.Windows.{window}
use fat32_reimplementation.FileSystem.Names.{short_name_to_string}
use fat32_reimplementation.FileSystem.Entry.{FatDir, file_info, first_cluster}
use fat32_reimplementation.FileSystem.LongNames.{LfnState}
use fat32_reimplementation.FileSystem.Listing.Contents.{short, kind_of, shown, shown_dir}
use fat32_reimplementation.FileSystem.Directories.{new_entry}
use fat32_reimplementation.FileSystem.Directories.Slots.{
  length-new_entry, dir_of-new_entry, first_cluster-new_entry, first_byte-new_entry,
}
use fat32_reimplementation.FileSystem.Directories.Creation.{IsShortName}
use fat32_reimplementation.FileSystem.Files.{named_slot}
use fat32_reimplementation.FileSystem.Files.Resizing.{resized, kind_of-resized, dir_of-resized}

-- The entry `new_entry` with another size.
abbrev pub sized_entry : List ℕ → ℕ → ℕ → List ℕ
sized_entry short_name n size = resized (new_entry short_name 0x20 n) size

module _ (short_name : List ℕ) (s : IsShortName short_name) (n size : ℕ) (small : n < 2 ^ 32)
    (word : size < 2 ^ 32) where
  abbrev entry : List ℕ
  entry = new_entry short_name 0x20 n

  whole : length entry ≡ 32
  whole = length-new_entry short_name 0x20 n s.eleven

  attr_byte : get_or entry 11 0 ≡ 0x20
  attr_byte = ap (λ (d : FatDir). d.attr) (dir_of-new_entry short_name 0x20 n s.eleven)

  pub sized_entry-short : kind_of (sized_entry short_name n size) ≡ short
  unfolding kind_of
  sized_entry-short =
      kind_of-resized entry whole size word
      ∙ ground (
        arith,
        attr_byte,
        first_byte-new_entry short_name 0x20 n s.eleven,
        s.not_end,
        s.not_deleted,
      )

  pub sized_entry-shown :
      (state : LfnState)
      → state.fragments ≡ []
      → shown (sized_entry short_name n size) state
        ≡ some (file_info (short_name_to_string short_name) false size n)
  unfolding shown first_cluster
  sized_entry-shown state e =
      ap (λ (d : FatDir). shown_dir d state)
        (dir_of-resized entry whole size word
          ∙ ap (λ (d : FatDir). record d { size = size })
              (dir_of-new_entry short_name 0x20 n s.eleven))
      ∙ rw e (
          ap (λ (c : ℕ). some (file_info (short_name_to_string short_name) false size c))
            (sym (ap first_cluster (dir_of-new_entry short_name 0x20 n s.eleven))
              ∙ first_cluster-new_entry short_name 0x20 n s.eleven small))

-- The first chunk that begins with a name, once such a chunk is put in.
pub named_slot-set :
    (name y : List ℕ) (cs : List (List ℕ)) (i k : ℕ)
    → window y 0 11 ≡ name
    → i < length cs
    → named_slot name cs k ≡ none
    → named_slot name (set cs i y) k ≡ some (k + i)
unfolding named_slot
named_slot-set name y [] i k same lt e = absurd (omega arith)
named_slot-set name y (c ∷ cs) zero k same lt e =
    ap (λ (b : Bool). if b then some k else named_slot name cs (k + 1))
      (ap (λ (w : List ℕ). bytes_eq w name) same ∙ bytes_eq_refl name)
    ∙ ap some (omega arith)
named_slot-set name y (c ∷ cs) (suc i) k same lt e =
    elim (Bool-cases (bytes_eq (window c 0 11) name)) [
      | inl found ↦ absurd (ground (arith, found))
      | inr other ↦
          let rest : named_slot name cs (k + 1) ≡ none = ground (arith, other) in
          let next : k + 1 + i ≡ k + suc i = omega arith in
          ap (λ (b : Bool). if b then some k else named_slot name (set cs i y) (k + 1)) other
          ∙ named_slot-set name y cs i (k + 1) same (omega arith) rest
          ∙ ap some next
    ]
