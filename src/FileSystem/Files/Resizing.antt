-- ===== src/FileSystem/Files/Resizing.antt =====
-- What a directory lists once a size is written into one of its entries.
use mathlib.Core.List.{append_assoc}
use mathlib.Core.Option
use fat32_reimplementation.Base.{
  ℕ, zero, suc, ◌+◌, ◌^◌, ◌≤◌, ◌<◌, ◌≡◌, ◌≢◌, refl, ap, sym, ◌∙◌, List, [], ◌∷◌, ◌++◌, length, take,
  get_or, ◌*◌, ◌/◌, ◌-◌, chunks, chunks_exact, get_elem?_ext, get_elem?, Option, Bool-cases, ◌==◌,
  bit_and, some, none, arith, inl, inr,
}
use fat32_reimplementation.Base.Chunks.{set, chunks-splice}
use fat32_reimplementation.Base.Windows.{
  window, splice, window-splice_self, window-splice_apart, get_or-window, length-splice,
  length-window, get_elem?-splice, get_elem?-window,
}
use fat32_reimplementation.Base.Words.{to_le_bytes, from-to_le_bytes_four}
use fat32_reimplementation.FileSystem.Entry.{FatDir, FileInfo, first_cluster}
use fat32_reimplementation.FileSystem.Entry.Fields.{dir_of}
use fat32_reimplementation.FileSystem.LongNames.{LfnState, no_lfn}
use fat32_reimplementation.FileSystem.Listing.{push_some}
use fat32_reimplementation.FileSystem.Listing.Contents.{
  Kind, end, deleted, long, short, kind_of, shown, shown_dir, entries_of,
}
use fat32_reimplementation.FileSystem.Directories.Insertion.{lfn_after, entries_of-new}

-- The file or directory that entry `i` is listed as.
unfoldable pub entry_at : List (List ℕ) → LfnState → ℕ → Option FileInfo
entry_at [] state i = none
entry_at (chunk ∷ chunks) state zero = elim (kind_of chunk) [ short ↦ shown chunk state | _ ↦ none ]
entry_at (chunk ∷ chunks) state (suc i) =
    let rest = entry_at chunks (lfn_after chunk state) i in
    elim (kind_of chunk) [ end ↦ none | _ ↦ rest ]

-- An entry of 32 bytes with another size.
abbrev pub resized : List ℕ → ℕ → List ℕ
resized chunk size = splice chunk 28 (to_le_bytes 4 size)

shown_dir-size :
    (d : FatDir) (size : ℕ) (state : LfnState) (file : FileInfo)
    → shown_dir d state ≡ some file
    → shown_dir (record d { size = size }) state ≡ some (record file { size = size })
unfolding shown_dir first_cluster
shown_dir-size d size state file e = elim (Bool-cases (bit_and d.attr 0x08 == 0)) [
  | inl plain ↦
      let e' = ap (Option.map (λ (f : FileInfo). record f { size = size })) e in ground (arith, e')
  | inr label ↦ absurd (ground (arith, e))
]

module _ (chunk : List ℕ) (whole : length chunk ≡ 32) (size : ℕ) (word : size < 2 ^ 32) where
  front : (a k : ℕ) → a + k ≤ 28 → window (resized chunk size) a k ≡ window chunk a k
  front a k h = window-splice_apart chunk 28 (to_le_bytes 4 size) a k (omega (arith, whole)) (inl h)

  front_byte : (a : ℕ) → a < 28 → get_or (resized chunk size) a 0 ≡ get_or chunk a 0
  front_byte a h =
      get_or-window (resized chunk size) a 1 0 a 0 (omega arith) (omega arith)
      ∙ ap (λ (w : List ℕ). get_or w 0 0) (front a 1 (omega arith))
      ∙ sym (get_or-window chunk a 1 0 a 0 (omega arith) (omega arith))

  pub dir_of-resized : dir_of (resized chunk size) ≡ record (dir_of chunk) { size = size }
  dir_of-resized =
      rw
        (
          front 0 11 (omega arith),
          front_byte 11 (omega arith),
          front 20 2 (omega arith),
          front 26 2 (omega arith),
          window-splice_self chunk 28 (to_le_bytes 4 size) (omega (arith, whole)),
          from-to_le_bytes_four size word,
        )
        refl

  pub kind_of-resized : kind_of (resized chunk size) ≡ kind_of chunk
  unfolding kind_of
  kind_of-resized = rw (front_byte 0 (omega arith), front_byte 11 (omega arith)) refl

  pub shown-resized :
      (state : LfnState) (file : FileInfo)
      → shown chunk state ≡ some file
      → shown (resized chunk size) state ≡ some (record file { size = size })
  unfolding shown
  shown-resized state file e =
      ap (λ (d : FatDir). shown_dir d state) dir_of-resized
      ∙ shown_dir-size (dir_of chunk) size state file e

-- A write inside one chunk.
pub splice_in_chunk :
    (w ys : List ℕ) (at off : ℕ)
    → at + 32 ≤ length w
    → off + length ys ≤ 32
    → splice w (at + off) ys ≡ splice w at (splice (window w at 32) off ys)
splice_in_chunk w ys at off room fits = get_elem?_ext _ _ λ i. ground (
  arith,
  get_elem?-splice w (at + off) ys i,
  get_elem?-splice w at (splice (window w at 32) off ys) i,
  length-splice (window w at 32) off ys,
  length-window w at 32 room,
  get_elem?-splice (window w at 32) off ys (i - at),
  get_elem?-window w at 32 (i - at),
)

-- A size that is written into entry `idx`.
module _ (w : List ℕ) (idx size : ℕ) (lt : idx < length w / 32) where
  abbrev pub chunk : List ℕ
  chunk = window w (idx * 32) 32

  room : idx * 32 + 32 ≤ length w
  room = omega (arith, lt)

  pub length-chunk : length chunk ≡ 32
  length-chunk = length-window w (idx * 32) 32 room

  length-resized : length (resized chunk size) ≡ 32
  length-resized =
      length-splice chunk 28 (to_le_bytes 4 size) (omega (arith, length-chunk)) ∙ length-chunk

  pub resized-chunks :
      chunks_exact 32 (splice w (idx * 32 + 28) (to_le_bytes 4 size))
      ≡ set (chunks_exact 32 w) idx (resized chunk size)
  resized-chunks =
      let y = resized chunk size in
      ap (chunks_exact 32) (splice_in_chunk w (to_le_bytes 4 size) (idx * 32) 28 room (omega arith))
      ∙ ap (λ (k : ℕ). chunks 32 (k / 32) (splice w (idx * 32) y))
          (length-splice w (idx * 32) y (omega (arith, room, length-resized)))
      ∙ chunks-splice 32 (length w / 32) w idx y lt (omega arith) length-resized

-- The two listings, with one file behind `before` put in the place of the other.
abbrev Replaced : FileInfo → FileInfo → List FileInfo → List FileInfo → List FileInfo → Type 0
Replaced old new before olds news =
    (after : List FileInfo) × (olds ≡ before ++ old ∷ after) × (news ≡ before ++ new ∷ after)

-- What an entry lists by itself.
abbrev head_of : List ℕ → LfnState → List FileInfo
head_of chunk state = elim (kind_of chunk) [ short ↦ push_some [] (shown chunk state) | _ ↦ [] ]

entries_of-next :
    (chunk : List ℕ) (chunks : List (List ℕ)) (state : LfnState) (k : Kind)
    → kind_of chunk ≡ k
    → k ≢ end
    → entries_of (chunk ∷ chunks) state
      ≡ head_of chunk state ++ entries_of chunks (lfn_after chunk state)
unfolding entries_of lfn_after
entries_of-next chunk chunks state end e ne = absurd (ne refl)
entries_of-next chunk chunks state deleted e ne = ground arith
entries_of-next chunk chunks state long e ne = ground arith
entries_of-next chunk chunks state short e ne = ground arith

replace_here :
    (old new : FileInfo) (chunk y : List ℕ) (chunks : List (List ℕ)) (state : LfnState) (k : Kind)
    → kind_of chunk ≡ k
    → kind_of y ≡ kind_of chunk
    → ((s : LfnState) → shown chunk s ≡ some old → shown y s ≡ some new)
    → entry_at (chunk ∷ chunks) state 0 ≡ some old
    → Replaced old new [] (entries_of (chunk ∷ chunks) state) (entries_of (y ∷ chunks) state)
unfolding entry_at
replace_here old new chunk y chunks state end e same shows found = absurd (ground arith)
replace_here old new chunk y chunks state deleted e same shows found = absurd (ground arith)
replace_here old new chunk y chunks state long e same shows found = absurd (ground arith)
replace_here old new chunk y chunks state short e same shows found =
    let listed : shown chunk state ≡ some old = ground arith in
    (
      entries_of chunks no_lfn,
      entries_of-new chunk old e chunks state listed,
      entries_of-new y new (same ∙ e) chunks state (shows state listed),
    )

replace_behind :
    (old new : FileInfo) (chunk : List ℕ) (front olds news : List (List ℕ)) (state : LfnState)
    → kind_of chunk ≢ end
    → Replaced old new
        (entries_of front (lfn_after chunk state))
        (entries_of olds (lfn_after chunk state))
        (entries_of news (lfn_after chunk state))
    → Replaced old new
        (entries_of (chunk ∷ front) state)
        (entries_of (chunk ∷ olds) state)
        (entries_of (chunk ∷ news) state)
replace_behind old new chunk front olds news state ne (after, e, f) =
    let before = entries_of front (lfn_after chunk state) in
    let split = entries_of-next chunk front state (kind_of chunk) refl ne in
    let extend : (file : FileInfo) (files : List (List ℕ))
        → entries_of files (lfn_after chunk state) ≡ before ++ file ∷ after
        → entries_of (chunk ∷ files) state ≡ entries_of (chunk ∷ front) state ++ file ∷ after =
      λ file files same.
        entries_of-next chunk files state (kind_of chunk) refl ne
        ∙ ap (λ (r : List FileInfo). head_of chunk state ++ r) same
        ∙ sym (append_assoc (head_of chunk state) before (file ∷ after))
        ∙ ap (λ (r : List FileInfo). r ++ file ∷ after) (sym split) in
    (after, extend old olds e, extend new news f)

entry_at-next :
    (chunk : List ℕ) (chunks : List (List ℕ)) (state : LfnState) (i : ℕ) (file : FileInfo)
    (k : Kind)
    → kind_of chunk ≡ k
    → entry_at (chunk ∷ chunks) state (suc i) ≡ some file
    → (kind_of chunk ≢ end) × (entry_at chunks (lfn_after chunk state) i ≡ some file)
unfolding entry_at
entry_at-next chunk chunks state i file end e found = absurd (ground arith)
entry_at-next chunk chunks state i file deleted e found = ground arith
entry_at-next chunk chunks state i file long e found = ground arith
entry_at-next chunk chunks state i file short e found = ground arith

-- One entry that is replaced by another of its kind.
pub replace_entry :
    (old new : FileInfo) (chunk y : List ℕ) (chunks : List (List ℕ)) (state : LfnState) (i : ℕ)
    → get_elem? chunks i ≡ some chunk
    → kind_of y ≡ kind_of chunk
    → ((s : LfnState) → shown chunk s ≡ some old → shown y s ≡ some new)
    → entry_at chunks state i ≡ some old
    → Replaced old new
        (entries_of (take i chunks) state)
        (entries_of chunks state)
        (entries_of (set chunks i y) state)
unfolding entries_of
replace_entry old new chunk y [] state i here same shows found = absurd (ground arith)
replace_entry old new chunk y (c ∷ chunks) state zero here same shows found =
    let eq : chunk ≡ c = ground arith in
    replace_here old new c y chunks state (kind_of c) refl (same ∙ ap kind_of eq)
      (λ s e. shows s (ap (λ (w : List ℕ). shown w s) eq ∙ e)) found
replace_entry old new chunk y (c ∷ chunks) state (suc i) here same shows found =
    let (ne, found') = entry_at-next c chunks state i old (kind_of c) refl found in
    replace_behind old new c (take i chunks) chunks (set chunks i y) state ne
      (replace_entry old new chunk y chunks (lfn_after c state) i here same shows found')
