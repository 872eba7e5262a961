-- ===== src/FileSystem/Directories/Insertion.antt =====
-- What a directory lists once an entry is put into its first free slot.
use mathlib.Core.List.{append_assoc}
use fat32_reimplementation.Base.{
  ℕ, zero, suc, ◌+◌, ◌≤◌, ◌<◌, ◌≡◌, refl, ap, sym, ◌∙◌, List, [], ◌∷◌, ◌++◌, get_or, length, ◌==◌,
  ◌||◌, Bool-cases, if◌then◌else◌, Bool, true, false, inl, inr, some, arith,
}
use fat32_reimplementation.Base.Chunks.{set}
use fat32_reimplementation.FileSystem.Entry.{FileInfo}
use fat32_reimplementation.FileSystem.LongNames.{LfnState, no_lfn}
use fat32_reimplementation.FileSystem.Listing.{push_some}
use fat32_reimplementation.FileSystem.Listing.Contents.{
  end, long, short, kind_of, next_lfn, shown, entries_of,
}
use fat32_reimplementation.FileSystem.Directories.{free_slot}

-- The slot is free: its entry is deleted, or ends the directory.
abbrev pub is_free : List ℕ → Bool
is_free chunk = get_or chunk 0 0 == 0x00 || get_or chunk 0 0 == 0xE5

-- The fragments after an entry that is in use.
unfoldable pub lfn_after : List ℕ → LfnState → LfnState
lfn_after chunk state = elim (kind_of chunk) [ long ↦ next_lfn chunk state | _ ↦ no_lfn ]

-- The fragments in front of the first free slot.
unfoldable pub lfn_at_slot : List (List ℕ) → LfnState → LfnState
lfn_at_slot [] state = state
lfn_at_slot (chunk ∷ chunks) state =
    let rest = lfn_at_slot chunks (lfn_after chunk state) in if is_free chunk then state else rest

-- Behind an end mark there is nothing that would be listed.
abbrev pub IsTerminated : List (List ℕ) → Type 0
IsTerminated [] = Unit {0}
IsTerminated (chunk ∷ chunks) =
    (kind_of chunk ≡ end → entries_of chunks no_lfn ≡ []) × IsTerminated chunks

-- What an entry in use lists by itself.
abbrev head_of : List ℕ → LfnState → List FileInfo
head_of chunk state = elim (kind_of chunk) [ short ↦ push_some [] (shown chunk state) | _ ↦ [] ]

entries_of-used :
    (chunk : List ℕ) (chunks : List (List ℕ)) (state : LfnState)
    → is_free chunk ≡ false
    → entries_of (chunk ∷ chunks) state
      ≡ head_of chunk state ++ entries_of chunks (lfn_after chunk state)
unfolding entries_of lfn_after kind_of
entries_of-used chunk chunks state h = ground arith

entries_of-free :
    (chunk : List ℕ) (chunks : List (List ℕ)) (state : LfnState)
    → is_free chunk ≡ true
    → (kind_of chunk ≡ end → entries_of chunks no_lfn ≡ [])
    → entries_of (chunk ∷ chunks) state ≡ entries_of chunks no_lfn
unfolding entries_of kind_of
entries_of-free chunk chunks state h t = ground arith

free_slot-found :
    (chunk : List ℕ) (chunks : List (List ℕ)) (k : ℕ)
    → is_free chunk ≡ true
    → free_slot (chunk ∷ chunks) k ≡ some k
unfolding free_slot
free_slot-found chunk chunks k h = rw h

free_slot-next :
    (chunk : List ℕ) (chunks : List (List ℕ)) (k : ℕ)
    → is_free chunk ≡ false
    → free_slot (chunk ∷ chunks) k ≡ free_slot chunks (k + 1)
unfolding free_slot
free_slot-next chunk chunks k h = rw h

pub free_slot-bounds :
    (chunks : List (List ℕ)) (k j : ℕ)
    → free_slot chunks k ≡ some j
    → (k ≤ j) × (j < k + length chunks)
free_slot-bounds [] k j e = unfold free_slot in absurd (cc)
free_slot-bounds (chunk ∷ chunks) k j e = elim (Bool-cases (is_free chunk)) [
  | inl free ↦ ground (arith, free_slot-found chunk chunks k free)
  | inr used ↦
      let next = sym (free_slot-next chunk chunks k used) ∙ e in
      omega (arith, free_slot-bounds chunks (k + 1) j next)
]

lfn_at_slot-free :
    (chunk : List ℕ) (chunks : List (List ℕ)) (state : LfnState)
    → is_free chunk ≡ true
    → lfn_at_slot (chunk ∷ chunks) state ≡ state
unfolding lfn_at_slot
lfn_at_slot-free chunk chunks state h = rw h

lfn_at_slot-used :
    (chunk : List ℕ) (chunks : List (List ℕ)) (state : LfnState)
    → is_free chunk ≡ false
    → lfn_at_slot (chunk ∷ chunks) state ≡ lfn_at_slot chunks (lfn_after chunk state)
unfolding lfn_at_slot
lfn_at_slot-used chunk chunks state h = rw h

module _ (y : List ℕ) (info : FileInfo) (is_short : kind_of y ≡ short) where
  pub entries_of-new :
      (chunks : List (List ℕ)) (state : LfnState)
      → shown y state ≡ some info
      → entries_of (y ∷ chunks) state ≡ info ∷ entries_of chunks no_lfn
  unfolding entries_of
  entries_of-new chunks state s = rw (is_short, entries_of) (rw s refl)

  -- The two listings, with `y` put into the first free slot and without.
  abbrev Inserted : List (List ℕ) → List (List ℕ) → LfnState → Type 0
  Inserted old new state =
      (before : List FileInfo) × (after : List FileInfo) × (entries_of old state ≡ before ++ after)
      × (entries_of new state ≡ before ++ info ∷ after)

  insert_free :
      (chunk : List ℕ) (chunks : List (List ℕ)) (state : LfnState)
      → is_free chunk ≡ true
      → shown y state ≡ some info
      → IsTerminated (chunk ∷ chunks)
      → Inserted (chunk ∷ chunks) (y ∷ chunks) state
  insert_free chunk chunks state free s t = (
    [],
    entries_of chunks no_lfn,
    entries_of-free chunk chunks state free t.0,
    entries_of-new chunks state s,
  )

  insert_behind :
      (chunk : List ℕ) (old new : List (List ℕ)) (state : LfnState)
      → is_free chunk ≡ false
      → Inserted old new (lfn_after chunk state)
      → Inserted (chunk ∷ old) (chunk ∷ new) state
  insert_behind chunk old new state used (before, after, e, f) = (
    head_of chunk state ++ before,
    after,
    entries_of-used chunk old state used
        ∙ ap (λ (r : List FileInfo). head_of chunk state ++ r) e
        ∙ sym (append_assoc (head_of chunk state) before after),
    entries_of-used chunk new state used
        ∙ ap (λ (r : List FileInfo). head_of chunk state ++ r) f
        ∙ sym (append_assoc (head_of chunk state) before (info ∷ after)),
  )

  pub insert_entry :
      (chunks : List (List ℕ)) (state : LfnState) (k i : ℕ)
      → free_slot chunks k ≡ some (k + i)
      → shown y (lfn_at_slot chunks state) ≡ some info
      → IsTerminated chunks
      → Inserted chunks (set chunks i y) state
  insert_entry [] state k i e s t = absurd (omega (arith, free_slot-bounds [] k (k + i) e))
  insert_entry (chunk ∷ chunks) state k zero e s t = elim (Bool-cases (is_free chunk)) [
    | inl free ↦
        let s' = ap (shown y) (sym (lfn_at_slot-free chunk chunks state free)) ∙ s in
        insert_free chunk chunks state free s' t
    | inr used ↦
        let e' = sym (free_slot-next chunk chunks k used) ∙ e in
        absurd (omega (arith, free_slot-bounds chunks (k + 1) (k + 0) e'))
  ]
  insert_entry (chunk ∷ chunks) state k (suc i) e s t = elim (Bool-cases (is_free chunk)) [
    | inl free ↦ absurd (ground (arith, free_slot-found chunk chunks k free))
    | inr used ↦
        let e' = sym (free_slot-next chunk chunks k used) ∙ e ∙ ap some (omega arith) in
        let s' = ap (shown y) (sym (lfn_at_slot-used chunk chunks state used)) ∙ s in
        insert_behind chunk chunks (set chunks i y) state used
          (insert_entry chunks (lfn_after chunk state) (k + 1) i e' s' t.1)
  ]
