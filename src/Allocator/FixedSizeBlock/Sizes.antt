-- ===== src/Allocator/FixedSizeBlock/Sizes.antt =====
-- Which list a request goes to.
use native.Mathlib.Decide.{dec_lt}
use fat32_reimplementation.Base.{
  ℕ, suc, ◌+◌, ◌≤◌, ◌<◌, ◌≡◌, ◌⊎◌, inl, inr, refl, sym, ap, All-get_elem?, ◌∙◌, max, List, [], ◌∷◌,
  All, take, get_elem?, none, some, le→leb, lt→leb, arith,
}
use fat32_reimplementation.Allocator.{Layout}
use fat32_reimplementation.Allocator.FixedSizeBlock.{block_sizes, position, list_index}

-- The first size of a list that is large enough: `position` is its place.
position_cases :
    (sizes : List ℕ) (required index : ℕ)
    → ((position sizes required index ≡ none) × All (λ s. s < required) sizes)
      ⊎ ((i s : ℕ) × (position sizes required index ≡ some (index + i))
          × (get_elem? sizes i ≡ some s)
          × (required ≤ s)
          × All (λ t. t < required) (take i sizes))
unfolding position
position_cases [] required index = inl (refl, tt)
position_cases (s ∷ sizes) required index = elim (dec_lt s required) [
  | no p ↦
      let shown : position (s ∷ sizes) required index ≡ some (index + 0) =
        ground (arith, le→leb required s) in
      inr (0, s, shown, refl, omega arith, tt)
  | yes p ↦
      let skipped : position (s ∷ sizes) required index ≡ position sizes required (index + 1) =
        ground (arith, lt→leb required s) in
      elim (position_cases sizes required (index + 1)) [
        | inl (e, small) ↦ inl (skipped ∙ e, (p, small))
        | inr (i, t, e, at, le, small) ↦
            inr (suc i, t, skipped ∙ e ∙ ap some (omega arith), at, le, (p, small))
      ]
]

-- For every layout: either its size or its alignment is more than 2048 bytes and it has no list, or
-- its list is the one of the smallest block size that is at least its size and its alignment.
pub list_index-least :
    (layout : Layout)
    → ((list_index layout ≡ none) × (2048 < max layout.size layout.align))
      ⊎ ((i s : ℕ) × (list_index layout ≡ some i)
          × (get_elem? block_sizes i ≡ some s)
          × (layout.size ≤ s)
          × (layout.align ≤ s)
          × All (λ t. t < max layout.size layout.align) (take i block_sizes))
unfolding list_index
list_index-least layout = elim (position_cases block_sizes (max layout.size layout.align) 0) [
  | inl (e, small) ↦ inl (e, small.1.1.1.1.1.1.1.1.0)
  | inr (i, s, e, at, le, small) ↦
      inr (i, s, e ∙ ap some (omega arith), at, omega (arith, le), omega (arith, le), small)
]

-- The list of a request has a block size, and a free block holds a node.
pub list_index-known :
    (layout : Layout) (index : ℕ)
    → list_index layout ≡ some index
    → (s : ℕ) × (get_elem? block_sizes index ≡ some s) × (8 ≤ s)
list_index-known layout index e = elim (list_index-least layout) [
  | inl (e', _) ↦ absurd (ground (arith, e, e'))
  | inr (i, s, e', at, _, _, _) ↦
      let same : i ≡ index = ground (arith, e, e') in
      (
        s,
        ap (λ (k : ℕ). get_elem? block_sizes k) (sym same) ∙ at,
        All-get_elem? (λ t. 8 ≤ t) block_sizes i s
            (
              omega arith,
              (
                omega arith,
                (
                  omega arith,
                  (
                    omega arith,
                    (omega arith, (omega arith, (omega arith, (omega arith, (omega arith, tt))))),
                  ),
                ),
              ),
            )
            at,
      )
]
