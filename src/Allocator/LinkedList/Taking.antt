-- ===== src/Allocator/LinkedList/Taking.antt =====
-- `alloc` of the linked list allocator and the free regions: what it takes out and what it leaves.
use native.Mathlib.Nat.{mod-lt}
use mathlib.Core.Path.{subst}
use fat32_reimplementation.Base.{
  ℕ, ◌+◌, ◌-◌, ◌%◌, ◌≤◌, ◌<◌, ◌≡◌, ◌⊎◌, inl, inr, ap, sym, ◌∙◌, max, ltb, Bool-cases, true, false,
  ◌>>=◌, List, [], ◌∷◌, ◌++◌, All, Option, none, some, Run, done, arith, >>=-eq-done,
}
use fat32_reimplementation.Allocator.{Layout, add_usize}
use fat32_reimplementation.Allocator.Blocks.{Block, block, Apart, AllApart, AllApart-remove}
use fat32_reimplementation.Allocator.LinkedList.{
  Region, LinkedListAllocator, end_addr, node_align, find_region, size_align, add_free_region,
  alloc,
}
use fat32_reimplementation.Allocator.LinkedList.Regions.{
  blocks, blocks-append, Fits, Found, find_some, found,
}

size_align-le :
    (layout : Layout) (size align : ℕ)
    → size_align layout ≡ done (size, align)
    → (layout.size ≤ size) × (align ≡ max layout.align node_align)
unfolding size_align
size_align-le layout size align e =
    let bound : layout.size % max layout.align node_align < max layout.align node_align =
      mod-lt layout.size (omega arith) in
    ground arith

-- What is left of a region behind an allocation.
Left : Region → ℕ → List Region → List Region → Type 0
Left region stop rest regions =
    (regions ≡ rest)
    ⊎ (regions ≡ record { start_addr = stop; size = end_addr region - stop } ∷ rest)

added :
    (allocator left : LinkedListAllocator) (addr size : ℕ)
    → add_free_region allocator addr size ≡ done left
    → record { regions = record { start_addr = addr; size = size } ∷ allocator.regions } ≡ left
unfolding add_free_region
added allocator left addr size e = ground arith

-- The end of `alloc`: the rest of the region becomes free.
split_region : Region → ℕ → ℕ → List Region → Run (Option ℕ × LinkedListAllocator)
unfolding add_free_region
split_region region stop p rest = elim (ltb 0 (end_addr region - stop)) [
  | true ↦ do
    left ← add_free_region (record { regions = rest }) stop (end_addr region - stop)
    done (some p, left)
  | false ↦ done (some p, record { regions = rest })
]

abbrev allocated : ℕ → LinkedListAllocator → Run (Option ℕ × LinkedListAllocator)
allocated p allocator = done (some p, allocator)

split_region-Left :
    (region : Region) (stop p q : ℕ) (rest : List Region) (allocator' : LinkedListAllocator)
    → split_region region stop q rest ≡ allocated p allocator'
    → (q ≡ p) × Left region stop rest allocator'.regions
unfolding split_region Left
split_region-Left region stop p q rest allocator' e =
    elim (Bool-cases (ltb 0 (end_addr region - stop))) [
      | inl all ↦
          let with_rest = rw (split_region, all) at e in
          let (left, e_left, same) =
            >>=-eq-done (add_free_region (record { regions = rest }) stop _) _ with_rest in
          let same_start : q ≡ p = cc in
          let same_left : left ≡ allocator' = cc in
          let grown = added (record { regions = rest }) left stop _ e_left in
          (
            same_start,
            inr (
                ap (λ (a : LinkedListAllocator). a.regions) (sym same_left)
                ∙ ap (λ (a : LinkedListAllocator). a.regions) (sym grown)),
          )
      | inr none_left ↦
          let without = rw (split_region, none_left) at e in
          let same_start : q ≡ p = cc in
          let same_left : record { regions = rest } ≡ allocator' = cc in
          (same_start, inl (ap (λ (a : LinkedListAllocator). a.regions) (sym same_left)))
    ]

alloc_found_rest : ℕ → Option (Region × ℕ) → List Region → Run (Option ℕ × LinkedListAllocator)
unfolding split_region
alloc_found_rest size got rest = elim got [
  | none ↦ done (none, record { regions = rest })
  | some (region, q) ↦ do stop ← add_usize q size; split_region region stop q rest
]

-- What an `alloc` that hands out a block did.
record Taking (allocator : LinkedListAllocator) (layout : Layout) (p : ℕ)
    (allocator' : LinkedListAllocator) : Type 0 where
  region : Region
  rest : List Region
  size : ℕ
  large : layout.size ≤ size
  found : Found allocator.regions rest region
  fits : Fits region size (max layout.align node_align) p
  left : Left region (p + size) rest allocator'.regions

alloc_found :
    (regions : List Region) (size align : ℕ) (got : Option (Region × ℕ)) (rest : List Region)
    (p : ℕ) (allocator' : LinkedListAllocator)
    → 0 < align
    → find_region regions size align ≡ done (got, rest)
    → alloc_found_rest size got rest ≡ allocated p allocator'
    → (region : Region) × Found regions rest region
      × Fits region size align p
      × Left region (p + size) rest allocator'.regions
unfolding alloc_found_rest
alloc_found regions size align none rest p allocator' pos e_found e = absurd (ground arith)
alloc_found regions size align (some (region, q)) rest p allocator' pos e_found e =
    let (stop, e_stop, more) = >>=-eq-done (add_usize q size) _ e in
    let same_stop : stop ≡ q + size = ground arith in
    let (same, left) = split_region-Left region stop p q rest allocator' more in
    let (found, fits) = find_some regions rest region size align q pos e_found in
    (region, found, rw (← same) fits, rw (← same, ← same_stop) left)

alloc-some :
    (allocator allocator' : LinkedListAllocator) (layout : Layout) (p : ℕ)
    → alloc allocator layout ≡ allocated p allocator'
    → Taking allocator layout p allocator'
unfolding alloc alloc_found_rest split_region
alloc-some allocator allocator' layout p e =
    let ((size, align), e_size, after_size) = >>=-eq-done (size_align layout) _ e in
    let ((got, rest), e_found, after_found) =
      >>=-eq-done (find_region allocator.regions size align) _ after_size in
    let (large, same_align) = size_align-le layout size align e_size in
    let (region, found, fits, left) =
      alloc_found allocator.regions size align got rest p allocator' (omega arith) e_found
        after_found in
    record {
      region = region;
      rest = rest;
      size = size;
      large = large;
      found = found;
      fits = (subst (λ (a : ℕ). p % a ≡ 0) same_align fits.0, fits.1, fits.2);
      left = left;
    }

-- A block inside another: what is apart from the outer one is apart from the inner one.
Apart-inner :
    (outer inner : Block) (bs : List Block)
    → outer.start ≤ inner.start
    → inner.start + inner.size ≤ outer.start + outer.size
    → All (Apart outer) bs
    → All (Apart inner) bs
Apart-inner outer inner [] lo hi h = tt
Apart-inner outer inner (b ∷ bs) lo hi h = (
  elim h.0 [ inl before ↦ inl (omega arith) | inr after ↦ inr (omega arith) ],
  Apart-inner outer inner bs lo hi h.1,
)

All-middle :
    (P : Block → Type 0) (before : List Block) (b : Block) (after : List Block)
    → All P (before ++ b ∷ after)
    → P b
All-middle P [] b after h = h.0
All-middle P (a ∷ before) b after h = All-middle P before b after h.1

Apart-middle :
    (before : List Block) (b : Block) (after : List Block)
    → AllApart (before ++ b ∷ after)
    → All (Apart b) (before ++ after)
Apart-middle [] b after h = h.0
Apart-middle (a ∷ before) b after h =
    let swap : Apart b a = elim (All-middle (Apart a) before b after h.0) [
      | inl l ↦ inr l
      | inr r ↦ inl r
    ] in
    (swap, Apart-middle before b after h.1)

-- The region taken out is apart from the regions left, which are apart from one another.
Found-Apart :
    {regions rest : List Region} {region : Region}
    → Found regions rest region
    → AllApart (blocks regions)
    → All (Apart (block region.start_addr region.size)) (blocks rest) × AllApart (blocks rest)
Found-Apart {regions} {rest} {region} found h =
    let b = block region.start_addr region.size in
    let whole : AllApart (blocks found.before ++ b ∷ blocks found.after) =
      subst AllApart (ap blocks found.whole ∙ blocks-append found.before (region ∷ found.after))
        h in
    let same : blocks found.before ++ blocks found.after ≡ blocks rest =
      sym (ap blocks found.left ∙ blocks-append found.before found.after) in
    (
      subst (All (Apart b)) same (Apart-middle (blocks found.before) b (blocks found.after) whole),
      subst AllApart same (AllApart-remove (blocks found.before) b (blocks found.after) whole),
    )

-- When the free regions share no byte and `alloc` hands out `p`, `p` is a multiple of the layout's
-- alignment (8 at least), and the block of the layout's size at `p` and the regions that are then
-- free share no byte.
pub alloc-AllApart :
    (allocator allocator' : LinkedListAllocator) (layout : Layout) (p : ℕ)
    → AllApart (blocks allocator.regions)
    → alloc allocator layout ≡ done (some p, allocator')
    → (p % max layout.align node_align ≡ 0)
      × AllApart (block p layout.size ∷ blocks allocator'.regions)
unfolding Left
alloc-AllApart allocator allocator' layout p h e =
    let taking = alloc-some allocator allocator' layout p e in
    let (clear, apart) = Found-Apart taking.found h in
    let whole = block taking.region.start_addr taking.region.size in
    let inner =
      Apart-inner whole (block p layout.size) (blocks taking.rest) (omega (arith, taking.fits.1))
        (omega (arith, taking.large, taking.fits.2)) clear in
    (
      taking.fits.0,
      elim taking.left [
        | inl same ↦
            subst (λ (rs : List Region). AllApart (block p layout.size ∷ blocks rs)) (sym same)
              (inner, apart)
        | inr split ↦
            let stop = p + taking.size in
            let free = block stop (end_addr taking.region - stop) in
            let free_apart =
              Apart-inner whole free (blocks taking.rest) (omega (arith, taking.fits.1))
                (omega (arith, taking.fits.2)) clear in
            subst (λ (rs : List Region). AllApart (block p layout.size ∷ blocks rs)) (sym split)
              ((inl (omega (arith, taking.large)), inner), (free_apart, apart))
      ],
    )
