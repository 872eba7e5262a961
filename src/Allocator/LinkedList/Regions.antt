-- ===== src/Allocator/LinkedList/Regions.antt =====
-- `find_region` of the linked list allocator: the region it takes out of the list and the place in it.
use fat32_reimplementation.Base.{
  ℕ, ◌+◌, ◌%◌, ◌≤◌, ◌<◌, ◌≡◌, inl, inr, refl, ap, ◌∙◌, List, [], ◌∷◌, ◌++◌, Option, Option-cases,
  some, Run, done, arith, >>=-eq-done,
}
use fat32_reimplementation.Allocator.{align_up}
use fat32_reimplementation.Allocator.Alignment.{IsAligned-align_up}
use fat32_reimplementation.Allocator.Blocks.{Block, block}
use fat32_reimplementation.Allocator.LinkedList.{Region, alloc_from_region, find_region}

abbrev pub blocks : List Region → List Block
blocks [] = []
blocks (region ∷ regions) = block region.start_addr region.size ∷ blocks regions

-- The allocation lies in the region and is aligned.
abbrev pub Fits : Region → ℕ → ℕ → ℕ → Type 0
Fits region size align p =
    (p % align ≡ 0) × (region.start_addr ≤ p) × (p + size ≤ region.start_addr + region.size)

fit_some :
    (region : Region) (size align p : ℕ)
    → 0 < align
    → alloc_from_region region size align ≡ done (some p)
    → Fits region size align p
unfolding alloc_from_region
fit_some region size align p pos e =
    let (start, aligned, rest) = >>=-eq-done (align_up region.start_addr align) _ e in
    let ok = IsAligned-align_up region.start_addr align start pos aligned in ground arith

pub blocks-append :
    (before after : List Region) → blocks (before ++ after) ≡ blocks before ++ blocks after
blocks-append [] after = refl
blocks-append (r ∷ before) after =
    ap (λ (t : List Block). block r.start_addr r.size ∷ t) (blocks-append before after)

-- A region with its place in a list: what `find_region` takes out.
pub record Found (regions rest : List Region) (region : Region) : Type 0 where
  pub before : List Region
  pub after : List Region
  pub whole : regions ≡ before ++ region ∷ after
  pub left : rest ≡ before ++ after

Found-∷ :
    (r : Region) {regions rest : List Region} {region : Region}
    → Found regions rest region
    → Found (r ∷ regions) (r ∷ rest) region
Found-∷ r found = record {
  before = r ∷ found.before;
  after = found.after;
  whole = ap (λ (t : List Region). r ∷ t) found.whole;
  left = ap (λ (t : List Region). r ∷ t) found.left;
}

abbrev pub found : Region → ℕ → List Region → Run (Option (Region × ℕ) × List Region)
found region p rest = done (some (region, p), rest)

find_here :
    (r region : Region) (regions rest : List Region) (size align s p : ℕ)
    → 0 < align
    → alloc_from_region r size align ≡ done (some s)
    → found r s regions ≡ found region p rest
    → Found (r ∷ regions) rest region × Fits region size align p
find_here r region regions rest size align s p pos fit same =
    let same_region : r ≡ region = cc in
    let same_rest : regions ≡ rest = cc in
    let same_start : s ≡ p = cc in
    rw (← same_region, ← same_rest, ← same_start)
      (
        record { before = []; after = regions; whole = refl; left = refl },
        fit_some r size align s pos fit,
      )

pub find_some :
    (regions rest : List Region) (region : Region) (size align p : ℕ)
    → 0 < align
    → find_region regions size align ≡ found region p rest
    → Found regions rest region × Fits region size align p
unfolding find_region
find_some [] rest region size align p pos e = absurd (ground arith)
find_some (r ∷ regions) rest region size align p pos e =
    let (fit, e_fit, more) = >>=-eq-done (alloc_from_region r size align) _ e in
    elim (Option-cases fit) [
      | inl none_fit ↦
          let rest_found = rw none_fit at more in
          let ((o, others), e_others, same) =
            >>=-eq-done (find_region regions size align) _ rest_found in
          let same_found : o ≡ some (region, p) = cc in
          let same_rest : r ∷ others ≡ rest = cc in
          let (rec, fits) =
            find_some regions others region size align p pos (rw (← same_found) e_others) in
          rw (← same_rest) (Found-∷ r rec, fits)
      | inr (s, some_fit) ↦
          let taken = rw some_fit at more in
          find_here r region regions rest size align s p pos
            (e_fit ∙ ap (λ (o : Option ℕ). done o) some_fit) taken
    ]
