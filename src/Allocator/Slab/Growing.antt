-- ===== src/Allocator/Slab/Growing.antt =====
-- `cache_grow`: the slab that it writes to a fresh page, and the list of free slabs.
use mathlib.Core.Path.{subst}
use fat32_reimplementation.Base.{
  ℕ, ◌+◌, ◌≤◌, ◌<◌, ◌≡◌, ◌≢◌, ◌⊎◌, inl, sym, ◌∙◌, List, [], ◌∷◌, All, arith,
}
use fat32_reimplementation.Allocator.Memory.{Memory, store}
use fat32_reimplementation.Allocator.Nodes as Nodes
use fat32_reimplementation.Allocator.Nodes.{list_add, next_of, prev_of}
use fat32_reimplementation.Allocator.Nodes.Ring.{Ring, Far, AllFar, Same, Links-Same}
use fat32_reimplementation.Allocator.Nodes.Adding.{first, list_add-elsewhere, list_add-Ring}
use fat32_reimplementation.Allocator.Slab.{
  free, inuse, s_mem, obj_size, num, slabs_free, fill_table, obj_start, write_slab,
}
use fat32_reimplementation.Allocator.Slab.Objects.{Chain, IsSlab, IsPlaced, IsSlab-Same}
use fat32_reimplementation.Allocator.Slab.Tables.{
  fill_table-outside, fill_table-entry, indices, length-indices, All-indices, AllDistinct-indices,
  Chain-all,
}

-- The node lies outside the slab's page.
abbrev pub Outside : ℕ → ℕ → Type 0
Outside slab n = (n + 16 ≤ slab) ⊎ (slab + 4096 ≤ n)

-- The memory before the slab joins the list.
abbrev filled : ℕ → ℕ → Memory → Memory
filled slab total m = fill_table total 0 total slab (
    store (store (store (Nodes.clear slab m) (s_mem slab) (obj_start slab total)) (free slab) 0)
      (inuse slab) 0)

module _ (m : Memory) (slab cache size total : ℕ) (placed : IsPlaced slab cache total) where
  filled-outside : (a : ℕ) → (a < slab) ⊎ (slab + 4096 ≤ a) → filled slab total m a ≡ m a
  filled-outside a out =
      fill_table-outside total 0 total slab a _ (ground (arith, placed.table)) ∙ ground arith

  filled-head :
      (a : ℕ)
      → slab + 16 ≤ a
      → a < slab + 40
      → filled slab total m a
        ≡ store (store (store m (s_mem slab) (obj_start slab total)) (free slab) 0) (inuse slab) 0 a
  filled-head a lo hi = fill_table-outside total 0 total slab a _ (inl (omega arith)) ∙ ground arith

  filled-IsSlab :
      0 < total
      → m (obj_size cache) ≡ size
      → IsSlab (filled slab total m) slab cache (obj_start slab total) size total (indices 0 total)
  filled-IsSlab pos sized = record {
    chain =
        subst (λ (k : ℕ). Chain (filled slab total m) slab k (indices 0 total))
          (sym (filled-head (free slab) (omega arith) (omega arith) ∙ ground arith))
          (Chain-all (filled slab total m) slab total pos (omega (arith, placed.table))
            (λ j lt. fill_table-entry total 0 total slab j _ (omega arith) (omega arith)));
    distinct = AllDistinct-indices 0 total;
    known = All-indices (λ j. j < total) 0 total (λ j lo hi. omega arith);
    counted =
        let unused : filled slab total m (inuse slab) ≡ 0 =
          filled-head (inuse slab) (omega arith) (omega arith) ∙ ground arith in
        omega (arith, length-indices 0 total, unused);
    based = filled-head (s_mem slab) (omega arith) (omega arith) ∙ ground arith;
    sized = filled-outside (obj_size cache) (ground (arith, placed.elsewhere)) ∙ sized;
  }

  -- A node outside the page keeps its words.
  filled-Same :
      (nodes : List ℕ) → All (Outside slab) nodes → All (Same m (filled slab total m)) nodes
  filled-Same [] out = tt
  filled-Same (n ∷ nodes) out = (
    (filled-outside n (ground arith), filled-outside (n + 8) (ground arith)),
    filled-Same nodes out.1,
  )

  filled-Ring :
      (nodes : List ℕ)
      → All (Outside slab) nodes
      → Ring m (slabs_free cache) nodes
      → Ring (filled slab total m) (slabs_free cache) nodes
  filled-Ring nodes out ring =
      Links-Same m (filled slab total m) (slabs_free cache) nodes (slabs_free cache)
        (filled-outside (slabs_free cache) (ground (arith, placed.elsewhere)))
        (filled-Same nodes out)
        (filled-outside (slabs_free cache + 8) (ground (arith, placed.elsewhere))) ring

first-Outside :
    (slab head : ℕ) (nodes : List ℕ)
    → Outside slab head
    → All (Outside slab) nodes
    → Outside slab (first head nodes)
first-Outside slab head [] h hs = h
first-Outside slab head (n ∷ nodes) h hs = hs.0

All-Far-Outside : (slab : ℕ) (nodes : List ℕ) → All (Outside slab) nodes → All (Far slab) nodes
All-Far-Outside slab [] h = tt
All-Far-Outside slab (n ∷ nodes) h = (ground arith, All-Far-Outside slab nodes h.1)

behind_first : (head : ℕ) (nodes : List ℕ) → All (Far head) nodes → head + 16 ≢ first head nodes + 8
behind_first head [] far = omega arith
behind_first head (n ∷ nodes) far = ground arith

-- When the table fits the page, the cache lies elsewhere and holds the object size and a number of
-- objects above 0, and the free list's nodes share no byte with one another, with its head or with the page:
-- `write_slab`, the end of `cache_grow`, makes the page a slab with all its objects free, from index
-- 0 on, and puts it in front of the free slabs.
pub write_slab-IsSlab :
    (m : Memory) (slab cache size total : ℕ) (nodes : List ℕ)
    → IsPlaced slab cache total
    → 0 < total
    → m (num cache) ≡ total
    → m (obj_size cache) ≡ size
    → AllFar (slabs_free cache ∷ nodes)
    → All (Outside slab) nodes
    → Ring m (slabs_free cache) nodes
    → IsSlab
        (write_slab slab cache m)
        slab
        cache
        (obj_start slab total)
        size
        total
        (indices 0 total)
      × Ring (write_slab slab cache m) (slabs_free cache) (slab ∷ nodes)
unfolding write_slab
write_slab-IsSlab m slab cache size total nodes placed pos counted sized far out ring =
    let grown = λ (t : ℕ). list_add slab (slabs_free cache) (filled slab t m) in
    let full = filled slab total m in
    let head = slabs_free cache in
    let head_out : Outside slab head = ground (arith, placed.elsewhere) in
    let spaced : AllFar (slab ∷ head ∷ nodes) =
      ((ground arith, All-Far-Outside slab nodes out), far) in
    let ring' = filled-Ring m slab cache size total placed nodes out ring in
    let front = first-Outside slab head nodes head_out out in
    let kept : (a : ℕ) → slab + 16 ≤ a → a < slab + 4096 → list_add slab head full a ≡ full a =
      λ a lo hi.
        list_add-elsewhere full slab head nodes a spaced ring' (omega arith) (omega arith)
          (ground (arith, front)) (ground (arith, head_out)) in
    let kept_size : list_add slab head full (obj_size cache) ≡ full (obj_size cache) =
      list_add-elsewhere full slab head nodes (obj_size cache) spaced ring'
        (ground (arith, placed.elsewhere)) (ground (arith, placed.elsewhere))
        (λ e. behind_first head nodes far.0 (omega (arith, e))) (omega arith) in
    subst
      (λ (t : ℕ).
        IsSlab (grown t) slab cache (obj_start slab total) size total (indices 0 total)
        × Ring (grown t) head (slab ∷ nodes))
      (sym counted)
      (
        IsSlab-Same full (list_add slab head full) slab cache (obj_start slab total) size total
            (indices 0 total) placed kept kept_size
            (filled-IsSlab m slab cache size total placed pos sized),
        list_add-Ring full slab head nodes spaced ring',
      )

-- `write_slab` writes the page and, where the free list was empty, the head of that list.
pub write_slab-elsewhere :
    (m : Memory) (slab cache total a : ℕ)
    → IsPlaced slab cache total
    → m (num cache) ≡ total
    → Ring m (slabs_free cache) []
    → (a < slab) ⊎ (slab + 4096 ≤ a)
    → a ≢ slabs_free cache
    → a ≢ slabs_free cache + 8
    → write_slab slab cache m a ≡ m a
unfolding write_slab
write_slab-elsewhere m slab cache total a placed counted ring out ne ne' =
    let head = slabs_free cache in
    let ring' = filled-Ring m slab cache 0 total placed [] tt ring in
    subst (λ (t : ℕ). list_add slab head (filled slab t m) a ≡ m a) (sym counted)
      (list_add-elsewhere (filled slab total m) slab head [] a
          ((ground (arith, placed.elsewhere), tt), (tt, tt)) ring' (omega (arith, out))
          (ground (arith, out)) ne' ne
        ∙ filled-outside m slab cache 0 total placed a out)
