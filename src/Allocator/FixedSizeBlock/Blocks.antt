-- ===== src/Allocator/FixedSizeBlock/Blocks.antt =====
-- The free blocks of each list: a stack, linked through the blocks.
use mathlib.Core.Path.{subst}
use fat32_reimplementation.Base.{
  ℕ, ◌<◌, ◌≡◌, ◌≢◌, refl, sym, ap, ◌∙◌, List, [], ◌∷◌, All, length, get_elem?, Option, none, some,
  done, ◌>>=◌, bind-done, unwrap, arith, lt_of_get_elem?, le→leb, ne→==,
}
use fat32_reimplementation.Base.Chunks.{set, get_elem?-set_self, get_elem?-set_ne}
use fat32_reimplementation.Allocator.{Layout}
use fat32_reimplementation.Allocator.Memory.{Memory, null, store, store_self, store-ne}
use fat32_reimplementation.Allocator.FixedSizeBlock.{
  FirstFit, FixedSizeBlockAllocator, list_index, alloc, alloc_listed, fallback_alloc, dealloc,
  dealloc_listed, fallback_dealloc,
}
use fat32_reimplementation.Allocator.FixedSizeBlock.Sizes.{list_index-known}

-- From `head` the links lead through the blocks of the list.
abbrev pub Linked : Memory → ℕ → List ℕ → Type 0
Linked m head [] = head ≡ null
Linked m head (block ∷ blocks) = (head ≡ block) × (block ≢ null) × Linked m (m block) blocks

-- List number `index` holds the blocks, in this order.
pub record Holds (heads : List ℕ) (m : Memory) (index : ℕ) (blocks : List ℕ) : Type 0 where
  pub head : ℕ
  pub known : get_elem? heads index ≡ some head
  pub linked : Linked m head blocks

-- A write to a word that is no block of the list.
Linked-store :
    (m : Memory) (a v head : ℕ) (blocks : List ℕ)
    → All (λ b. b ≢ a) blocks
    → Linked m head blocks
    → Linked (store m a v) head blocks
Linked-store m a v head [] ne linked = linked
Linked-store m a v head (b ∷ blocks) (ne, rest) (e, some_block, linked) = (
  e,
  some_block,
  subst (λ (k : ℕ). Linked (store m a v) k blocks) (sym (store-ne m a v b ne))
      (Linked-store m a v (m b) blocks rest linked),
)

Holds-elsewhere :
    (heads : List ℕ) (m : Memory) (index j head a v : ℕ) (blocks : List ℕ)
    → index ≢ j
    → All (λ b. b ≢ a) blocks
    → Holds heads m j blocks
    → Holds (set heads index head) (store m a v) j blocks
Holds-elsewhere heads m index j head a v blocks ne fresh h = record {
  head = h.head;
  known = get_elem?-set_ne heads index j head ne ∙ h.known;
  linked = Linked-store m a v h.head blocks fresh h.linked;
}

Holds-here :
    (heads : List ℕ) (m : Memory) (index head : ℕ) (blocks : List ℕ)
    → index < length heads
    → Linked m head blocks
    → Holds (set heads index head) m index blocks
Holds-here heads m index head blocks lt linked = record {
  head = head;
  known = get_elem?-set_self heads index head lt;
  linked = linked;
}

module _ (fit : FirstFit) (allocator : FixedSizeBlockAllocator fit) (layout : Layout) (m : Memory)
    (index block : ℕ) (blocks : List ℕ) (at : list_index layout ≡ some index) where
  alloc_listed-block :
      (head : ℕ)
      → get_elem? allocator.list_heads index ≡ some head
      → head ≢ null
      → alloc_listed fit allocator index m
        ≡ done (
          head,
          record allocator { list_heads = set allocator.list_heads index (m head) },
          store m head null,
        )
  unfolding alloc_listed
  alloc_listed-block head known ne =
      let (s, sized, _) = list_index-known layout index at in
      bind-done _ (ap unwrap known) (bind-done _ (ap unwrap sized) (rw (ne→== head null ne) refl))

  dealloc_listed-block :
      (head : ℕ)
      → get_elem? allocator.list_heads index ≡ some head
      → dealloc_listed fit allocator index block m
        ≡ done (
          record allocator { list_heads = set allocator.list_heads index block },
          store m block head,
        )
  unfolding dealloc_listed
  dealloc_listed-block head known =
      let (s, sized, room) = list_index-known layout index at in
      bind-done _ (ap unwrap known) (bind-done _ (ap unwrap sized) (rw (le→leb 8 s room) refl))

  -- When the list of a request holds `block`, which is none of the others: `alloc` returns it; the
  -- list then holds the others, the other lists what they held, and the fallback allocator is as
  -- it was.
  pub alloc-Holds :
      All (λ b. b ≢ block) blocks
      → Holds allocator.list_heads m index (block ∷ blocks)
      → (heads : List ℕ) × (m' : Memory) × (alloc fit allocator layout m
          ≡ done (block, record allocator { list_heads = heads }, m'))
        × Holds heads m' index blocks
        × ((j : ℕ) (others : List ℕ)
            → index ≢ j
            → All (λ b. b ≢ block) others
            → Holds allocator.list_heads m j others
            → Holds heads m' j others)
  unfolding alloc
  alloc-Holds fresh h = (
    set allocator.list_heads index (m block),
    store m block null,
    ap
          (λ (o : Option ℕ). elim o [
            | none ↦ fallback_alloc fit allocator layout >>= λ (ptr, allocator').
                done (ptr, allocator', m)
            | some i ↦ alloc_listed fit allocator i m
          ])
          at
        ∙ alloc_listed-block h.head h.known (omega (arith, h.linked.0, h.linked.1))
        ∙ ap
            (λ (k : ℕ). done (
              k,
              record allocator { list_heads = set allocator.list_heads index (m k) },
              store m k null,
            ))
            h.linked.0,
    Holds-here allocator.list_heads (store m block null) index (m block) blocks
        (lt_of_get_elem? allocator.list_heads index h.head h.known)
        (Linked-store m block null (m block) blocks fresh h.linked.2),
    λ j others ne fresh' h'.
        Holds-elsewhere allocator.list_heads m index j (m block) block null others ne fresh' h',
  )

  -- A block that is not null and in no list goes in front of its list: `dealloc` does not panic,
  -- the other lists hold what they held, and the fallback allocator is as it was.
  pub dealloc-Holds :
      block ≢ null
      → All (λ b. b ≢ block) blocks
      → Holds allocator.list_heads m index blocks
      → (heads : List ℕ) × (m' : Memory) × (dealloc fit allocator block layout m
          ≡ done (record allocator { list_heads = heads }, m'))
        × Holds heads m' index (block ∷ blocks)
        × ((j : ℕ) (others : List ℕ)
            → index ≢ j
            → All (λ b. b ≢ block) others
            → Holds allocator.list_heads m j others
            → Holds heads m' j others)
  unfolding dealloc
  dealloc-Holds some_block fresh h = (
    set allocator.list_heads index block,
    store m block h.head,
    ap
          (λ (o : Option ℕ). elim o [
            | none ↦
                fallback_dealloc fit allocator block layout >>= λ allocator'. done (allocator', m)
            | some i ↦ dealloc_listed fit allocator i block m
          ])
          at
        ∙ dealloc_listed-block h.head h.known,
    Holds-here allocator.list_heads (store m block h.head) index block (block ∷ blocks)
        (lt_of_get_elem? allocator.list_heads index h.head h.known)
        (
          refl,
          some_block,
          subst (λ (k : ℕ). Linked (store m block h.head) k blocks)
              (sym (store_self m block h.head))
              (Linked-store m block h.head h.head blocks fresh h.linked),
        ),
    λ j others ne fresh' h'.
        Holds-elsewhere allocator.list_heads m index j block block h.head others ne fresh' h',
  )

-- A block that is given back, not null and in no list, is the one that the next request of the same
-- list gets; that list then holds what it held, and the fallback allocator is as it was.
pub dealloc-alloc :
    (fit : FirstFit) (allocator : FixedSizeBlockAllocator fit) (layout layout' : Layout)
    (m : Memory)
    → (index block : ℕ) (blocks : List ℕ) → list_index layout ≡ some index
    → list_index layout' ≡ some index
    → block ≢ null
    → All (λ b. b ≢ block) blocks
    → Holds allocator.list_heads m index blocks
    → (heads : List ℕ) × (m' : Memory) × ((dealloc fit allocator block layout m
          >>= λ (allocator', m1). alloc fit allocator' layout' m1)
        ≡ done (block, record allocator { list_heads = heads }, m'))
      × Holds heads m' index blocks
dealloc-alloc fit allocator layout layout' m index block blocks at at' some_block fresh h =
    let (heads1, m1, e1, h1, _) =
      dealloc-Holds fit allocator layout m index block blocks at some_block fresh h in
    let (heads2, m2, e2, h2, _) =
      alloc-Holds fit (record allocator { list_heads = heads1 }) layout' m1 index block blocks at'
        fresh h1 in
    (heads2, m2, bind-done _ e1 e2, h2)
