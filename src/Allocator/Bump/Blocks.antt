-- ===== src/Allocator/Bump/Blocks.antt =====
-- The blocks that a bump allocator has handed out.
use fat32_reimplementation.Base.{
  ℕ, ◌+◌, ◌%◌, ◌≤◌, ◌<◌, ◌≡◌, ◌⊎◌, inl, inr, sym, List, [], ◌∷◌, ◌++◌, length, length-append, All,
  none, some, done, arith, >>=-eq-done,
}
use fat32_reimplementation.Allocator.{Layout, align_up}
use fat32_reimplementation.Allocator.Blocks.{
  Block, block, Apart, AllApart, All-remove, AllApart-remove,
}
use mathlib.Core.Path.{subst, subst₂}
use fat32_reimplementation.Allocator.Alignment.{IsAligned-align_up}
use fat32_reimplementation.Allocator.Bump.{BumpAllocator, alloc, dealloc}

abbrev pub Within : ℕ → ℕ → Block → Type 0
Within lo hi b = (lo ≤ b.start) × (b.start + b.size ≤ hi)

-- The allocator with the blocks that its users hold.
pub record Heap : Type 0 where
  pub bump : BumpAllocator
  pub live : List Block

-- A call that returns: a block is handed out, the request is refused, or a held block comes back.
pub data Step : Heap → Heap → Type 0 where
  hand_out :
      (bump bump' : BumpAllocator) (live : List Block) (layout : Layout) (p : ℕ)
      → 0 < layout.align
      → alloc bump layout ≡ done (some p, bump')
      → Step
          (record { bump = bump; live = live })
          (record { bump = bump'; live = block p layout.size ∷ live })
  refuse :
      (bump bump' : BumpAllocator) (live : List Block) (layout : Layout)
      → 0 < layout.align
      → alloc bump layout ≡ done (none, bump')
      → Step (record { bump = bump; live = live }) (record { bump = bump'; live = live })
  take_back :
      (bump bump' : BumpAllocator) (before after : List Block) (b : Block)
      → dealloc bump ≡ done bump'
      → Step
          (record { bump = bump; live = before ++ b ∷ after })
          (record { bump = bump'; live = before ++ after })

pub data Reach (h : Heap) : Heap → Type 0 where
  here : Reach h h
  next : {g k : Heap} → Reach h g → Step g k → Reach h k

-- The held blocks lie between the start of the heap and `next`, apart from one another, and are
-- counted.
pub record IsSound (h : Heap) : Type 0 where
  pub started : h.bump.heap_start ≤ h.bump.next
  pub ended : h.bump.next ≤ h.bump.heap_end
  pub counted : h.bump.allocations ≡ length h.live
  pub within : All (Within h.bump.heap_start h.bump.next) h.live
  pub apart : AllApart h.live

-- What a successful `alloc` returns.
pub alloc-some :
    (bump bump' : BumpAllocator) (layout : Layout) (p : ℕ)
    → 0 < layout.align
    → alloc bump layout ≡ done (some p, bump')
    → (p % layout.align ≡ 0)
      × (bump.next ≤ p)
      × (p + layout.size ≤ bump.heap_end)
      × (bump'.next ≡ p + layout.size)
      × (bump'.allocations ≡ bump.allocations + 1)
      × (bump'.heap_start ≡ bump.heap_start)
      × (bump'.heap_end ≡ bump.heap_end)
unfolding alloc
alloc-some bump bump' layout p pos e =
    let (start, aligned, rest) = >>=-eq-done (align_up bump.next layout.align) _ e in
    let ok = IsAligned-align_up bump.next layout.align start pos aligned in ground arith

alloc-none :
    (bump bump' : BumpAllocator) (layout : Layout)
    → alloc bump layout ≡ done (none, bump')
    → bump' ≡ bump
unfolding alloc
alloc-none bump bump' layout e = ground arith

Within-grow :
    (lo hi hi' : ℕ) (bs : List Block) → hi ≤ hi' → All (Within lo hi) bs → All (Within lo hi') bs
Within-grow lo hi hi' [] h w = tt
Within-grow lo hi hi' (b ∷ bs) h w = (omega (arith, w.0), Within-grow lo hi hi' bs h w.1)

-- A block behind all others is apart from them.
Apart-behind :
    (lo hi p n : ℕ) (bs : List Block) → hi ≤ p → All (Within lo hi) bs → All (Apart (block p n)) bs
Apart-behind lo hi p n [] h w = tt
Apart-behind lo hi p n (b ∷ bs) h w = (inr (omega (arith, w.0)), Apart-behind lo hi p n bs h w.1)

hand_out-IsSound :
    (bump bump' : BumpAllocator) (live : List Block) (layout : Layout) (p : ℕ)
    → 0 < layout.align
    → alloc bump layout ≡ done (some p, bump')
    → IsSound (record { bump = bump; live = live })
    → IsSound (record { bump = bump'; live = block p layout.size ∷ live })
hand_out-IsSound bump bump' live layout p pos e s =
    let (aligned, lo, hi, next', count', start', end') = alloc-some bump bump' layout p pos e in
    let old = Within-grow bump.heap_start bump.next bump'.next live (omega arith) s.within in
    record {
      started = omega (arith, s.started);
      ended = omega arith;
      counted = omega (arith, s.counted);
      within = (
        omega (arith, s.started),
        subst (λ (k : ℕ). All (Within k bump'.next) live) (sym start') old,
      );
      apart = (Apart-behind bump.heap_start bump.next p layout.size live lo s.within, s.apart);
    }

-- What a `dealloc` that does not panic returns.
dealloc_done :
    (bump bump' : BumpAllocator)
    → dealloc bump ≡ done bump'
    → (bump.allocations ≡ bump'.allocations + 1)
      × ((bump'.next ≡ bump.next) ⊎ ((bump'.allocations ≡ 0) × (bump'.next ≡ bump.heap_start)))
      × (bump'.heap_start ≡ bump.heap_start)
      × (bump'.heap_end ≡ bump.heap_end)
unfolding dealloc
dealloc_done bump bump' e = ground arith

Within-empty : (lo hi : ℕ) (bs : List Block) → length bs ≡ 0 → All (Within lo hi) bs
Within-empty lo hi [] e = tt
Within-empty lo hi (b ∷ bs) e = absurd (omega arith)

take_back-IsSound :
    (bump bump' : BumpAllocator) (before after : List Block) (b : Block)
    → dealloc bump ≡ done bump'
    → IsSound (record { bump = bump; live = before ++ b ∷ after })
    → IsSound (record { bump = bump'; live = before ++ after })
take_back-IsSound bump bump' before after b e s =
    let (count, moved, start', end') = dealloc_done bump bump' e in
    let old = All-remove (Within bump.heap_start bump.next) before b after s.within in
    let counted : bump'.allocations ≡ length (before ++ after) =
      omega (arith, s.counted, length-append before (b ∷ after), length-append before after) in
    record {
      started = omega (arith, s.started);
      ended = omega (arith, s.started, s.ended);
      counted = counted;
      within = elim moved [
        | inl same ↦
            subst₂ (λ (lo hi : ℕ). All (Within lo hi) (before ++ after)) (sym start') (sym same) old
        | inr reset ↦ Within-empty _ _ (before ++ after) (omega (arith, reset.0))
      ];
      apart = AllApart-remove before b after s.apart;
    }

Step-IsSound : {g h : Heap} → Step g h → IsSound g → IsSound h
Step-IsSound (hand_out bump bump' live layout p pos e) s =
    hand_out-IsSound bump bump' live layout p pos e s
Step-IsSound (refuse bump bump' live layout pos e) s = rw (alloc-none bump bump' layout e) s
Step-IsSound (take_back bump bump' before after b e) s =
    take_back-IsSound bump bump' before after b e s

-- From a sound heap, whatever the sequence of `alloc` and `dealloc` calls that return, with
-- alignments above 0 and each freed block one that is held: the held blocks lie between the heap's
-- start and `next`, `next` does not pass the heap's end, the blocks share no byte, and
-- `allocations` counts them.
pub Reach-IsSound : {g h : Heap} → IsSound g → Reach g h → IsSound h
Reach-IsSound s here = s
Reach-IsSound s (next r st) = Step-IsSound st (Reach-IsSound s r)
