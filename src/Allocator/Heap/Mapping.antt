-- ===== src/Allocator/Heap/Mapping.antt =====
-- What is mapped after `init_heap`.
use fat32_reimplementation.Base.{
  ℕ, ◌+◌, ◌-◌, ◌^◌, ◌≤◌, ◌<◌, ◌≡◌, ◌⊎◌, inl, inr, refl, ap, ◌∙◌, List, [], ◌∷◌, All, Option, none,
  some, Run, done, ◌>>=◌, bind-done, arith,
}
use fat32_reimplementation.Allocator.Pages.{VirtAddrs, IsCanonical}
use fat32_reimplementation.Allocator.Slab.{SlabAllocator}
use fat32_reimplementation.Allocator.Slab as Slab
use fat32_reimplementation.Allocator.Heap.{
  Paging, heap_start, heap_size, Outcome, map_page, map_pages, init_heap,
}

-- What is used of the crate: `mapped` looks a page up; a call of `map_to` without an error maps the
-- page to the frame, and keeps what was mapped, since a page that is mapped already is an error.
pub record IsPaging (paging : Paging) (mapped : paging.Mapper → ℕ → Option paging.PhysFrame)
    : Type 0 where
  pub minus_low : (a b : ℕ) → b ≤ a → a < 2 ^ 47 → paging.minus a b ≡ done (a - b)
  pub map_to_maps :
      (mapper mapper' : paging.Mapper) (page : ℕ) (frame : paging.PhysFrame)
      (frames frames' : paging.FrameAllocator)
      → paging.map_to mapper page frame frames ≡ (inr tt, mapper', frames')
      → mapped mapper' page ≡ some frame
  pub map_to_keeps :
      (mapper mapper' : paging.Mapper) (page other : ℕ) (frame g : paging.PhysFrame)
      (frames frames' : paging.FrameAllocator)
      → paging.map_to mapper page frame frames ≡ (inr tt, mapper', frames')
      → mapped mapper other ≡ some g
      → mapped mapper' other ≡ some g

module _ (paging : Paging) (mapped : paging.Mapper → ℕ → Option paging.PhysFrame)
    (law : IsPaging paging mapped) where
  abbrev pub IsMapped : paging.Mapper → ℕ → Type 0
  IsMapped mapper page = (frame : paging.PhysFrame) × (mapped mapper page ≡ some frame)

  abbrev Failed : Outcome paging → Type 0
  Failed run =
      (e : paging.MapToError) × (mapper' : paging.Mapper) × (frames' : paging.FrameAllocator) × (run
        ≡ (inl e, mapper', frames'))

  abbrev Mapped : paging.Mapper → List ℕ → Outcome paging → Type 0
  Mapped mapper pages run =
      (mapper' : paging.Mapper) × (frames' : paging.FrameAllocator) × (run
        ≡ (inr tt, mapper', frames'))
      × All (IsMapped mapper') pages
      × ((page : ℕ) → IsMapped mapper page → IsMapped mapper' page)

  map_to_cases :
      (page : ℕ) (mapper : paging.Mapper) (frame : paging.PhysFrame)
      (frames : paging.FrameAllocator) (run : Outcome paging)
      → paging.map_to mapper page frame frames ≡ run
      → Failed run ⊎ Mapped mapper (page ∷ []) run
  map_to_cases page mapper frame frames (inl e, mapper', frames') h =
      inl (e, mapper', frames', refl)
  map_to_cases page mapper frame frames (inr tt, mapper', frames') h = inr (
    mapper',
    frames',
    refl,
    ((frame, law.map_to_maps mapper mapper' page frame frames frames' h), tt),
    λ other (g, at). (g, law.map_to_keeps mapper mapper' page other frame g frames frames' h at),
  )

  abbrev framed :
      ℕ → paging.Mapper → Option paging.PhysFrame × paging.FrameAllocator → Outcome paging
  framed page mapper (frame, frames') = elim frame [
    | none ↦ (inl paging.frame_allocation_failed, mapper, frames')
    | some f ↦ paging.map_to mapper page f frames'
  ]

  framed_cases :
      (page : ℕ) (mapper : paging.Mapper)
      (allocated : Option paging.PhysFrame × paging.FrameAllocator)
      → Failed (framed page mapper allocated)
        ⊎ Mapped mapper (page ∷ []) (framed page mapper allocated)
  framed_cases page mapper (none, frames') =
      inl (paging.frame_allocation_failed, mapper, frames', refl)
  framed_cases page mapper (some f, frames') =
      map_to_cases page mapper f frames' (paging.map_to mapper page f frames') refl

  map_page_cases :
      (page : ℕ) (mapper : paging.Mapper) (frames : paging.FrameAllocator)
      → Failed (map_page paging page mapper frames)
        ⊎ Mapped mapper (page ∷ []) (map_page paging page mapper frames)
  unfolding map_page
  map_page_cases page mapper frames = framed_cases page mapper (paging.allocate_frame frames)

  -- The loop returns an error, or maps all its pages and keeps those that were mapped.
  map_pages_cases :
      (pages : List ℕ) (mapper : paging.Mapper) (frames : paging.FrameAllocator)
      → Failed (map_pages paging pages mapper frames)
        ⊎ Mapped mapper pages (map_pages paging pages mapper frames)
  unfolding map_pages
  map_pages_cases [] mapper frames = inr (mapper, frames, refl, tt, λ page h. h)
  map_pages_cases (page ∷ pages) mapper frames = elim (map_page_cases page mapper frames) [
    | inl (e, mapper1, frames1, h) ↦ inl (e, mapper1, frames1, ap next h)
    | inr (mapper1, frames1, h, here, keeps) ↦ elim (map_pages_cases pages mapper1 frames1) [
      | inl (e, mapper2, frames2, h2) ↦ inl (e, mapper2, frames2, ap next h ∙ h2)
      | inr (mapper2, frames2, h2, rest, keeps2) ↦ inr (
        mapper2,
        frames2,
        ap next h ∙ h2,
        (keeps2 page here.0, rest),
        λ other k. keeps2 other (keeps other k),
      )
    ]
  ]
    where
      next : Outcome paging → Outcome paging
      next run = elim run.0 [
        | inl e ↦ (inl e, run.1, run.2)
        | inr _ ↦ map_pages paging pages run.1 run.2
      ]

  abbrev finish :
      VirtAddrs
      → SlabAllocator
      → Outcome paging
      → Run ((paging.MapToError ⊎ Unit {0}) × SlabAllocator × paging.Mapper × paging.FrameAllocator)
  finish v allocator (result, mapper, frames) = elim result [
    | inl e ↦ done (inl e, allocator, mapper, frames)
    | inr _ ↦ do
      allocator' ← Slab.init v allocator heap_start heap_size
      done (inr tt, allocator', mapper, frames)
  ]

  abbrev heap_pages : List ℕ
  heap_pages = paging.page_range heap_start (heap_start + heap_size - 1)

  init_heap-finish :
      (v : VirtAddrs) (allocator : SlabAllocator) (mapper : paging.Mapper)
      (frames : paging.FrameAllocator)
      → IsCanonical v
      → init_heap paging v allocator mapper frames
        ≡ finish v allocator (map_pages paging heap_pages mapper frames)
  unfolding init_heap
  init_heap-finish v allocator mapper frames canonical =
      bind-done _ (canonical.new_low heap_start (omega arith)) (
        bind-done _ (canonical.plus_low heap_start heap_size (omega arith))
          (bind-done _ (law.minus_low (heap_start + heap_size) 1 (omega arith) (omega arith)) refl))

  init_heap_slab :
      (v : VirtAddrs) (allocator : SlabAllocator)
      → IsCanonical v
      → Slab.init v allocator heap_start heap_size
        ≡ done (record allocator {
          page_alloc = some (record { next = heap_start; end = heap_start + heap_size });
        })
  unfolding Slab.init
  init_heap_slab v allocator canonical =
      bind-done _ (canonical.new_low heap_start (omega arith))
        (bind-done _ (canonical.new_low (heap_start + heap_size) (omega arith)) refl)

  -- With an x86_64 crate that computes the addresses of the heap, and whose `map_to` maps a page
  -- or returns an error: `init_heap` does not panic. It returns an error and leaves the slab
  -- allocator as it was, or every page of the heap is mapped, a page that was mapped still is, and
  -- the slab allocator's pages are those of the heap.
  pub init_heap-IsMapped :
      (v : VirtAddrs) (allocator : SlabAllocator) (mapper : paging.Mapper)
      (frames : paging.FrameAllocator)
      → IsCanonical v
      → ((e : paging.MapToError) × (mapper' : paging.Mapper) × (frames' : paging.FrameAllocator)
          × (init_heap paging v allocator mapper frames
              ≡ done (inl e, allocator, mapper', frames')))
        ⊎ ((mapper' : paging.Mapper) × (frames' : paging.FrameAllocator) × (init_heap paging v
                allocator mapper frames
              ≡ done (
                inr tt,
                record allocator {
                  page_alloc = some (record { next = heap_start; end = heap_start + heap_size });
                },
                mapper',
                frames',
              ))
            × All (IsMapped mapper') (paging.page_range heap_start (heap_start + heap_size - 1))
            × ((page : ℕ) → IsMapped mapper page → IsMapped mapper' page))
  init_heap-IsMapped v allocator mapper frames canonical =
      let start = init_heap-finish v allocator mapper frames canonical in
      elim (map_pages_cases heap_pages mapper frames) [
        | inl (e, mapper', frames', h) ↦
            inl (e, mapper', frames', start ∙ ap (finish v allocator) h)
        | inr (mapper', frames', h, all, keeps) ↦ inr (
          mapper',
          frames',
          start
              ∙ ap (finish v allocator) h
              ∙ bind-done _ (init_heap_slab v allocator canonical) refl,
          all,
          keeps,
        )
      ]
