-- ===== src/Frames/Usable.antt =====
-- Which frames `allocate_frame` returns.
use mathlib.Core.Option
use fat32_reimplementation.Base.{
  ℕ, zero, suc, ◌+◌, ◌*◌, ◌%◌, ◌^◌, ◌≤◌, ◌<◌, ◌≡◌, refl, ap, ◌∙◌, List, [], ◌∷◌, true, Option, some,
  done, bind-done, arith, length, get_elem?, lt→ltb,
}
use fat32_reimplementation.Allocator.{add_usize}
use fat32_reimplementation.Frames.{
  Boot, IsPhysical, BootInfoFrameAllocator, usable_addresses, nth_frame, allocate_frame,
}
use fat32_reimplementation.Frames.Ascending.{
  IsOrdered, Ascending, usable_addresses-Ascending, Ascending-known, Ascending-apart, page_at,
  usable_addresses-reached,
}

-- `nth` on addresses that `PhysAddr::new` takes.
nth_frame-get_elem? :
    (boot : Boot) (lo : ℕ) (addrs : List ℕ) (n : ℕ)
    → IsPhysical boot
    → Ascending lo addrs
    → nth_frame boot addrs n ≡ done (Option.map boot.containing_address (get_elem? addrs n))
unfolding nth_frame
nth_frame-get_elem? boot lo [] n phys asc = refl
nth_frame-get_elem? boot lo (a ∷ addrs) zero phys asc =
    bind-done _ (phys.phys_addr_low a (omega (arith, asc.2))) refl
nth_frame-get_elem? boot lo (a ∷ addrs) (suc n) phys asc =
    bind-done _ (phys.phys_addr_low a (omega (arith, asc.2)))
      (nth_frame-get_elem? boot (a + 4096) addrs n phys asc.3)

-- In a memory map whose regions are whole pages in order, below 2 ^ 52: call number `next` of
-- `allocate_frame` (below the last number of a `usize`) returns the frame of usable page number
-- `next`, or no frame when there are no more pages, and counts on.
pub allocate_frame-get_elem? :
    (boot : Boot) (frames : BootInfoFrameAllocator boot)
    → IsPhysical boot
    → IsOrdered boot 0 frames.memory_map
    → frames.next + 1 < 2 ^ 64
    → allocate_frame boot frames
      ≡ done (
        Option.map boot.containing_address
            (get_elem? (usable_addresses boot frames.memory_map) frames.next),
        record frames { next = frames.next + 1 },
      )
unfolding allocate_frame
allocate_frame-get_elem? boot frames phys ordered small =
    let stepped : add_usize frames.next 1 ≡ done (frames.next + 1) =
      rw (lt→ltb (frames.next + 1) (2 ^ 64) small) refl in
    bind-done _
      (nth_frame-get_elem? boot 0 (usable_addresses boot frames.memory_map) frames.next phys
        (usable_addresses-Ascending boot 0 frames.memory_map ordered))
      (bind-done _ stepped refl)

call :
    (boot : Boot) (regions : List boot.MemoryRegion) (n a : ℕ)
    → IsPhysical boot
    → IsOrdered boot 0 regions
    → get_elem? (usable_addresses boot regions) n ≡ some a
    → n + 1 < 2 ^ 64
    → allocate_frame boot (record { memory_map = regions; next = n })
      ≡ done (some (boot.containing_address a), record { memory_map = regions; next = n + 1 })
call boot regions n a phys ordered e small =
    allocate_frame-get_elem? boot (record { memory_map = regions; next = n }) phys ordered small
    ∙ ap
        (λ (o : Option ℕ).
          done
            (Option.map boot.containing_address o, record { memory_map = regions; next = n + 1 }))
        e

-- In a memory map whose regions are whole pages in order, below 2 ^ 52, the pages of two calls of
-- `allocate_frame`, when there are so many, are whole pages of the physical address space, and the
-- later one lies behind the earlier one, so that no frame is given twice.
pub allocate_frame-apart :
    (boot : Boot) (regions : List boot.MemoryRegion) (i j : ℕ)
    → IsPhysical boot
    → IsOrdered boot 0 regions
    → i < j
    → j < length (usable_addresses boot regions)
    → j + 1 < 2 ^ 64
    → (a b : ℕ) × (allocate_frame boot (record { memory_map = regions; next = i })
        ≡ done (some (boot.containing_address a), record { memory_map = regions; next = i + 1 }))
      × (allocate_frame boot (record { memory_map = regions; next = j })
          ≡ done (some (boot.containing_address b), record { memory_map = regions; next = j + 1 }))
      × (a % 4096 ≡ 0)
      × (b % 4096 ≡ 0)
      × (a + 4096 ≤ b)
      × (b + 4096 ≤ 2 ^ 52)
allocate_frame-apart boot regions i j phys ordered lt known small =
    let asc = usable_addresses-Ascending boot 0 regions ordered in
    let (a, ea) = page_at boot regions i (omega arith) in
    let (b, eb) = page_at boot regions j known in
    let (_, ala, _) = Ascending-known 0 (usable_addresses boot regions) i a asc ea in
    let (_, alb, hib) = Ascending-known 0 (usable_addresses boot regions) j b asc eb in
    (
      a,
      b,
      call boot regions i a phys ordered ea (omega arith),
      call boot regions j b phys ordered eb small,
      ala,
      alb,
      Ascending-apart 0 (usable_addresses boot regions) i j a b asc lt ea eb,
      hib,
    )

-- In a memory map whose regions are whole pages in order, below 2 ^ 52, each page of each usable
-- region is given by some call of `allocate_frame`.
pub allocate_frame-reached :
    (boot : Boot) (regions : List boot.MemoryRegion) (r k : ℕ) (region : boot.MemoryRegion)
    → IsPhysical boot
    → IsOrdered boot 0 regions
    → get_elem? regions r ≡ some region
    → boot.is_usable region ≡ true
    → boot.start_addr region + k * 4096 < boot.end_addr region
    → (n : ℕ) × (allocate_frame boot (record { memory_map = regions; next = n })
        ≡ done (
          some (boot.containing_address (boot.start_addr region + k * 4096)),
          record { memory_map = regions; next = n + 1 },
        ))
allocate_frame-reached boot regions r k region phys ordered at usable inside =
    let (n, e) = usable_addresses-reached boot regions r k region at usable inside in
    let place =
      Ascending-known 0 (usable_addresses boot regions) n (boot.start_addr region + k * 4096)
        (usable_addresses-Ascending boot 0 regions ordered) e in
    (
      n,
      call boot regions n (boot.start_addr region + k * 4096) phys ordered e
          (omega (arith, place.0, place.2)),
    )
