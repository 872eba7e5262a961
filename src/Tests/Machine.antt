-- ===== src/Tests/Machine.antt =====
-- The theorems on the allocators, the screen and the shell at concrete inputs.
use fat32_reimplementation.Base.{ℕ, ◌%◌, ◌≡◌, refl, max, [], ◌∷◌, none, some, arith, done, ok}
use fat32_reimplementation.Base.Windows.{window, slice}
use fat32_reimplementation.Base.Text.{from_utf8}
use fat32_reimplementation.Allocator.{Layout, align_up}
use fat32_reimplementation.Allocator.Alignment.{IsAligned, align_up-IsAligned}
use fat32_reimplementation.Allocator.Blocks.{block, AllApart}
use fat32_reimplementation.Allocator.Bump.{BumpAllocator}
use fat32_reimplementation.Allocator.Bump as Bump
use fat32_reimplementation.Allocator.Bump.Blocks.{
  IsSound, here, next, hand_out, take_back, Reach-IsSound,
}
use fat32_reimplementation.Allocator.Bump.Room.{Answer, alloc-Answer}
use fat32_reimplementation.Allocator.LinkedList.{LinkedListAllocator, node_align}
use fat32_reimplementation.Allocator.LinkedList as LinkedList
use fat32_reimplementation.Allocator.LinkedList.Regions.{blocks}
use fat32_reimplementation.Allocator.LinkedList.Taking.{alloc-AllApart}
use fat32_reimplementation.FileSystem.Names.{short_name_to_string}
use fat32_reimplementation.Shell.{ShellSession, new, ls, cd}
use fat32_reimplementation.Shell.Moving.{cd-ls}
use fat32_reimplementation.Vga.{Writer}
use fat32_reimplementation.Tests.Fixture.{docs_name, nested}

align_up-IsAligned_example : (r : ℕ) × (align_up 1001 16 ≡ done r) × IsAligned 1001 16 r
align_up-IsAligned_example = align_up-IsAligned 1001 16 (omega arith) (omega arith)

abbrev layout : Layout
layout = record { size = 24; align = 8 }

abbrev start : BumpAllocator
start = record { heap_start = 4100; heap_end = 5000; next = 4100; allocations = 0 }

abbrev after_alloc : BumpAllocator
after_alloc = record { heap_start = 4100; heap_end = 5000; next = 4128; allocations = 1 }

start-IsSound : IsSound (record { bump = start; live = [] })
start-IsSound = record {
  started = omega arith;
  ended = omega arith;
  counted = refl;
  within = tt;
  apart = tt;
}

first_alloc : Bump.alloc start layout ≡ done (some 4104, after_alloc)
unfolding Bump.alloc align_up
first_alloc = refl

first_dealloc : Bump.dealloc after_alloc ≡ done start
unfolding Bump.dealloc
first_dealloc = refl

Reach-IsSound_example : IsSound (record { bump = start; live = [] })
Reach-IsSound_example = Reach-IsSound start-IsSound (
    next (next here (hand_out start after_alloc [] layout 4104 (omega arith) first_alloc))
      (take_back after_alloc start [] [] (block 4104 24) first_dealloc))

abbrev one_region : LinkedListAllocator
one_region = record { regions = record { start_addr = 4096; size = 1000 } ∷ [] }

abbrev rest_region : LinkedListAllocator
rest_region = record { regions = record { start_addr = 4120; size = 976 } ∷ [] }

taken_first : LinkedList.alloc one_region layout ≡ done (some 4096, rest_region)
unfolding LinkedList.alloc align_up
taken_first = refl

alloc-AllApart_example :
    (4096 % max layout.align node_align ≡ 0)
    × AllApart (block 4096 layout.size ∷ blocks rest_region.regions)
alloc-AllApart_example = alloc-AllApart one_region rest_region layout 4096 (tt, tt) taken_first

abbrev writer : Writer
writer = record {
  column_position = 3;
  color_code = 14;
  chars = λ r c. record { ascii_character = r; color_code = c };
}

abbrev in_docs : ShellSession
in_docs = record { fs = nested; current_cluster = 4 }

entered : cd (new nested) docs_name ≡ done (ok tt, in_docs)
unfolding cd new slice window short_name_to_string from_utf8
entered = refl

cd-ls_example : ls (new nested) (some docs_name) ≡ ls in_docs none
cd-ls_example = cd-ls (new nested) in_docs docs_name entered

alloc-Answer_example : (p : ℕ) × IsAligned 4100 8 p × Answer start layout p
alloc-Answer_example =
    alloc-Answer start layout (omega arith) (omega arith) (omega arith) (omega arith)
