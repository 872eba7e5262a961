-- ===== src/Allocator/Slab/Classes.antt =====
-- The sizes of the caches, and the room of a page.
use mathlib.Core.Path.{subst}
use fat32_reimplementation.Base.{
  ℕ, zero, suc, ◌+◌, ◌-◌, ◌*◌, ◌/◌, ◌%◌, ◌^◌, ◌≤◌, ◌<◌, ◌≡◌, refl, arith, Bool, true, ◌&&◌, ltb,
  leb, ltb→lt, ◌==◌, bit_and,
}
use fat32_reimplementation.Base.Bits.{bit_and-high, bit_and-low}
use fat32_reimplementation.Allocator.Slab.{
  max_classes, max_slab_size, objects_per_slab, obj_start, slab_of, class_index, trailing_zeros,
}

-- A test that holds below a bound, by evaluation.
unfoldable pub all_below : ℕ → (ℕ → Bool) → Bool
all_below zero test = true
all_below (suc n) test = test n && all_below n test

pub all_below_sound :
    (n : ℕ) (test : ℕ → Bool) (k : ℕ) → all_below n test ≡ true → k < n → test k ≡ true
unfolding all_below
all_below_sound zero test k e lt = absurd (omega arith)
all_below_sound (suc n) test k e lt = ground (arith, all_below_sound n test k)

-- The object size of class `idx`.
abbrev pub class_size : ℕ → ℕ
class_size idx = 2 ^ (idx + 3)

-- `x & !7` and `x & !4095` in 64 bits.
mask_eight : (x : ℕ) → x < 2 ^ 64 → bit_and x (2 ^ 64 - 8) ≡ x / 8 * 8
mask_eight x small = ground (arith, bit_and-high 3 x (2 ^ 61 - 1), bit_and-low 61 (x / 8))

mask_page : (x : ℕ) → x < 2 ^ 64 → bit_and x (2 ^ 64 - 4096) ≡ x / 4096 * 4096
mask_page x small = ground (arith, bit_and-high 12 x (2 ^ 52 - 1), bit_and-low 52 (x / 4096))

-- The slab of a pointer into a page.
pub slab_of-page :
    (slab ptr : ℕ)
    → slab % 4096 ≡ 0
    → slab ≤ ptr
    → ptr < slab + 4096
    → ptr < 2 ^ 64
    → slab_of ptr ≡ slab
unfolding slab_of
slab_of-page slab ptr aligned lo hi small = omega (arith, mask_page ptr small)

-- The table and the objects of a class, counted from the page's start.
fits : ℕ → Bool
fits idx =
    let total = objects_per_slab (class_size idx) in
    ltb 0 total
    && (leb (40 + total * 4) 4096 && leb ((47 + total * 4) / 8 * 8 + total * class_size idx) 4096)

fits_all : all_below 9 fits ≡ true
unfolding all_below fits
fits_all = refl

-- Where the layout of a slab of class `idx` lies in its page.
pub record IsRoomy (slab idx : ℕ) : Type 0 where
  pub some_object : 0 < objects_per_slab (class_size idx)
  pub table : 40 + objects_per_slab (class_size idx) * 4 ≤ 4096
  pub aligned : obj_start slab (objects_per_slab (class_size idx)) % 8 ≡ 0
  pub behind_table :
      slab + 40 + objects_per_slab (class_size idx) * 4
      ≤ obj_start slab (objects_per_slab (class_size idx))
  pub in_page :
      obj_start slab (objects_per_slab (class_size idx))
        + objects_per_slab (class_size idx) * class_size idx
      ≤ slab + 4096

-- The objects of a slab with `total` objects of `size` bytes, when the sum fits.
roomy :
    (slab total size : ℕ)
    → slab % 4096 ≡ 0
    → slab + 4096 < 2 ^ 64
    → 40 + total * 4 ≤ 4096
    → (47 + total * 4) / 8 * 8 + total * size ≤ 4096
    → (obj_start slab total % 8 ≡ 0)
      × (slab + 40 + total * 4 ≤ obj_start slab total)
      × (obj_start slab total + total * size ≤ slab + 4096)
unfolding obj_start
roomy slab total size aligned low table objects =
    let e = mask_eight (slab + 40 + total * 4 + 8 - 1) (omega arith) in
    (omega (arith, e), omega (arith, e), omega (arith, e))

fits_parts :
    (total size : ℕ)
    → ltb 0 total
        && (leb (40 + total * 4) 4096 && leb ((47 + total * 4) / 8 * 8 + total * size) 4096)
      ≡ true
    → (0 < total) × (40 + total * 4 ≤ 4096) × ((47 + total * 4) / 8 * 8 + total * size ≤ 4096)
fits_parts total size e = (ground arith, ground arith, ground arith)

-- For each of the nine classes and a page of the address space: a slab has an object, its table
-- lies in the page, and its objects begin behind the table at a multiple of 8 and end in the page.
pub class-IsRoomy :
    (slab idx : ℕ) → idx < max_classes → slab % 4096 ≡ 0 → slab + 4096 < 2 ^ 64 → IsRoomy slab idx
unfolding fits
class-IsRoomy slab idx lt aligned low =
    let total = objects_per_slab (class_size idx) in
    let good = all_below_sound 9 fits idx fits_all lt in
    let (pos, table, objects) = fits_parts total (class_size idx) good in
    let (a, b, c) = roomy slab total (class_size idx) aligned low table objects in
    record { some_object = pos; table = table; aligned = a; behind_table = b; in_page = c }

-- The index and the object size of each class.
indexed : ℕ → Bool
indexed idx = class_index (class_size idx) == idx

indexed_all : all_below 9 indexed ≡ true
unfolding all_below indexed class_index trailing_zeros
indexed_all = refl

in_range : ℕ → Bool
in_range size = ltb (class_index (size + 1)) 9

in_range_all : all_below 2048 in_range ≡ true
unfolding all_below in_range class_index trailing_zeros
in_range_all = refl

pub class_index-class_size : (idx : ℕ) → idx < max_classes → class_index (class_size idx) ≡ idx
unfolding indexed
class_index-class_size idx lt = ground (arith, all_below_sound 9 indexed idx indexed_all lt)

-- For every size from 1 to 2048 the index of its cache is one of the nine.
pub class_index-lt : (size : ℕ) → 0 < size → size ≤ max_slab_size → class_index size < max_classes
unfolding in_range
class_index-lt size pos le =
    let e : size - 1 + 1 ≡ size = omega arith in
    ltb→lt (class_index size) 9 (
      subst (λ (k : ℕ). ltb (class_index k) 9 ≡ true) e
        (all_below_sound 2048 in_range (size - 1) in_range_all (omega arith)))
