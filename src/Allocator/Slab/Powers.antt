-- ===== src/Allocator/Slab/Powers.antt =====
-- The object sizes that `get_or_create_cache` rounds up to.
use mathlib.Core.Path.{subst}
use fat32_reimplementation.Base.{
  ℕ, ◌+◌, ◌-◌, ◌≤◌, ◌<◌, ◌≡◌, refl, ap, Bool, true, false, leb, ◌==◌, max, arith, Run, done, panic,
  out_of_fuel, if◌then◌else◌,
}
use fat32_reimplementation.Allocator.Slab.{
  next_power_of_two, next_power_from, max_slab_size, max_classes,
}
use fat32_reimplementation.Allocator.Slab.Classes.{all_below, all_below_sound, class_size}

-- The class whose objects have room for a size.
unfoldable pub room_class : ℕ → ℕ
room_class size =
    if leb size 8
    then 0
    else if leb size 16
    then 1
    else if leb size 32
    then 2
    else if leb size 64
    then 3
    else if leb size 128
    then 4
    else if leb size 256
    then 5
    else if leb size 512
    then 6
    else if leb size 1024
    then 7
    else 8

is_done : Run ℕ → ℕ → Bool
is_done (done p) n = p == n
is_done panic n = false
is_done out_of_fuel n = false

is_done_sound : (r : Run ℕ) (n : ℕ) → is_done r n ≡ true → r ≡ done n
unfolding is_done
is_done_sound (done p) n e = ap (λ (k : ℕ). Run.done k) (ground (arith, e))
is_done_sound panic n e = ground (arith, e)
is_done_sound out_of_fuel n e = ground (arith, e)

rounded : ℕ → Bool
rounded size = is_done (next_power_of_two (max (size + 1) 8)) (class_size (room_class (size + 1)))

rounded_all : all_below 2048 rounded ≡ true
unfolding all_below rounded is_done next_power_of_two next_power_from room_class
rounded_all = refl

-- For every size from 1 to 2048, `next_power_of_two` of the size and 8 does not panic: it is the
-- object size of one of the nine classes, and the size fits.
pub next_power_of_two-class :
    (size : ℕ)
    → 0 < size
    → size ≤ max_slab_size
    → (next_power_of_two (max size 8) ≡ done (class_size (room_class size)))
      × (room_class size < max_classes)
      × (size ≤ class_size (room_class size))
unfolding room_class rounded
next_power_of_two-class size pos le =
    let e : size - 1 + 1 ≡ size = omega arith in
    (
      subst (λ (k : ℕ). next_power_of_two (max k 8) ≡ done (class_size (room_class k))) e
          (is_done_sound _ _ (all_below_sound 2048 rounded (size - 1) rounded_all (omega arith))),
      ground arith,
      ground arith,
    )
