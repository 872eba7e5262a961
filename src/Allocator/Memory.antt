-- ===== src/Allocator/Memory.antt =====
-- The memory behind the raw pointers of src/allocator/slab.rs: a word, of the width of its type, at
-- the address of each field. Fields that do not overlap do not disturb one another.
use fat32_reimplementation.Base.{ℕ, ◌≡◌, ◌≢◌, ◌==◌, if◌then◌else◌, ne→==, ==-eq, refl}

abbrev pub Memory : Type 0
Memory = ℕ → ℕ

abbrev pub null : ℕ
null = 0

-- `*address = value`.
abbrev pub store : Memory → ℕ → ℕ → Memory
store m address value a = if a == address then value else m a

pub store_self : (m : Memory) (a v : ℕ) → store m a v a ≡ v
store_self m a v = rw (==-eq a a refl) refl

pub store-ne : (m : Memory) (a v b : ℕ) → b ≢ a → store m a v b ≡ m b
store-ne m a v b h = rw (ne→== b a h) refl
