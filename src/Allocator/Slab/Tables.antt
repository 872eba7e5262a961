-- ===== src/Allocator/Slab/Tables.antt =====
-- `cache_grow`: the table of a fresh slab.
use mathlib.Core.Path.{subst}
use native.Mathlib.Nat.{mod-eq_of_lt}
use native.Mathlib.Decide.{ℕ_discrete}
use fat32_reimplementation.Base.{
  ℕ, zero, suc, ◌+◌, ◌*◌, ◌%◌, ◌^◌, ◌≤◌, ◌<◌, ◌≡◌, ◌≢◌, ◌⊎◌, inl, refl, sym, ap, ◌∙◌, List, [], ◌∷◌,
  All, length, arith, ◌==◌, ==-eq, ne→==, Bool, if◌then◌else◌,
}
use fat32_reimplementation.Allocator.Memory.{Memory, store, store_self, store-ne}
use fat32_reimplementation.Allocator.Slab.{buf_ctl, buf_ctl_end, fill_table}
use fat32_reimplementation.Allocator.Slab.Objects.{Chain, AllDistinct}

-- What the table says of object `i`.
abbrev pub follower : ℕ → ℕ → ℕ
follower total i = if i + 1 == total then buf_ctl_end else (i + 1) % 2 ^ 32

-- The table is written, and nothing else.
pub fill_table-outside :
    (count i total slab a : ℕ) (m : Memory)
    → (a < slab + 40 + i * 4) ⊎ (slab + 40 + (i + count) * 4 ≤ a)
    → fill_table count i total slab m a ≡ m a
unfolding fill_table
fill_table-outside zero i total slab a m out = refl
fill_table-outside (suc count) i total slab a m out =
    fill_table-outside count (i + 1) total slab a _ (ground arith)
    ∙ store-ne m (buf_ctl slab i) (follower total i) a (ground arith)

pub fill_table-entry :
    (count i total slab j : ℕ) (m : Memory)
    → i ≤ j
    → j < i + count
    → fill_table count i total slab m (buf_ctl slab j) ≡ follower total j
unfolding fill_table
fill_table-entry zero i total slab j m le lt = absurd (omega arith)
fill_table-entry (suc count) i total slab j m le lt = elim (ℕ_discrete j i) [
  | yes same ↦
      subst
        (λ (k : ℕ).
          fill_table count (i + 1) total slab (store m (buf_ctl slab i) (follower total i))
            (buf_ctl slab k)
          ≡ follower total k)
        (sym same)
        (fill_table-outside count (i + 1) total slab (buf_ctl slab i) _ (inl (omega arith))
          ∙ store_self m (buf_ctl slab i) (follower total i))
  | no ne ↦ fill_table-entry count (i + 1) total slab j _ (omega arith) (omega arith)
]

-- The indices from `i` on.
abbrev pub indices : ℕ → ℕ → List ℕ
indices i zero = []
indices i (suc count) = i ∷ indices (i + 1) count

pub length-indices : (i count : ℕ) → length (indices i count) ≡ count
length-indices i zero = refl
length-indices i (suc count) = ap suc (length-indices (i + 1) count)

pub All-indices :
    (P : ℕ → Type 0) (i count : ℕ)
    → ((j : ℕ) → i ≤ j → j < i + count → P j)
    → All P (indices i count)
All-indices P i zero h = tt
All-indices P i (suc count) h = (
  h i (omega arith) (omega arith),
  All-indices P (i + 1) count (λ j lo hi. h j (omega arith) (omega arith)),
)

pub AllDistinct-indices : (i count : ℕ) → AllDistinct (indices i count)
AllDistinct-indices i zero = tt
AllDistinct-indices i (suc count) = (
  All-indices (λ j. i ≢ j) (i + 1) count (λ j lo hi. omega arith),
  AllDistinct-indices (i + 1) count,
)

-- A memory whose table names the followers leads from each index to the end.
Chain-indices :
    (m : Memory) (slab total i count : ℕ)
    → total < 2 ^ 32
    → i + suc count ≡ total
    → ((j : ℕ) → j < total → m (buf_ctl slab j) ≡ follower total j)
    → Chain m slab i (indices i (suc count))
Chain-indices m slab total i zero small e entries = (
  refl,
  entries i (omega arith)
      ∙ ap (λ (b : Bool). if b then buf_ctl_end else (i + 1) % 2 ^ 32)
          (==-eq (i + 1) total (omega arith)),
)
Chain-indices m slab total i (suc count) small e entries =
    let here : m (buf_ctl slab i) ≡ i + 1 =
      entries i (omega arith)
      ∙ ap (λ (b : Bool). if b then buf_ctl_end else (i + 1) % 2 ^ 32)
          (ne→== (i + 1) total (omega arith))
      ∙ mod-eq_of_lt (omega arith) in
    (
      refl,
      subst (λ (k : ℕ). Chain m slab k (indices (i + 1) (suc count))) (sym here)
          (Chain-indices m slab total (i + 1) count small (omega arith) entries),
    )

pub Chain-all :
    (m : Memory) (slab total : ℕ)
    → 0 < total
    → total < 2 ^ 32
    → ((j : ℕ) → j < total → m (buf_ctl slab j) ≡ follower total j)
    → Chain m slab 0 (indices 0 total)
Chain-all m slab zero pos small entries = absurd (omega arith)
Chain-all m slab (suc count) pos small entries =
    Chain-indices m slab (suc count) 0 count small (omega arith) entries
