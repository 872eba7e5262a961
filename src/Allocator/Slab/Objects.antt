-- ===== src/Allocator/Slab/Objects.antt =====
-- The free objects of a slab: a stack of indices, threaded through the table behind the slab.
use mathlib.Core.Path.{subst}
use native.Mathlib.Nat.{mod-eq_of_lt, mul-div_cancel}
use fat32_reimplementation.Base.{
  ℕ, ◌+◌, ◌-◌, ◌*◌, ◌/◌, ◌^◌, ◌≤◌, ◌<◌, ◌≡◌, ◌≢◌, ◌⊎◌, refl, sym, ap, ◌∙◌, List, [], ◌∷◌, All,
  length, Run, done, arith, ltb, ◌==◌, ◌||◌, panic, if◌then◌else◌, le→ltb, ne→==, Bool, false,
}
use fat32_reimplementation.Allocator.Memory.{Memory, store, store-ne}
use fat32_reimplementation.Allocator.Slab.{
  free, inuse, s_mem, buf_ctl, buf_ctl_end, obj_size, take_object, put_object, put_index,
}

-- From index `k` the table leads through the indices of the list to its end.
abbrev pub Chain : Memory → ℕ → ℕ → List ℕ → Type 0
Chain m slab k [] = k ≡ buf_ctl_end
Chain m slab k (i ∷ idle) = (k ≡ i) × Chain m slab (m (buf_ctl slab i)) idle

abbrev pub AllDistinct : List ℕ → Type 0
AllDistinct [] = Unit {0}
AllDistinct (i ∷ idle) = All (λ j. i ≢ j) idle × AllDistinct idle

-- A slab of a cache with `total` objects of `size` bytes from `base` on, of which those of the list
-- are free, the first one to be taken next.
pub record IsSlab (m : Memory) (slab cache base size total : ℕ) (idle : List ℕ) : Type 0 where
  pub chain : Chain m slab (m (free slab)) idle
  pub distinct : AllDistinct idle
  pub known : All (λ i. i < total) idle
  pub counted : length idle + m (inuse slab) ≡ total
  pub based : m (s_mem slab) ≡ base
  pub sized : m (obj_size cache) ≡ size

-- The table lies in the slab's page, and the cache elsewhere.
pub record IsPlaced (slab cache total : ℕ) : Type 0 where
  pub table : 40 + total * 4 ≤ 4096
  pub elsewhere : (cache + 80 ≤ slab) ⊎ (slab + 4096 ≤ cache)

-- A memory with the same table entries.
Chain-Same :
    (m m' : Memory) (slab k : ℕ) (idle : List ℕ)
    → All (λ i. m' (buf_ctl slab i) ≡ m (buf_ctl slab i)) idle
    → Chain m slab k idle
    → Chain m' slab k idle
Chain-Same m m' slab k [] same chain = chain
Chain-Same m m' slab k (i ∷ idle) same chain = (
  chain.0,
  subst (λ (j : ℕ). Chain m' slab j idle) (sym same.0)
      (Chain-Same m m' slab (m (buf_ctl slab i)) idle same.1 chain.1),
)

-- A write in front of the table.
head_Same :
    (m : Memory) (slab a v : ℕ) (idle : List ℕ)
    → a < slab + 40
    → All (λ i. store m a v (buf_ctl slab i) ≡ m (buf_ctl slab i)) idle
head_Same m slab a v [] lt = tt
head_Same m slab a v (i ∷ idle) lt =
    (store-ne m a v (buf_ctl slab i) (omega arith), head_Same m slab a v idle lt)

-- A write to the entry of another index.
entry_Same :
    (m : Memory) (slab i v : ℕ) (idle : List ℕ)
    → All (λ j. i ≢ j) idle
    → All (λ j. store m (buf_ctl slab i) v (buf_ctl slab j) ≡ m (buf_ctl slab j)) idle
entry_Same m slab i v [] ne = tt
entry_Same m slab i v (j ∷ idle) ne = (
  store-ne m (buf_ctl slab i) v (buf_ctl slab j) (omega (arith, ne.0)),
  entry_Same m slab i v idle ne.1,
)

table_Same :
    (m m' : Memory) (slab total : ℕ) (idle : List ℕ)
    → 40 + total * 4 ≤ 4096
    → ((a : ℕ) → slab + 16 ≤ a → a < slab + 4096 → m' a ≡ m a)
    → All (λ i. i < total) idle
    → All (λ i. m' (buf_ctl slab i) ≡ m (buf_ctl slab i)) idle
table_Same m m' slab total [] fits same known = tt
table_Same m m' slab total (i ∷ idle) fits same known = (
  same (buf_ctl slab i) (omega arith) (omega (arith, known.0)),
  table_Same m m' slab total idle fits same known.1,
)

-- A slab in a memory with the same words behind the slab's list node and the same cache.
pub IsSlab-Same :
    (m m' : Memory) (slab cache base size total : ℕ) (idle : List ℕ)
    → IsPlaced slab cache total
    → ((a : ℕ) → slab + 16 ≤ a → a < slab + 4096 → m' a ≡ m a)
    → m' (obj_size cache) ≡ m (obj_size cache)
    → IsSlab m slab cache base size total idle
    → IsSlab m' slab cache base size total idle
IsSlab-Same m m' slab cache base size total idle placed same same_size s = record {
  chain =
      subst (λ (k : ℕ). Chain m' slab k idle)
        (sym (same (free slab) (omega arith) (omega (arith, placed.table))))
        (Chain-Same m m' slab (m (free slab)) idle
          (table_Same m m' slab total idle placed.table same s.known) s.chain);
  distinct = s.distinct;
  known = s.known;
  counted =
      ap (λ (k : ℕ). length idle + k) (same (inuse slab) (omega arith) (omega arith)) ∙ s.counted;
  based = same (s_mem slab) (omega arith) (omega arith) ∙ s.based;
  sized = same_size ∙ s.sized;
}

abbrev put_word : ℕ → Memory → Run Memory
put_word slab m2 =
    if m2 (inuse slab) == 0 then panic else done (store m2 (inuse slab) (m2 (inuse slab) - 1))

-- The memory after the object of index `i` is taken.
abbrev taken : Memory → ℕ → ℕ → Memory
taken m slab i =
    let m1 = store m (free slab) (m (buf_ctl slab i)) in store m1 (inuse slab) (m1 (inuse slab) + 1)

-- The memory after it is put back.
abbrev freed : Memory → ℕ → ℕ → Memory
freed m slab i =
    let m1 = store m (buf_ctl slab i) (m (free slab)) in
    let m2 = store m1 (free slab) i in store m2 (inuse slab) (m2 (inuse slab) - 1)

module _ (m : Memory) (slab cache base size total i : ℕ) (idle : List ℕ) where
  taken-IsSlab :
      IsPlaced slab cache total
      → IsSlab m slab cache base size total (i ∷ idle)
      → IsSlab (taken m slab i) slab cache base size total idle
  taken-IsSlab placed s =
      let entry = m (buf_ctl slab i) in
      let m1 = store m (free slab) entry in
      record {
        chain =
            subst (λ (k : ℕ). Chain (taken m slab i) slab k idle) (ground arith)
              (Chain-Same m1 (taken m slab i) slab entry idle
                (head_Same m1 slab (inuse slab) (m1 (inuse slab) + 1) idle (omega arith))
                (Chain-Same m m1 slab entry idle
                  (head_Same m slab (free slab) entry idle (omega arith)) s.chain.1));
        distinct = s.distinct.1;
        known = s.known.1;
        counted = ground (arith, s.counted);
        based = ground (arith, s.based);
        sized = ground (arith, s.sized, placed.elsewhere);
      }

  -- When object `i` is the first free one of a slab, `take_object` returns its address, and the
  -- other free objects stay, in their order.
  pub take_object-IsSlab :
      IsPlaced slab cache total
      → IsSlab m slab cache base size total (i ∷ idle)
      → (m' : Memory) × (take_object slab cache m ≡ (base + i * size, m'))
        × IsSlab m' slab cache base size total idle
  unfolding take_object
  take_object-IsSlab placed s = (
    taken m slab i,
    ap (λ (k : ℕ). (m (s_mem slab) + k * m (obj_size cache), taken m slab k)) s.chain.0
        ∙ ap (λ (b : ℕ). (b + i * m (obj_size cache), taken m slab i)) s.based
        ∙ ap (λ (z : ℕ). (base + i * z, taken m slab i)) s.sized,
    taken-IsSlab placed s,
  )

  freed-IsSlab :
      IsPlaced slab cache total
      → i < total
      → All (λ j. i ≢ j) idle
      → length idle < total
      → IsSlab m slab cache base size total idle
      → IsSlab (freed m slab i) slab cache base size total (i ∷ idle)
  freed-IsSlab placed lt fresh room s =
      let m1 = store m (buf_ctl slab i) (m (free slab)) in
      let m2 = store m1 (free slab) i in
      let entry : freed m slab i (buf_ctl slab i) ≡ m (free slab) = ground arith in
      record {
        chain = (
          ground arith,
          subst (λ (k : ℕ). Chain (freed m slab i) slab k idle) (sym entry)
              (Chain-Same m2 (freed m slab i) slab (m (free slab)) idle
                (head_Same m2 slab (inuse slab) (m2 (inuse slab) - 1) idle (omega arith))
                (Chain-Same m1 m2 slab (m (free slab)) idle
                  (head_Same m1 slab (free slab) i idle (omega arith))
                  (Chain-Same m m1 slab (m (free slab)) idle
                    (entry_Same m slab i (m (free slab)) idle fresh) s.chain))),
        );
        distinct = (fresh, s.distinct);
        known = (lt, s.known);
        counted = ground (arith, s.counted, room);
        based = ground (arith, s.based);
        sized = ground (arith, s.sized, placed.elsewhere, placed.table, lt);
      }

  put_index-freed :
      i < 2 ^ 32
      → IsPlaced slab cache total
      → i < total
      → 0 < m (inuse slab)
      → put_index slab i m ≡ done (freed m slab i)
  unfolding put_index
  put_index-freed word placed lt used =
      let m1 = store m (buf_ctl slab i) (m (free slab)) in
      let m2 = store m1 (free slab) i in
      let kept : m2 (inuse slab) ≢ 0 = ground arith in
      ap (λ (k : ℕ). put_word slab (store m1 (free slab) k)) (mod-eq_of_lt word)
      ∙ ap (λ (b : Bool). if b then panic else done (freed m slab i))
          (ne→== (m2 (inuse slab)) 0 kept)

  object_index :
      0 < size
      → IsSlab m slab cache base size total idle
      → (base + i * size - m (s_mem slab)) / m (obj_size cache) ≡ i
  object_index pos s =
      let along : base + i * size - m (s_mem slab) ≡ i * size = omega (arith, s.based) in
      ap (λ (k : ℕ). k / m (obj_size cache)) along
      ∙ ap (λ (k : ℕ). i * size / k) s.sized
      ∙ mul-div_cancel i pos

  guard :
      0 < size
      → IsSlab m slab cache base size total idle
      → ltb (base + i * size) (m (s_mem slab)) || m (obj_size cache) == 0 ≡ false
  guard pos s =
      rw
        (
          le→ltb (base + i * size) (m (s_mem slab)) (omega (arith, s.based)),
          ne→== (m (obj_size cache)) 0 (omega (arith, s.sized)),
        )
        refl

  -- When object `i` of a slab is in use, objects have a size above 0, the table lies in the page
  -- and the cache elsewhere: `put_object` at its address does not panic, and the object is then
  -- the first free one, in front of the others; the slab's list node and the words outside of its
  -- page are as before.
  pub put_object-IsSlab :
      IsPlaced slab cache total
      → 0 < size
      → i < total
      → All (λ j. i ≢ j) idle
      → length idle < total
      → IsSlab m slab cache base size total idle
      → (m' : Memory) × (put_object (base + i * size) slab cache m ≡ done m')
        × IsSlab m' slab cache base size total (i ∷ idle)
        × ((a : ℕ) → (a < slab + 16) ⊎ (slab + 4096 ≤ a) → m' a ≡ m a)
  unfolding put_object
  put_object-IsSlab placed pos lt fresh room s = (
    freed m slab i,
    ap
          (λ (b : Bool).
            if b
            then panic
            else put_index slab ((base + i * size - m (s_mem slab)) / m (obj_size cache)) m)
          (guard pos s)
        ∙ ap (λ (k : ℕ). put_index slab k m) (object_index pos s)
        ∙ put_index-freed (omega (arith, placed.table)) placed lt (omega (arith, s.counted, room)),
    freed-IsSlab placed lt fresh room s,
    λ a out. ground (arith, placed.table, lt),
  )
