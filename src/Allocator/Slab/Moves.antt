-- ===== src/Allocator/Slab/Moves.antt =====
-- A slab that goes from one list of its cache to another.
use fat32_reimplementation.Base.{
  All-map, ℕ, ◌+◌, ◌≤◌, ◌<◌, ◌≡◌, ◌≢◌, refl, ◌⊎◌, sym, ap, ◌∙◌, List, ◌∷◌, All, arith, ==-eq, ne→==,
  Bool, if◌then◌else◌,
}
use fat32_reimplementation.Allocator.Memory.{Memory}
use fat32_reimplementation.Allocator.Nodes.{list_add, list_del}
use fat32_reimplementation.Allocator.Nodes.Ring.{Ring, Same}
use fat32_reimplementation.Allocator.Nodes.Moving.{AreApart, move-elsewhere}
use fat32_reimplementation.Allocator.Slab.{
  settle_put, free, inuse, num, obj_size, settle_taken, slabs_full, slabs_partial, slabs_free,
  take_object,
}
use fat32_reimplementation.Allocator.Slab.Objects.{IsSlab, IsSlab-Same, IsPlaced}
use fat32_reimplementation.Allocator.Slab.Growing.{Outside}

-- `take_object` writes two words of the slab.
pub take_object-elsewhere :
    (m m' : Memory) (slab cache obj a : ℕ)
    → take_object slab cache m ≡ (obj, m')
    → a ≢ free slab
    → a ≢ inuse slab
    → m' a ≡ m a
unfolding take_object
take_object-elsewhere m m' slab cache obj a e h k =
    sym (ap (λ (p : ℕ × Memory). p.1 a) e) ∙ ground arith

pub take_object-Same :
    (m m' : Memory) (slab cache obj : ℕ) (nodes : List ℕ)
    → take_object slab cache m ≡ (obj, m')
    → All (Outside slab) nodes
    → All (Same m m') nodes
take_object-Same m m' slab cache obj nodes e out =
    All-map (Outside slab) (Same m m') nodes
      (λ n h. (
        take_object-elsewhere m m' slab cache obj n e (ground arith) (ground arith),
        take_object-elsewhere m m' slab cache obj (n + 8) e (ground arith) (ground arith),
      ))
      out

pub settle_taken-full :
    (slab cache : ℕ) (m : Memory)
    → m (inuse slab) ≡ m (num cache)
    → settle_taken slab cache m ≡ list_add slab (slabs_full cache) (list_del slab m)
unfolding settle_taken
settle_taken-full slab cache m e =
    ap (λ (b : Bool). if b then list_add slab (slabs_full cache) (list_del slab m) else m)
      (==-eq (m (inuse slab)) (m (num cache)) e)

-- A node that lies neither in the slab's page nor in the cache.
abbrev pub IsClear : ℕ → ℕ → ℕ → Type 0
IsClear slab cache n = Outside slab n × ((cache + 80 ≤ n) ⊎ (n + 16 ≤ cache))

-- A word that is in no node.
abbrev IsAway : ℕ → ℕ → Type 0
IsAway a n = (a ≢ n) × (a ≢ n + 8)

module _ (slab cache total : ℕ) (placed : IsPlaced slab cache total) where
  page_outside :
      (a : ℕ) (nodes : List ℕ)
      → slab + 16 ≤ a
      → a < slab + 4096
      → All (IsClear slab cache) nodes
      → All (IsAway a) nodes
  page_outside a nodes lo hi clear =
      All-map (IsClear slab cache) (IsAway a) nodes (λ n h. (ground arith, ground arith)) clear

  size_outside :
      (nodes : List ℕ) → All (IsClear slab cache) nodes → All (IsAway (obj_size cache)) nodes
  size_outside nodes clear =
      All-map (IsClear slab cache) (IsAway (obj_size cache)) nodes
        (λ n h. (ground arith, ground arith)) clear

  -- The slab moves from one list of the cache to another.
  module _ (m : Memory) (from to : ℕ) (nodes others : List ℕ)
      (from_head : (cache ≤ from) × (from ≤ cache + 32))
      (to_head : (cache ≤ to) × (to ≤ cache + 32)) (apart : AreApart from slab nodes to others)
      (ring : Ring m from (slab ∷ nodes)) (ring' : Ring m to others)
      (clear : All (IsClear slab cache) nodes) (clear' : All (IsClear slab cache) others) where
    pub moved-IsSlab :
        (base size : ℕ) (idle : List ℕ)
        → IsSlab m slab cache base size total idle
        → IsSlab (list_add slab to (list_del slab m)) slab cache base size total idle
    moved-IsSlab base size idle s =
        IsSlab-Same m (list_add slab to (list_del slab m)) slab cache base size total idle placed
          (λ a lo hi.
            move-elsewhere m from slab nodes to others apart ring ring' a
              (
                (ground (arith, placed.elsewhere), ground (arith, placed.elsewhere)),
                ((omega arith, omega arith), page_outside a nodes lo hi clear),
              )
              (
                (ground (arith, placed.elsewhere), ground (arith, placed.elsewhere)),
                page_outside a others lo hi clear',
              ))
          (move-elsewhere m from slab nodes to others apart ring ring' (obj_size cache)
            (
              (omega arith, omega arith),
              (
                (ground (arith, placed.elsewhere), ground (arith, placed.elsewhere)),
                size_outside nodes clear,
              ),
            )
            ((omega arith, omega arith), size_outside others clear'))
          s

    pub moved-num : list_add slab to (list_del slab m) (num cache) ≡ m (num cache)
    moved-num =
        let outer = λ (ns : List ℕ) (h : All (IsClear slab cache) ns).
          All-map (IsClear slab cache) (IsAway (num cache)) ns (λ n k. (ground arith, ground arith))
            h in
        move-elsewhere m from slab nodes to others apart ring ring' (num cache)
          (
            (omega arith, omega arith),
            (
              (ground (arith, placed.elsewhere), ground (arith, placed.elsewhere)),
              outer nodes clear,
            ),
          )
          ((omega arith, omega arith), outer others clear')

pub settle_put-partial :
    (slab cache : ℕ) (m : Memory)
    → m (inuse slab) + 1 ≡ m (num cache)
    → settle_put slab cache m ≡ list_add slab (slabs_partial cache) (list_del slab m)
unfolding settle_put
settle_put-partial slab cache m e =
    rw (settle_put, ==-eq (m (inuse slab) + 1) (m (num cache)) e) refl

pub settle_put-free :
    (slab cache : ℕ) (m : Memory)
    → m (inuse slab) + 1 ≢ m (num cache)
    → m (inuse slab) ≡ 0
    → settle_put slab cache m ≡ list_add slab (slabs_free cache) (list_del slab m)
unfolding settle_put
settle_put-free slab cache m ne e =
    rw (settle_put, ne→== (m (inuse slab) + 1) (m (num cache)) ne, ==-eq (m (inuse slab)) 0 e) refl
