-- ===== src/Allocator/Nodes/Adding.antt =====
-- `list_add` on a list.
use mathlib.Core.Path.{subst}
use fat32_reimplementation.Base.{ℕ, ◌+◌, ◌≡◌, ◌≢◌, sym, ap, ◌∙◌, List, [], ◌∷◌, All, arith}
use fat32_reimplementation.Allocator.Memory.{Memory, store, store-ne}
use fat32_reimplementation.Allocator.Nodes.{list_add, next_of, prev_of}
use fat32_reimplementation.Allocator.Nodes.Ring.{Ring, Far, AllFar, Same, Links-Same}

-- The node that follows the head: the head itself in an empty list.
abbrev pub first : ℕ → List ℕ → ℕ
first head [] = head
first head (n ∷ nodes) = n

first-Ring :
    (m : Memory) (head : ℕ) (nodes : List ℕ)
    → Ring m head nodes
    → m (next_of head) ≡ first head nodes
first-Ring m head [] r = r.0
first-Ring m head (n ∷ nodes) r = r.0.0

-- The memory after `list_add`, by its four words.
abbrev added : Memory → ℕ → ℕ → ℕ → Memory
added m entry head n =
    store (store (store (store m (next_of entry) n) (prev_of entry) head) (prev_of n) entry)
      (next_of head) entry

list_add-added :
    (m : Memory) (entry head : ℕ)
    → Far entry head
    → list_add entry head m ≡ added m entry head (m (next_of head))
unfolding list_add
list_add-added m entry head far =
    ap
      (λ (n : ℕ).
        store (store (store (store m entry (m head)) (entry + 8) head) (n + 8) entry) head entry)
      (store-ne (store m entry (m head)) (entry + 8) head head (ground arith)
        ∙ store-ne m entry (m head) head (ground arith))

added-far :
    (m : Memory) (entry head n a : ℕ)
    → a ≢ entry
    → a ≢ entry + 8
    → a ≢ n + 8
    → a ≢ head
    → added m entry head n a ≡ m a
added-far m entry head n a h1 h2 h3 h4 = ground arith

-- The fields of the other nodes stay.
others :
    (m : Memory) (entry head n : ℕ) (nodes : List ℕ)
    → All (Far entry) nodes
    → All (Far head) nodes
    → All (Far n) nodes
    → All (Same m (added m entry head n)) nodes
others m entry head n [] e h f = tt
others m entry head n (k ∷ nodes) e h f = (
  (
    added-far m entry head n k (ground arith) (ground arith) (ground arith) (ground arith),
    added-far m entry head n (k + 8) (ground arith) (ground arith) (ground arith) (ground arith),
  ),
  others m entry head n nodes e.1 h.1 f.1,
)

added-Ring :
    (m : Memory) (entry head : ℕ) (nodes : List ℕ)
    → AllFar (entry ∷ head ∷ nodes)
    → Ring m head nodes
    → Ring (added m entry head (first head nodes)) head (entry ∷ nodes)
added-Ring m entry head [] far r = ground arith
added-Ring m entry head (n ∷ nodes) far r = (
  (ground arith, ground arith),
  (
    (ground arith, ground arith),
    Links-Same m (added m entry head n) n nodes head
        (added-far m entry head n n (ground arith) (ground arith) (ground arith) (ground arith))
        (others m entry head n nodes far.0.1.1 far.1.0.1 far.1.1.0)
        (added-far m entry head n (head + 8) (ground arith) (ground arith) (ground arith)
          (ground arith))
        r.1,
  ),
)

-- What `list_add` leaves alone.
pub list_add-elsewhere :
    (m : Memory) (entry head : ℕ) (nodes : List ℕ) (a : ℕ)
    → AllFar (entry ∷ head ∷ nodes)
    → Ring m head nodes
    → a ≢ entry
    → a ≢ entry + 8
    → a ≢ first head nodes + 8
    → a ≢ head
    → list_add entry head m a ≡ m a
list_add-elsewhere m entry head nodes a far r h1 h2 h3 h4 =
    ap (λ (m' : Memory). m' a)
      (list_add-added m entry head far.0.0 ∙ ap (added m entry head) (first-Ring m head nodes r))
    ∙ added-far m entry head (first head nodes) a h1 h2 h3 h4

-- Nor does it touch the nodes that are far from these.
pub list_add-Same :
    (m : Memory) (entry head : ℕ) (nodes away : List ℕ)
    → AllFar (entry ∷ head ∷ nodes)
    → Ring m head nodes
    → All (Far entry) away
    → All (Far head) away
    → All (Far (first head nodes)) away
    → All (Same m (list_add entry head m)) away
list_add-Same m entry head nodes away far r e h f =
    subst (λ (m' : Memory). All (Same m m') away)
      (sym
        (list_add-added m entry head far.0.0 ∙ ap (added m entry head) (first-Ring m head nodes r)))
      (others m entry head (first head nodes) away e h f)

-- When no two of the entry, the head and the list's nodes share a byte, `list_add` puts the entry
-- at the front of the list.
pub list_add-Ring :
    (m : Memory) (entry head : ℕ) (nodes : List ℕ)
    → AllFar (entry ∷ head ∷ nodes)
    → Ring m head nodes
    → Ring (list_add entry head m) head (entry ∷ nodes)
list_add-Ring m entry head nodes far r =
    subst (λ (m' : Memory). Ring m' head (entry ∷ nodes))
      (sym
        (list_add-added m entry head far.0.0 ∙ ap (added m entry head) (first-Ring m head nodes r)))
      (added-Ring m entry head nodes far r)
