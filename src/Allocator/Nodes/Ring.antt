-- ===== src/Allocator/Nodes/Ring.antt =====
-- Which nodes a list holds.
use fat32_reimplementation.Base.{
  ℕ, ◌+◌, ◌≤◌, ◌≡◌, ◌⊎◌, ◌↔◌, inl, inr, refl, ◌∙◌, List, [], ◌∷◌, All, true, arith, ==-eq,
}
use fat32_reimplementation.Allocator.Memory.{Memory}
use fat32_reimplementation.Allocator.Nodes.{init, list_empty, next_of, prev_of}

-- From node `a` the links lead through `nodes` to `stop`, forwards by `next` and back by `prev`.
abbrev pub Links : Memory → ℕ → List ℕ → ℕ → Type 0
Links m a [] stop = (m (next_of a) ≡ stop) × (m (prev_of stop) ≡ a)
Links m a (n ∷ nodes) stop = ((m (next_of a) ≡ n) × (m (prev_of n) ≡ a)) × Links m n nodes stop

-- The list behind `head` holds `nodes`, in this order.
abbrev pub Ring : Memory → ℕ → List ℕ → Type 0
Ring m head nodes = Links m head nodes head

-- Two nodes share no byte.
abbrev pub Far : ℕ → ℕ → Type 0
Far a b = (a + 16 ≤ b) ⊎ (b + 16 ≤ a)

-- The nodes of a list share no byte.
abbrev pub AllFar : List ℕ → Type 0
AllFar [] = Unit {0}
AllFar (a ∷ nodes) = All (Far a) nodes × AllFar nodes

pub Far-sym : (a b : ℕ) → Far a b → Far b a
Far-sym a b (inl h) = inr h
Far-sym a b (inr h) = inl h

-- A memory with the same words in the fields that a chain of links reads.
abbrev pub Same : Memory → Memory → ℕ → Type 0
Same m m' n = (m' (next_of n) ≡ m (next_of n)) × (m' (prev_of n) ≡ m (prev_of n))

pub Links-Same :
    (m m' : Memory) (a : ℕ) (nodes : List ℕ) (stop : ℕ)
    → m' (next_of a) ≡ m (next_of a)
    → All (Same m m') nodes
    → m' (prev_of stop) ≡ m (prev_of stop)
    → Links m a nodes stop
    → Links m' a nodes stop
Links-Same m m' a [] stop first same last (next, prev) = (first ∙ next, last ∙ prev)
Links-Same m m' a (n ∷ nodes) stop first same last ((next, prev), rest) =
    ((first ∙ next, same.0.1 ∙ prev), Links-Same m m' n nodes stop same.0.0 same.1 last rest)

pub init-Ring : (head : ℕ) (m : Memory) → Ring (init head m) head []
unfolding init
init-Ring head m = ground arith

-- `list_empty` tells an empty list from one whose nodes are not its head.
pub list_empty-Ring :
    (m : Memory) (head : ℕ) (nodes : List ℕ)
    → All (Far head) nodes
    → Ring m head nodes
    → (list_empty head m ≡ true) ↔ (nodes ≡ [])
unfolding list_empty
list_empty-Ring m head [] far ring = (λ e. refl, λ e. rw (ring.0) (==-eq head head refl))
list_empty-Ring m head (n ∷ nodes) far ring = (λ e. absurd (ground arith), λ e. cc)
