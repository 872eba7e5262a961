-- ===== src/Allocator/Nodes/Deleting.antt =====
-- `list_del` on a list.
use mathlib.Core.Path.{subst}
use fat32_reimplementation.Base.{
  ℕ, ◌+◌, ◌≡◌, ◌≢◌, ◌⊎◌, inl, inr, refl, sym, ap, ◌∙◌, List, [], ◌∷◌, ◌++◌, All, arith,
}
use fat32_reimplementation.Allocator.Memory.{Memory, store, store-ne}
use fat32_reimplementation.Allocator.Nodes.{list_del, next_of, prev_of}
use fat32_reimplementation.Allocator.Nodes.Ring.{
  Links, Ring, Far, AllFar, Same, Links-Same, Far-sym,
}

-- The neighbours of a node between `before` and `after`.
abbrev pub left : ℕ → List ℕ → ℕ
left a [] = a
left a (b ∷ before) = left b before

abbrev pub right : List ℕ → ℕ → ℕ
right [] stop = stop
right (b ∷ after) stop = b

-- The memory after `list_del`: the neighbours are linked.
abbrev joined : Memory → ℕ → ℕ → Memory
joined m l r = store (store m (next_of l) r) (prev_of r) l

neighbours :
    (m : Memory) (a x stop : ℕ) (before after : List ℕ)
    → Links m a (before ++ x ∷ after) stop
    → (m (prev_of x) ≡ left a before) × (m (next_of x) ≡ right after stop)
neighbours m a x stop [] [] links = (links.0.1, links.1.0)
neighbours m a x stop [] (y ∷ after) links = (links.0.1, links.1.0.0)
neighbours m a x stop (b ∷ before) after links = neighbours m b x stop before after links.1

-- The node's own two words are read after the first write.
list_del-joined :
    (m : Memory) (x l r : ℕ)
    → Far x l
    → m (prev_of x) ≡ l
    → m (next_of x) ≡ r
    → list_del x m ≡ joined m l r
unfolding list_del
list_del-joined m x l r far prev next =
    let m1 = store m (m (x + 8)) (m x) in
    let n1 : m1 x ≡ m x = store-ne m (m (x + 8)) (m x) x (ground arith) in
    let p1 : m1 (x + 8) ≡ m (x + 8) = store-ne m (m (x + 8)) (m x) (x + 8) (ground arith) in
    ap (λ (k : ℕ). store m1 (k + 8) (m1 (x + 8))) (n1 ∙ next)
    ∙ ap (λ (k : ℕ). store m1 (r + 8) k) (p1 ∙ prev)
    ∙ ap (λ (k : ℕ). store (store m k (m x)) (r + 8) l) prev
    ∙ ap (λ (k : ℕ). store (store m l k) (r + 8) l) next

joined-far : (m : Memory) (l r a : ℕ) → a ≢ l → a ≢ r + 8 → joined m l r a ≡ m a
joined-far m l r a h k = ground arith

others :
    (m : Memory) (l r : ℕ) (nodes : List ℕ)
    → All (Far l) nodes
    → All (Far r) nodes
    → All (Same m (joined m l r)) nodes
others m l r [] fl fr = tt
others m l r (k ∷ nodes) fl fr = (
  (
    joined-far m l r k (ground arith) (ground arith),
    joined-far m l r (k + 8) (ground arith) (ground arith),
  ),
  others m l r nodes fl.1 fr.1,
)

-- What stands behind the node.
joined-after :
    (m : Memory) (l x stop : ℕ) (after : List ℕ)
    → AllFar after
    → All (Far l) after
    → All (Far stop) after
    → (l ≡ stop) ⊎ Far l stop
    → Links m x after stop
    → Links (joined m l (right after stop)) l after stop
joined-after m l x stop [] far fl fs apart links = ground arith
joined-after m l x stop (y ∷ after) far fl fs apart links = (
  (ground arith, ground arith),
  Links-Same m (joined m l y) y after stop (joined-far m l y y (ground arith) (ground arith))
      (others m l y after fl.1 far.0) (joined-far m l y (stop + 8) (ground arith) (ground arith))
      links.1,
)

All-split :
    (P : ℕ → Type 0) (before after : List ℕ) (x : ℕ)
    → All P (before ++ x ∷ after)
    → All P before × All P after
All-split P [] after x h = (tt, h.1)
All-split P (b ∷ before) after x h =
    let (front, back) = All-split P before after x h.1 in ((h.0, front), back)

All-left : (P : ℕ → Type 0) (a : ℕ) (before : List ℕ) → P a → All P before → P (left a before)
All-left P a [] h hs = h
All-left P a (b ∷ before) h hs = All-left P b before hs.0 hs.1

All-right :
    (P : ℕ → Type 0) (after : List ℕ) (stop : ℕ) → All P after → P stop → P (right after stop)
All-right P [] stop hs h = h
All-right P (b ∷ after) stop hs h = hs.0

-- The same node, or one that shares no byte.
abbrev Aside : ℕ → ℕ → Type 0
Aside a b = (a ≡ b) ⊎ Far a b

All-Aside : (a : ℕ) (nodes : List ℕ) → All (Far a) nodes → All (Aside a) nodes
All-Aside a [] h = tt
All-Aside a (n ∷ nodes) h = (inr h.0, All-Aside a nodes h.1)

apart_next : (a l r : ℕ) → Far a l → Aside a r → (a ≢ l) × (a ≢ r + 8)
apart_next a l r h k = (ground arith, ground arith)

apart_prev : (b l r : ℕ) → Aside b l → Far b r → (b + 8 ≢ l) × (b + 8 ≢ r + 8)
apart_prev b l r h k = (ground arith, ground arith)

-- The node in front of `x` shares no byte with it.
left-Far :
    (a x : ℕ) (before after : List ℕ) → AllFar (a ∷ (before ++ x ∷ after)) → Far x (left a before)
left-Far a x [] after far = Far-sym a x far.0.0
left-Far a x (b ∷ before) after far = left-Far b x before after far.1

joined-Links :
    (m : Memory) (a x stop : ℕ) (before after : List ℕ)
    → AllFar (before ++ x ∷ after)
    → All (Far a) (before ++ x ∷ after)
    → All (Far stop) (before ++ x ∷ after)
    → Aside a stop
    → Links m a (before ++ x ∷ after) stop
    → Links (joined m (left a before) (right after stop)) a (before ++ after) stop
joined-Links m a x stop [] after far fa fs apart links =
    joined-after m a x stop after far.1 fa.1 fs.1 apart links.1
joined-Links m a x stop (b ∷ before) after far fa fs apart links =
    let l = left b before in
    let r = right after stop in
    let (a_before, a_after) = All-split (Far a) before after x fa.1 in
    let (b_before, b_after) = All-split (Far b) before after x far.0 in
    let b_stop = Far-sym stop b fs.0 in
    let a_l : Far a l = All-left (Far a) b before fa.0 a_before in
    let a_r : Aside a r = All-right (Aside a) after stop (All-Aside a after a_after) apart in
    let b_l : Aside b l = All-left (Aside b) b before (inl refl) (All-Aside b before b_before) in
    let b_r : Far b r = All-right (Far b) after stop b_after b_stop in
    (
      (
        joined-far m l r a (apart_next a l r a_l a_r).0 (apart_next a l r a_l a_r).1 ∙ links.0.0,
        joined-far m l r (b + 8) (apart_prev b l r b_l b_r).0 (apart_prev b l r b_l b_r).1
            ∙ links.0.1,
      ),
      joined-Links m b x stop before after far.1 far.0 fs.1 (inr b_stop) links.1,
    )

-- When no two of the head and the list's nodes share a byte, `list_del` takes the node out of the
-- list and keeps the order of the others.
pub list_del-Ring :
    (m : Memory) (head x : ℕ) (before after : List ℕ)
    → AllFar (head ∷ (before ++ x ∷ after))
    → Ring m head (before ++ x ∷ after)
    → Ring (list_del x m) head (before ++ after)
list_del-Ring m head x before after far ring =
    let (prev, next) = neighbours m head x head before after ring in
    let x_l : Far x (left head before) = left-Far head x before after far in
    subst (λ (m' : Memory). Ring m' head (before ++ after))
      (sym (list_del-joined m x (left head before) (right after head) x_l prev next))
      (joined-Links m head x head before after far.1 far.0 far.0 (inl refl) ring)

-- Taking the first node out, by its two words.
list_del-front :
    (m : Memory) (head x : ℕ) (after : List ℕ)
    → Far x head
    → Ring m head (x ∷ after)
    → list_del x m ≡ joined m head (right after head)
list_del-front m head x after far ring =
    let (prev, next) = neighbours m head x head [] after ring in
    list_del-joined m x head (right after head) far prev next

-- What this leaves alone: other words, and nodes that are far from the two neighbours.
pub list_del-elsewhere :
    (m : Memory) (head x : ℕ) (after : List ℕ) (a : ℕ)
    → Far x head
    → Ring m head (x ∷ after)
    → a ≢ head
    → a ≢ right after head + 8
    → list_del x m a ≡ m a
list_del-elsewhere m head x after a far ring h k =
    ap (λ (m' : Memory). m' a) (list_del-front m head x after far ring)
    ∙ joined-far m head (right after head) a h k

pub list_del-Same :
    (m : Memory) (head x : ℕ) (after away : List ℕ)
    → Far x head
    → Ring m head (x ∷ after)
    → All (Far head) away
    → All (Far (right after head)) away
    → All (Same m (list_del x m)) away
list_del-Same m head x after away far ring h r =
    subst (λ (m' : Memory). All (Same m m') away) (sym (list_del-front m head x after far ring))
      (others m head (right after head) away h r)
