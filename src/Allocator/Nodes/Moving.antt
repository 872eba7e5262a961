-- ===== src/Allocator/Nodes/Moving.antt =====
-- A node that goes from the front of one list to the front of another.
use fat32_reimplementation.Base.{All-map, ℕ, ◌+◌, ◌≡◌, ◌≢◌, ◌∙◌, List, [], ◌∷◌, All}
use fat32_reimplementation.Allocator.Memory.{Memory}
use fat32_reimplementation.Allocator.Nodes.{list_add, list_del}
use fat32_reimplementation.Allocator.Nodes.Ring.{Ring, Far, Far-sym, AllFar, Same, Links-Same}
use fat32_reimplementation.Allocator.Nodes.Adding.{
  first, list_add-Ring, list_add-Same, list_add-elsewhere,
}
use fat32_reimplementation.Allocator.Nodes.Deleting.{
  right, list_del-Ring, list_del-Same, list_del-elsewhere,
}

-- The nodes of two lists share no byte: `from`, which begins with `x`, and `to`.
pub record AreApart (from x : ℕ) (nodes : List ℕ) (to : ℕ) (others : List ℕ) : Type 0 where
  pub first_list : AllFar (from ∷ x ∷ nodes)
  pub second_list : AllFar (to ∷ others)
  pub between : All (λ b. All (Far b) (from ∷ x ∷ nodes)) (to ∷ others)

not_first :
    (a head : ℕ) (nodes : List ℕ)
    → All (λ n. (a ≢ n) × (a ≢ n + 8)) (head ∷ nodes)
    → a ≢ first head nodes + 8
not_first a head [] out = out.0.1
not_first a head (n ∷ nodes) out = out.1.0.1

not_right :
    (a stop : ℕ) (nodes : List ℕ)
    → All (λ n. (a ≢ n) × (a ≢ n + 8)) (stop ∷ nodes)
    → a ≢ right nodes stop + 8
not_right a stop [] out = out.0.1
not_right a stop (n ∷ nodes) out = out.1.0.1

module _ (m : Memory) (from x : ℕ) (nodes : List ℕ) (to : ℕ) (others : List ℕ)
    (apart : AreApart from x nodes to others) (ring : Ring m from (x ∷ nodes))
    (ring' : Ring m to others) where
  x_from : Far x from
  x_from = Far-sym from x apart.first_list.0.0

  head_apart : All (Far from) (to ∷ others)
  head_apart =
      All-map (λ b. All (Far b) (from ∷ x ∷ nodes)) (Far from) (to ∷ others)
        (λ b h. Far-sym b from h.0) apart.between

  node_apart : All (Far x) (to ∷ others)
  node_apart =
      All-map (λ b. All (Far b) (from ∷ x ∷ nodes)) (Far x) (to ∷ others) (λ b h. Far-sym b x h.1.0)
        apart.between

  right_apart :
      (ns : List ℕ)
      → All (λ b. All (Far b) (from ∷ x ∷ ns)) (to ∷ others)
      → All (Far (right ns from)) (to ∷ others)
  right_apart [] h =
      All-map (λ b. All (Far b) (from ∷ x ∷ [])) (Far from) (to ∷ others)
        (λ b k. Far-sym b from k.0) h
  right_apart (n ∷ ns) h =
      All-map (λ b. All (Far b) (from ∷ x ∷ n ∷ ns)) (Far n) (to ∷ others)
        (λ b k. Far-sym b n k.1.1.0) h

  first_apart :
      (bs : List ℕ)
      → All (λ b. All (Far b) (from ∷ x ∷ nodes)) (to ∷ bs)
      → All (Far (first to bs)) (from ∷ nodes)
  first_apart [] h = (h.0.0, h.0.1.1)
  first_apart (b ∷ bs) h = (h.1.0.0, h.1.0.1.1)

  node_leaves : All (Far x) (from ∷ nodes)
  node_leaves = (x_from, apart.first_list.1.0)

  deleted : All (Same m (list_del x m)) (to ∷ others)
  deleted =
      list_del-Same m from x nodes (to ∷ others) x_from ring head_apart
        (right_apart nodes apart.between)

  deleted_second : Ring (list_del x m) to others
  deleted_second = Links-Same m (list_del x m) to others to deleted.0.0 deleted.1 deleted.0.1 ring'

  deleted_first : Ring (list_del x m) from nodes
  deleted_first = list_del-Ring m from x [] nodes apart.first_list ring

  entering : AllFar (x ∷ to ∷ others)
  entering = (node_apart, apart.second_list)

  -- The node leaves its list and is the first one of the other; the other nodes stay, in their order.
  pub move-Ring :
      Ring (list_add x to (list_del x m)) from nodes
      × Ring (list_add x to (list_del x m)) to (x ∷ others)
  move-Ring =
      let m1 = list_del x m in
      let same =
        list_add-Same m1 x to others (from ∷ nodes) entering deleted_second node_leaves
          (apart.between.0.0, apart.between.0.1.1) (first_apart others apart.between) in
      (
        Links-Same m1 (list_add x to m1) from nodes from same.0.0 same.1 same.0.1 deleted_first,
        list_add-Ring m1 x to others entering deleted_second,
      )

  -- A word that is in no node stays.
  pub move-elsewhere :
      (a : ℕ)
      → All (λ n. (a ≢ n) × (a ≢ n + 8)) (from ∷ x ∷ nodes)
      → All (λ n. (a ≢ n) × (a ≢ n + 8)) (to ∷ others)
      → list_add x to (list_del x m) a ≡ m a
  move-elsewhere a out out' =
      list_add-elsewhere (list_del x m) x to others a entering deleted_second out.1.0.0 out.1.0.1
        (not_first a to others out') out'.0.0
      ∙ list_del-elsewhere m from x nodes a x_from ring out.0.0
          (not_right a from nodes (out.0, out.1.1))
