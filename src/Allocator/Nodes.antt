-- ===== src/Allocator/Nodes.antt =====
-- src/allocator/slab.rs: the circular doubly linked lists. A `ListNode` has its `next` field at its
-- address, and `prev` 8 bytes behind.
pub mod Ring
pub mod Adding
pub mod Deleting
pub mod Moving
use fat32_reimplementation.Base.{ℕ, ◌+◌, Bool, ◌==◌}
use fat32_reimplementation.Allocator.Memory.{Memory, null, store}

-- `size_of::<ListNode>()`.
abbrev pub list_node_size : ℕ
list_node_size = 16

abbrev pub next_of : ℕ → ℕ
next_of node = node

abbrev pub prev_of : ℕ → ℕ
prev_of node = node + 8

-- The node `ListNode::new()` is written.
abbrev pub clear : ℕ → Memory → Memory
clear node m = store (store m (next_of node) null) (prev_of node) null

-- `ListNode::init`.
unfoldable pub init : ℕ → Memory → Memory
init node m = store (store m (next_of node) node) (prev_of node) node

unfoldable pub list_add : ℕ → ℕ → Memory → Memory
list_add entry head m =
    let m1 = store m (next_of entry) (m (next_of head)) in
    let m2 = store m1 (prev_of entry) head in
    let m3 = store m2 (prev_of (m2 (next_of head))) entry in store m3 (next_of head) entry

unfoldable pub list_del : ℕ → Memory → Memory
list_del entry m =
    let m1 = store m (next_of (m (prev_of entry))) (m (next_of entry)) in
    store m1 (prev_of (m1 (next_of entry))) (m1 (prev_of entry))

unfoldable pub list_empty : ℕ → Memory → Bool
list_empty head m = m (next_of head) == head
