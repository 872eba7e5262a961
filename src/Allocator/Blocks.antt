-- ===== src/Allocator/Blocks.antt =====
-- Blocks of memory that share no byte, for the statements about the allocators.
use fat32_reimplementation.Base.{ℕ, ◌+◌, ◌≤◌, ◌⊎◌, List, [], ◌∷◌, ◌++◌, All}

pub record Block : Type 0 where
  pub start : ℕ
  pub size : ℕ

abbrev pub block : ℕ → ℕ → Block
block start size = record { start = start; size = size }

-- Two blocks share no byte.
abbrev pub Apart : Block → Block → Type 0
Apart a b = (a.start + a.size ≤ b.start) ⊎ (b.start + b.size ≤ a.start)

abbrev pub AllApart : List Block → Type 0
AllApart [] = Unit {0}
AllApart (b ∷ bs) = All (Apart b) bs × AllApart bs

pub All-remove :
    (P : Block → Type 0) (before : List Block) (b : Block) (after : List Block)
    → All P (before ++ b ∷ after)
    → All P (before ++ after)
All-remove P [] b after h = h.1
All-remove P (a ∷ before) b after h = (h.0, All-remove P before b after h.1)

pub AllApart-remove :
    (before : List Block) (b : Block) (after : List Block)
    → AllApart (before ++ b ∷ after)
    → AllApart (before ++ after)
AllApart-remove [] b after h = h.1
AllApart-remove (a ∷ before) b after h =
    (All-remove (Apart a) before b after h.0, AllApart-remove before b after h.1)
