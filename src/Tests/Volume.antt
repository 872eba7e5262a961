-- ===== src/Tests/Volume.antt =====
-- The example volume has the properties that the theorems ask for.
use mathlib.Core.Path.{subst}
use fat32_reimplementation.Base.{
  ℕ, ◌≤◌, ◌<◌, ◌≡◌, ◌≢◌, refl, sym, ◌⊎◌, inl, inr, List, [], ◌∷◌, All, Bool, true, ◌&&◌, ltb, arith,
}
use fat32_reimplementation.Base.Words.{IsByte}
use fat32_reimplementation.Base.Windows.{window}
use fat32_reimplementation.FileSystem.{IsVolume, InData, InTable}
use fat32_reimplementation.FileSystem.Table.{table_entry}
use fat32_reimplementation.FileSystem.Table.Allocation.{Taken}
use fat32_reimplementation.Tests.Fixture.{image, volume}

abbrev pub all_bytes : List ℕ → Bool
all_bytes [] = true
all_bytes (b ∷ bs) = ltb b 256 && all_bytes bs

pub all_bytes-IsByte : (bs : List ℕ) → all_bytes bs ≡ true → All IsByte bs
all_bytes-IsByte [] e = tt
all_bytes-IsByte (b ∷ bs) e = (ground arith, all_bytes-IsByte bs (ground arith))

pub volume-IsVolume : IsVolume volume
volume-IsVolume = record {
  bytes = all_bytes-IsByte image refl;
  addressable = omega arith;
  sector_pos = omega arith;
  sector_whole = refl;
  cluster_pos = omega arith;
  table_first = omega arith;
  root = omega arith;
}

pub volume-InData : (c : ℕ) → 2 ≤ c → c ≤ 5 → InData volume c
volume-InData c lo hi = (lo, omega arith)

pub volume-InTable : (c : ℕ) → c ≤ 31 → InTable volume c
volume-InTable c hi = (omega arith, omega arith)

pub entry_three : table_entry volume 3 ≡ 0x0FFF_FFFF
unfolding table_entry window
entry_three = refl

pub entry_four : table_entry volume 4 ≡ 0
unfolding table_entry window
entry_four = refl

entry_two : table_entry volume 2 ≡ 0x0FFF_FFFF
unfolding table_entry window
entry_two = refl

pub two_or_three : (k : ℕ) → 2 ≤ k → k < 4 → (k ≡ 2) ⊎ (k ≡ 3)
two_or_three k lo hi = ground arith

-- The clusters 2 and 3 are in use.
pub volume-Taken : Taken volume 2 4
volume-Taken k lo hi = (
  volume-InTable k (omega arith),
  elim (two_or_three k lo hi) [
    | inl two ↦ subst (λ (c : ℕ). table_entry volume c ≢ 0) (sym two) (omega (arith, entry_two))
    | inr three ↦
        subst (λ (c : ℕ). table_entry volume c ≢ 0) (sym three) (omega (arith, entry_three))
  ],
)
