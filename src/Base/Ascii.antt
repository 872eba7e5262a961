-- ===== src/Base/Ascii.antt =====
-- The bytes of a text constant: its characters are ASCII, one byte each.
use Prim.Native.Nat.{ℕ}
use Prim.Native.Char.{code}
use Prim.Native.String as Text
use Prim.Native.String.{String}
use mathlib.Core.List.{List, [], ◌∷◌}

abbrev pub ascii : String → List ℕ
ascii Text.[] = []
ascii (Text.◌∷◌ c s) = code c ∷ ascii s
