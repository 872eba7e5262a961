-- ===== src/FileSystem/Names/Checksum.antt =====
-- `lfn_checksum` on names that differ in one byte.
use mathlib.Core.List.{foldl}
use fat32_reimplementation.Base.{
  refl, ap, ◌∙◌, ℕ, ◌+◌, ◌*◌, ◌/◌, ◌%◌, ◌≡◌, ◌≢◌, List, [], ◌∷◌, ◌++◌, arith,
}
use fat32_reimplementation.Base.Bits.{bit_and-low}
use fat32_reimplementation.Base.Words.{IsByte}
use fat32_reimplementation.FileSystem.Names.{add_byte, lfn_checksum}

add_byte_lem : (sum b : ℕ) → add_byte sum b ≡ (sum / 2 + sum % 2 * 128 + b) % 256
add_byte_lem sum b = omega (arith, bit_and-low 1 sum)

-- The sum of the bytes of a short name, turned by one bit in front of each.
abbrev pub checksum_step : ℕ → ℕ → ℕ
checksum_step sum b = (sum / 2 + sum % 2 * 128 + b) % 256

abbrev pub checksum : List ℕ → ℕ
checksum name11 = foldl checksum_step 0 name11

fold_checksum : (sum : ℕ) (bs : List ℕ) → foldl add_byte sum bs ≡ foldl checksum_step sum bs
fold_checksum sum [] = refl
fold_checksum sum (b ∷ bs) =
    fold_checksum (add_byte sum b) bs
    ∙ ap (λ (k : ℕ). foldl checksum_step k bs) (add_byte_lem sum b)

pub lfn_checksum-checksum : (name11 : List ℕ) → lfn_checksum name11 ≡ checksum name11
unfolding lfn_checksum
lfn_checksum-checksum name11 = fold_checksum 0 name11

add_byte-IsByte : (sum b : ℕ) → IsByte (add_byte sum b)
add_byte-IsByte sum b = omega arith

add_byte-injective_sum : (s t b : ℕ) → IsByte s → IsByte t → add_byte s b ≡ add_byte t b → s ≡ t
add_byte-injective_sum s t b hs ht e = omega (arith, add_byte_lem s b, add_byte_lem t b)

add_byte-injective_byte : (s a b : ℕ) → IsByte a → IsByte b → add_byte s a ≡ add_byte s b → a ≡ b
add_byte-injective_byte s a b ha hb e = omega (arith, add_byte_lem s a, add_byte_lem s b)

rest_injective :
    (s t : ℕ) (post : List ℕ)
    → IsByte s
    → IsByte t
    → foldl add_byte s post ≡ foldl add_byte t post
    → s ≡ t
rest_injective s t [] hs ht e = e
rest_injective s t (b ∷ post) hs ht e = add_byte-injective_sum s t b hs ht (
    rest_injective (add_byte s b) (add_byte t b) post (add_byte-IsByte s b) (add_byte-IsByte t b) e)

one_byte :
    (s x y : ℕ) (pre post : List ℕ)
    → IsByte x
    → IsByte y
    → foldl add_byte s (pre ++ x ∷ post) ≡ foldl add_byte s (pre ++ y ∷ post)
    → x ≡ y
one_byte s x y [] post hx hy e =
    add_byte-injective_byte s x y hx hy
      (rest_injective _ _ post (add_byte-IsByte s x) (add_byte-IsByte s y) e)
one_byte s x y (b ∷ pre) post hx hy e = one_byte (add_byte s b) x y pre post hx hy e

-- Two sequences of the same length that differ in one byte, at any one place, have different
-- checksums.
pub lfn_checksum-injective_byte :
    (x y : ℕ) (pre post : List ℕ)
    → IsByte x
    → IsByte y
    → x ≢ y
    → lfn_checksum (pre ++ x ∷ post) ≢ lfn_checksum (pre ++ y ∷ post)
unfolding lfn_checksum
lfn_checksum-injective_byte x y pre post hx hy ne e = ne (one_byte 0 x y pre post hx hy e)
