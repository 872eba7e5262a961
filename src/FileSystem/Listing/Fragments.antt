-- ===== src/FileSystem/Listing/Fragments.antt =====
-- What a long name entry adds, described by the places of its bytes.
use mathlib.Core.Option
use native.Mathlib.Nat.{add-zero}
use fat32_reimplementation.Base.Bits.{bit_and-low}
use fat32_reimplementation.Base.{
  ◌<◌, All, inl, inr, Bool-cases, ℕ, zero, suc, ◌+◌, ◌*◌, ◌≡◌, refl, ap, sym, ◌∙◌, bit_and, List,
  [], ◌∷◌, ◌++◌, map, get_or, length, ◌==◌, Bool-cases, if◌then◌else◌, not, inl, inr, Option, none,
  some, arith,
}
use fat32_reimplementation.Base.Chunks.{set}
use fat32_reimplementation.Base.Windows.{window}
use fat32_reimplementation.FileSystem.LongNames.{
  LfnFragments, LfnState, byte_to_u16_vec, put_fragment,
}
use fat32_reimplementation.FileSystem.Listing.Contents.{next_lfn, IsChunk}

-- The place of the first fragment with a number.
abbrev pub number_at : ℕ → LfnFragments → Option ℕ
number_at number [] = none
number_at number (f ∷ frags) =
    let rest = number_at number frags in if f.0 == number then some 0 else Option.map suc rest

-- A fragment takes the place of the one with its number; a new number comes last.
abbrev pub placed_at : ℕ × List ℕ → LfnFragments → Option ℕ → LfnFragments
placed_at f frags none = frags ++ f ∷ []
placed_at f frags (some i) = set frags i f

abbrev pub with_fragment : ℕ × List ℕ → LfnFragments → LfnFragments
with_fragment f frags = placed_at f frags (number_at f.0 frags)

placed_at-cons :
    (f g : ℕ × List ℕ) (frags : LfnFragments) (o : Option ℕ)
    → g ∷ placed_at f frags o ≡ placed_at f (g ∷ frags) (Option.map suc o)
placed_at-cons f g frags none = refl
placed_at-cons f g frags (some i) = refl

put_fragment-with_fragment :
    (number : ℕ) (units : List ℕ) (frags : LfnFragments)
    → put_fragment number units frags ≡ with_fragment (number, units) frags
unfolding put_fragment
put_fragment-with_fragment number units [] = refl
put_fragment-with_fragment number units ((other, old) ∷ frags) =
    elim (Bool-cases (other == number)) [
      | inl same ↦
          let eq : other ≡ number = ground (arith, same) in
          rw same (ap (λ (k : ℕ). (k, units) ∷ frags) eq)
      | inr ne ↦ rw ne (
          ap (λ (l : LfnFragments). (other, old) ∷ l)
            (put_fragment-with_fragment number units frags)
          ∙ placed_at-cons (number, units) (other, old) frags (number_at number frags))
    ]

-- The places of the 13 units of a long name entry.
abbrev pub unit_places : List ℕ
unit_places = 1 ∷ 3 ∷ 5 ∷ 7 ∷ 9 ∷ 14 ∷ 16 ∷ 18 ∷ 20 ∷ 22 ∷ 24 ∷ 28 ∷ 30 ∷ []

abbrev pub units_of : List ℕ → List ℕ
units_of chunk = map (λ i. get_or chunk i 0 + 256 * get_or chunk (i + 1) 0) unit_places

abbrev tabulate : ℕ → (ℕ → ℕ) → List ℕ
tabulate zero f = []
tabulate (suc n) f = f 0 ∷ tabulate n (λ i. f (suc i))

tabulate-get_or : (n : ℕ) (xs : List ℕ) → length xs ≡ n → xs ≡ tabulate n (λ i. get_or xs i 0)
tabulate-get_or zero [] h = refl
tabulate-get_or zero (x ∷ xs) h = absurd (omega (arith, h))
tabulate-get_or (suc n) [] h = absurd (omega (arith, h))
tabulate-get_or (suc n) (x ∷ xs) h =
    ap (λ (l : List ℕ). x ∷ l) (tabulate-get_or n xs (omega (arith, h)))

abbrev names : List ℕ → List ℕ
names chunk =
    byte_to_u16_vec (window chunk 1 10)
    ++ (byte_to_u16_vec (window chunk 14 12) ++ byte_to_u16_vec (window chunk 28 4))

names-tabulate : (f : ℕ → ℕ) → names (tabulate 32 f) ≡ units_of (tabulate 32 f)
unfolding byte_to_u16_vec window
names-tabulate f = simp add-zero

names-units_of : (chunk : List ℕ) → IsChunk chunk → names chunk ≡ units_of chunk
names-units_of chunk whole =
    let e = tabulate-get_or 32 chunk whole in
    ap names e ∙ names-tabulate (λ i. get_or chunk i 0) ∙ ap units_of (sym e)

-- The fragments and the checksum behind a long name entry: its first byte holds the fragment's
-- number, and the bit 0x40 in the entry that comes first, whose checksum counts.
abbrev pub joined : List ℕ → LfnState → LfnState
joined chunk state =
    let begins = not (bit_and (get_or chunk 0 0) 0x40 == 0) in
    record {
      fragments =
          with_fragment (bit_and (get_or chunk 0 0) 0x1F, units_of chunk)
            (if begins then [] else state.fragments);
      expected_checksum = if begins then some (get_or chunk 13 0) else state.expected_checksum;
    }

pub next_lfn-joined :
    (chunk : List ℕ) (state : LfnState) → IsChunk chunk → next_lfn chunk state ≡ joined chunk state
unfolding next_lfn
next_lfn-joined chunk state whole =
    let begins = not (bit_and (get_or chunk 0 0) 0x40 == 0) in
    let frags = if begins then [] else state.fragments in
    let number = bit_and (get_or chunk 0 0) 0x1F in
    let expected = if begins then some (get_or chunk 13 0) else state.expected_checksum in
    let same : put_fragment number (names chunk) frags
        ≡ with_fragment (number, units_of chunk) frags =
      put_fragment-with_fragment number (names chunk) frags
      ∙ ap (λ (units : List ℕ). with_fragment (number, units) frags) (names-units_of chunk whole) in
    ap (λ (l : LfnFragments). record { fragments = l; expected_checksum = expected }) same

-- The numbers of the fragments have five bits.
abbrev pub AreNumbered : LfnFragments → Type 0
AreNumbered frags = All (λ f. f.0 < 32) frags

put_fragment-AreNumbered :
    (number : ℕ) (units : List ℕ) (frags : LfnFragments)
    → number < 32
    → AreNumbered frags
    → AreNumbered (put_fragment number units frags)
unfolding put_fragment
put_fragment-AreNumbered number units [] lt h = (lt, tt)
put_fragment-AreNumbered number units (f ∷ frags) lt h = elim (Bool-cases (f.0 == number)) [
  | inl same ↦ rw same h
  | inr ne ↦ rw ne (h.0, put_fragment-AreNumbered number units frags lt h.1)
]

pub next_lfn-AreNumbered :
    (chunk : List ℕ) (state : LfnState)
    → AreNumbered state.fragments
    → AreNumbered (next_lfn chunk state).fragments
unfolding next_lfn
next_lfn-AreNumbered chunk state h =
    let begins = not (bit_and (get_or chunk 0 0) 0x40 == 0) in
    put_fragment-AreNumbered (bit_and (get_or chunk 0 0) 0x1F) _
      (if begins then [] else state.fragments) (omega (arith, bit_and-low 5 (get_or chunk 0 0)))
      (elim (Bool-cases begins) [ inl first ↦ rw first tt | inr later ↦ rw later h ])
