-- ===== src/FileSystem/LongNames/Spelling.antt =====
-- What a long name's fragments spell, number by number.
use mathlib.Core.Path.{subst}
use mathlib.Core.List.{append_assoc}
use native.Mathlib.Decide.{dec_lt, ℕ_discrete}
use fat32_reimplementation.Base.{
  All-map, ℕ, zero, suc, ◌+◌, ◌≤◌, ◌<◌, ◌≡◌, ◌≢◌, refl, sym, ap, ◌∙◌, List, [], ◌∷◌, ◌++◌, All,
  Option, none, ◌==◌, if◌then◌else◌, Bool, arith, ne→==, ==-eq,
}
use fat32_reimplementation.Base.Text.{from_utf16}
use fat32_reimplementation.FileSystem.LongNames.{
  LfnFragments, insert_by_seq, sort_by_seq, fragment_units, all_units, assemble_lfn,
}
use fat32_reimplementation.FileSystem.LongNames.Order.{insert-front, insert-behind}

-- The units in front of the first 0, and those that are not padding.
abbrev pub before_zero : List ℕ → List ℕ
before_zero [] = []
before_zero (unit ∷ units) = if unit == 0x0000 then [] else unit ∷ before_zero units

abbrev pub without_padding : List ℕ → List ℕ
without_padding [] = []
without_padding (unit ∷ units) =
    if unit == 0xFFFF then without_padding units else unit ∷ without_padding units

fragment_units_lem : (units : List ℕ) → fragment_units units ≡ without_padding (before_zero units)
unfolding fragment_units
fragment_units_lem [] = refl
fragment_units_lem (unit ∷ units) = ground (arith, fragment_units_lem units)

-- The text of the fragments with a number, and of those with the numbers from `i` on.
abbrev pub numbered : ℕ → LfnFragments → List ℕ
numbered i [] = []
numbered i (f ∷ frags) =
    if f.0 == i then without_padding (before_zero f.1) ++ numbered i frags else numbered i frags

abbrev pub text_from : ℕ → ℕ → LfnFragments → List ℕ
text_from zero i frags = []
text_from (suc count) i frags = numbered i frags ++ text_from count (i + 1) frags

-- The long name: the text of the fragments with the numbers 0 to 31, if there are any.
abbrev pub spelled : LfnFragments → Option (List ℕ)
spelled [] = none
spelled (f ∷ frags) = from_utf16 (text_from 32 0 (f ∷ frags))

numbered_here :
    (i : ℕ) (f : ℕ × List ℕ) (frags : LfnFragments)
    → f.0 ≡ i
    → numbered i (f ∷ frags) ≡ without_padding (before_zero f.1) ++ numbered i frags
numbered_here i f frags e =
    ap
      (λ (b : Bool).
        if b then without_padding (before_zero f.1) ++ numbered i frags else numbered i frags)
      (==-eq f.0 i e)

numbered_other :
    (i : ℕ) (f : ℕ × List ℕ) (frags : LfnFragments)
    → f.0 ≢ i
    → numbered i (f ∷ frags) ≡ numbered i frags
numbered_other i f frags ne =
    ap
      (λ (b : Bool).
        if b then without_padding (before_zero f.1) ++ numbered i frags else numbered i frags)
      (ne→== f.0 i ne)

numbered_cons :
    (i : ℕ) (f : ℕ × List ℕ) (frags frags' : LfnFragments)
    → numbered i frags ≡ numbered i frags'
    → numbered i (f ∷ frags) ≡ numbered i (f ∷ frags')
numbered_cons i f frags frags' e =
    ap (λ (r : List ℕ). if f.0 == i then without_padding (before_zero f.1) ++ r else r) e

numbered_swap :
    (i : ℕ) (a b : ℕ × List ℕ) (frags : LfnFragments)
    → b.0 < a.0
    → numbered i (b ∷ a ∷ frags) ≡ numbered i (a ∷ b ∷ frags)
numbered_swap i a b frags lt = elim (ℕ_discrete b.0 i) [
  | yes here ↦
      numbered_cons i b (a ∷ frags) frags (numbered_other i a frags (omega arith))
      ∙ sym (numbered_other i a (b ∷ frags) (omega arith))
  | no apart ↦
      numbered_other i b (a ∷ frags) apart
      ∙ numbered_cons i a frags (b ∷ frags) (sym (numbered_other i b frags apart))
]

numbered-insert :
    (i : ℕ) (a : ℕ × List ℕ) (frags : LfnFragments)
    → numbered i (insert_by_seq a frags) ≡ numbered i (a ∷ frags)
unfolding insert_by_seq
numbered-insert i a [] = refl
numbered-insert i a (b ∷ frags) = elim (dec_lt b.0 a.0) [
  | yes before ↦
      ap (numbered i) (insert-behind a b frags before)
      ∙ numbered_cons i b (insert_by_seq a frags) (a ∷ frags) (numbered-insert i a frags)
      ∙ numbered_swap i a b frags before
  | no behind ↦ ap (numbered i) (insert-front a b frags (omega arith))
]

numbered-sort : (i : ℕ) (frags : LfnFragments) → numbered i (sort_by_seq frags) ≡ numbered i frags
unfolding sort_by_seq
numbered-sort i [] = refl
numbered-sort i (f ∷ frags) =
    numbered-insert i f (sort_by_seq frags)
    ∙ numbered_cons i f (sort_by_seq frags) frags (numbered-sort i frags)

text_from-sort :
    (count i : ℕ) (frags : LfnFragments)
    → text_from count i (sort_by_seq frags) ≡ text_from count i frags
text_from-sort zero i frags = refl
text_from-sort (suc count) i frags =
    ap (λ (r : List ℕ). numbered i (sort_by_seq frags) ++ r) (text_from-sort count (i + 1) frags)
    ∙ ap (λ (r : List ℕ). r ++ text_from count (i + 1) frags) (numbered-sort i frags)

-- A fragment whose number is passed adds nothing.
text_from_passed :
    (count i : ℕ) (f : ℕ × List ℕ) (frags : LfnFragments)
    → f.0 < i
    → text_from count i (f ∷ frags) ≡ text_from count i frags
text_from_passed zero i f frags lt = refl
text_from_passed (suc count) i f frags lt =
    ap (λ (r : List ℕ). numbered i (f ∷ frags) ++ r)
      (text_from_passed count (i + 1) f frags (omega arith))
    ∙ ap (λ (r : List ℕ). r ++ text_from count (i + 1) frags)
        (numbered_other i f frags (omega arith))

numbered_none : (i : ℕ) (frags : LfnFragments) → All (λ f. i < f.0) frags → numbered i frags ≡ []
numbered_none i [] h = refl
numbered_none i (f ∷ frags) h =
    numbered_other i f frags (omega (arith, h.0)) ∙ numbered_none i frags h.1

text_from_least :
    (count i : ℕ) (f : ℕ × List ℕ) (frags : LfnFragments)
    → i ≤ f.0
    → f.0 < i + count
    → All (λ g. f.0 ≤ g.0) frags
    → text_from count i (f ∷ frags) ≡ without_padding (before_zero f.1) ++ text_from count i frags
text_from_least zero i f frags lo hi h = absurd (omega arith)
text_from_least (suc count) i f frags lo hi h =
    let units = without_padding (before_zero f.1) in
    elim (ℕ_discrete f.0 i) [
      | yes here ↦
          ap (λ (r : List ℕ). numbered i (f ∷ frags) ++ r)
            (text_from_passed count (i + 1) f frags (omega arith))
          ∙ ap (λ (r : List ℕ). r ++ text_from count (i + 1) frags) (numbered_here i f frags here)
          ∙ append_assoc units (numbered i frags) (text_from count (i + 1) frags)
      | no apart ↦
          let none_here : numbered i frags ≡ [] = numbered_none i frags (
            All-map (λ (g : ℕ × List ℕ). f.0 ≤ g.0) (λ (g : ℕ × List ℕ). i < g.0) frags
              (λ g le. omega arith) h) in
          ap (λ (r : List ℕ). r ++ text_from count (i + 1) (f ∷ frags))
            (numbered_other i f frags apart ∙ none_here)
          ∙ text_from_least count (i + 1) f frags (omega arith) (omega arith) h
          ∙ ap (λ (r : List ℕ). units ++ (r ++ text_from count (i + 1) frags)) (sym none_here)
    ]

abbrev IsSorted : LfnFragments → Type 0
IsSorted [] = Unit {0}
IsSorted (f ∷ frags) = All (λ g. f.0 ≤ g.0) frags × IsSorted frags

All-insert :
    (P : ℕ × List ℕ → Type 0) (a : ℕ × List ℕ) (frags : LfnFragments)
    → P a
    → All P frags
    → All P (insert_by_seq a frags)
unfolding insert_by_seq
All-insert P a [] h hs = (h, tt)
All-insert P a (b ∷ frags) h hs = elim (dec_lt b.0 a.0) [
  | yes before ↦
      subst (All P) (sym (insert-behind a b frags before)) (hs.0, All-insert P a frags h hs.1)
  | no behind ↦ subst (All P) (sym (insert-front a b frags (omega arith))) (h, hs)
]

insert-IsSorted :
    (a : ℕ × List ℕ) (frags : LfnFragments) → IsSorted frags → IsSorted (insert_by_seq a frags)
unfolding insert_by_seq
insert-IsSorted a [] s = (tt, tt)
insert-IsSorted a (b ∷ frags) s = elim (dec_lt b.0 a.0) [
  | yes before ↦ subst IsSorted (sym (insert-behind a b frags before)) (
    All-insert (λ (g : ℕ × List ℕ). b.0 ≤ g.0) a frags (omega arith) s.0,
    insert-IsSorted a frags s.1,
  )
  | no behind ↦
      let above =
        All-map (λ (g : ℕ × List ℕ). b.0 ≤ g.0) (λ (g : ℕ × List ℕ). a.0 ≤ g.0) frags
          (λ g le. omega arith) s.0 in
      subst IsSorted (sym (insert-front a b frags (omega arith))) ((omega arith, above), s)
]

sort-IsSorted : (frags : LfnFragments) → IsSorted (sort_by_seq frags)
unfolding sort_by_seq
sort-IsSorted [] = tt
sort-IsSorted (f ∷ frags) = insert-IsSorted f (sort_by_seq frags) (sort-IsSorted frags)

All-sort :
    (P : ℕ × List ℕ → Type 0) (frags : LfnFragments) → All P frags → All P (sort_by_seq frags)
unfolding sort_by_seq
All-sort P [] h = tt
All-sort P (f ∷ frags) h = All-insert P f (sort_by_seq frags) h.0 (All-sort P frags h.1)

text_from_none : (count i : ℕ) → text_from count i [] ≡ []
text_from_none zero i = refl
text_from_none (suc count) i = text_from_none count (i + 1)

all_units-text_from :
    (frags : LfnFragments)
    → IsSorted frags
    → All (λ f. f.0 < 32) frags
    → all_units frags ≡ text_from 32 0 frags
unfolding all_units
all_units-text_from [] s h = sym (text_from_none 32 0)
all_units-text_from (f ∷ frags) s h =
    ap (λ (r : List ℕ). r ++ all_units frags) (fragment_units_lem f.1)
    ∙ ap (λ (r : List ℕ). without_padding (before_zero f.1) ++ r)
        (all_units-text_from frags s.1 h.1)
    ∙ sym (text_from_least 32 0 f frags (omega arith) h.0 s.0)

-- Fragments with numbers below 32 are assembled to what they spell.
pub assemble_lfn-spelled :
    (frags : LfnFragments) → All (λ f. f.0 < 32) frags → assemble_lfn frags ≡ spelled frags
unfolding assemble_lfn
assemble_lfn-spelled [] h = refl
assemble_lfn-spelled (f ∷ frags) h = ap from_utf16 (
    all_units-text_from (sort_by_seq (f ∷ frags)) (sort-IsSorted (f ∷ frags))
      (All-sort (λ (g : ℕ × List ℕ). g.0 < 32) (f ∷ frags) h)
    ∙ text_from-sort 32 0 (f ∷ frags))
