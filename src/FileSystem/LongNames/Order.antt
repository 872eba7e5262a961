-- ===== src/FileSystem/LongNames/Order.antt =====
-- The assembled long name and the order of its fragments.
use native.Mathlib.Decide.{dec_lt}
use fat32_reimplementation.Base.{
  ℕ, ◌≤◌, ◌<◌, ◌≡◌, ◌≢◌, sym, ap, ◌∙◌, List, [], ◌∷◌, ◌++◌, if◌then◌else◌, Bool, le→leb, lt→leb,
  arith,
}
use fat32_reimplementation.Base.Text.{from_utf16}
use fat32_reimplementation.FileSystem.LongNames.{
  LfnFragments, insert_by_seq, sort_by_seq, all_units, assemble_lfn,
}

pub insert-front :
    (a b : ℕ × List ℕ) (frags : LfnFragments)
    → a.0 ≤ b.0
    → insert_by_seq a (b ∷ frags) ≡ a ∷ (b ∷ frags)
unfolding insert_by_seq
insert-front a b frags le =
    ap (λ (t : Bool). if t then a ∷ (b ∷ frags) else b ∷ insert_by_seq a frags) (le→leb a.0 b.0 le)

pub insert-behind :
    (a b : ℕ × List ℕ) (frags : LfnFragments)
    → b.0 < a.0
    → insert_by_seq a (b ∷ frags) ≡ b ∷ insert_by_seq a frags
unfolding insert_by_seq
insert-behind a b frags lt =
    ap (λ (t : Bool). if t then a ∷ (b ∷ frags) else b ∷ insert_by_seq a frags) (lt→leb a.0 b.0 lt)

front_of :
    (a b c : ℕ × List ℕ) (frags : LfnFragments)
    → a.0 < b.0
    → a.0 ≤ c.0
    → insert_by_seq a (insert_by_seq b (c ∷ frags)) ≡ a ∷ insert_by_seq b (c ∷ frags)
front_of a b c frags lt le = elim (dec_lt c.0 b.0) [
  | yes before ↦
      ap (insert_by_seq a) (insert-behind b c frags before)
      ∙ insert-front a c (insert_by_seq b frags) le
      ∙ ap (λ (t : LfnFragments). a ∷ t) (sym (insert-behind b c frags before))
  | no behind ↦
      ap (insert_by_seq a) (insert-front b c frags (omega arith))
      ∙ insert-front a b (c ∷ frags) (omega arith)
      ∙ ap (λ (t : LfnFragments). a ∷ t) (sym (insert-front b c frags (omega arith)))
]

-- Of two numbers, the smaller one first.
insert_smaller :
    (a b : ℕ × List ℕ) (frags : LfnFragments)
    → a.0 < b.0
    → insert_by_seq a (insert_by_seq b frags) ≡ insert_by_seq b (insert_by_seq a frags)
unfolding insert_by_seq
insert_smaller a b [] lt = insert-front a b [] (omega arith) ∙ sym (insert-behind b a [] lt)
insert_smaller a b (c ∷ frags) lt = elim (dec_lt c.0 a.0) [
  | yes before ↦
      ap (insert_by_seq a) (insert-behind b c frags (omega arith))
      ∙ insert-behind a c (insert_by_seq b frags) before
      ∙ ap (λ (t : LfnFragments). c ∷ t) (insert_smaller a b frags lt)
      ∙ sym (insert-behind b c (insert_by_seq a frags) (omega arith))
      ∙ ap (insert_by_seq b) (sym (insert-behind a c frags before))
  | no behind ↦
      front_of a b c frags lt (omega arith)
      ∙ sym (insert-behind b a (c ∷ frags) lt)
      ∙ ap (insert_by_seq b) (sym (insert-front a c frags (omega arith)))
]

insert_swap :
    (a b : ℕ × List ℕ) (frags : LfnFragments)
    → a.0 ≢ b.0
    → insert_by_seq a (insert_by_seq b frags) ≡ insert_by_seq b (insert_by_seq a frags)
insert_swap a b frags ne = elim (dec_lt a.0 b.0) [
  | yes less ↦ insert_smaller a b frags less
  | no more ↦ sym (insert_smaller b a frags (omega arith))
]

sort_swap :
    (front : LfnFragments) (a b : ℕ × List ℕ) (behind : LfnFragments)
    → a.0 ≢ b.0
    → sort_by_seq (front ++ a ∷ b ∷ behind) ≡ sort_by_seq (front ++ b ∷ a ∷ behind)
unfolding sort_by_seq
sort_swap [] a b behind ne = insert_swap a b (sort_by_seq behind) ne
sort_swap (c ∷ front) a b behind ne = ap (insert_by_seq c) (sort_swap front a b behind ne)

-- The order in which two neighbouring fragments with different sequence numbers were met does not
-- change the assembled name.
pub assemble_lfn-swap :
    (front : LfnFragments) (a b : ℕ × List ℕ) (behind : LfnFragments)
    → a.0 ≢ b.0
    → assemble_lfn (front ++ a ∷ b ∷ behind) ≡ assemble_lfn (front ++ b ∷ a ∷ behind)
unfolding assemble_lfn
assemble_lfn-swap [] a b behind ne =
    ap (λ (frags : LfnFragments). from_utf16 (all_units frags)) (sort_swap [] a b behind ne)
assemble_lfn-swap (c ∷ front) a b behind ne =
    ap (λ (frags : LfnFragments). from_utf16 (all_units frags))
      (sort_swap (c ∷ front) a b behind ne)
