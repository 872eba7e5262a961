-- ===== src/FileSystem/Names/RoundTrip.antt =====
-- `format_to_8_3` followed by `short_name_to_string`.
use native.Mathlib.Decide.{dec_lt}
use fat32_reimplementation.Base.{
  ℕ, zero, suc, ◌+◌, ◌-◌, ◌≤◌, ◌<◌, ◌≡◌, refl, ap, ◌∙◌, List, [], ◌∷◌, ◌++◌, get_or, take,
  replicate, length, length-append, length-replicate, get_elem?, get_elem?-append,
  get_elem?-replicate, get_or-get_elem?, get_elem?-none, get_elem?_ext, take-append, take-all, map,
  inl, inr, length-map, ◌==◌, ok, false, arith,
}
use fat32_reimplementation.Base.Windows.{
  window, splice, window-splice_apart, get_elem?-window, get_elem?-splice, length-splice,
  splice-nil,
}
use fat32_reimplementation.Base.Text.{
  IsAscii, Without, split-Without, split-append, from_utf8-IsAscii, ascii_upper, UppersAscii,
  map-ascii_upper-IsAscii,
}
use fat32_reimplementation.FileSystem.Names.{
  trimmed_end, field_text, join_name, short_name_to_string, format_to_8_3,
}

-- The text ends in no space.
abbrev pub NoTrailing : List ℕ → Type 0
NoTrailing [] = Unit {0}
NoTrailing (x ∷ []) = (x == b' ') ≡ false
NoTrailing (x ∷ y ∷ ys) = NoTrailing (y ∷ ys)

-- `text` filled up with `n` spaces.
abbrev padded : List ℕ → ℕ → List ℕ
padded text n = text ++ replicate n b' '

get_or-padding :
    (text : List ℕ) (n i : ℕ)
    → length text ≤ i
    → i < length text + n
    → get_or (padded text n) i 0 ≡ b' '
get_or-padding text n i lo hi = ground (
  arith,
  get_or-get_elem? (padded text n) i 0,
  get_elem?-append text (replicate n b' ') i,
  get_elem?-replicate {A = ℕ} n b' ' (i - length text),
)

get_or-last :
    (x : ℕ) (xs ys : List ℕ)
    → NoTrailing (x ∷ xs)
    → (get_or ((x ∷ xs) ++ ys) (length xs) 0 == b' ') ≡ false
get_or-last x [] ys h = h
get_or-last x (y ∷ xs) ys h = get_or-last y xs ys h

-- The search from the end stops behind the text.
trimmed_end-text :
    (text : List ℕ) (n : ℕ)
    → NoTrailing text
    → trimmed_end (padded text n) (length text) ≡ length text
unfolding trimmed_end
trimmed_end-text [] n h = refl
trimmed_end-text (x ∷ xs) n h = rw (get_or-last x xs (replicate n b' ') h)

trimmed_end-space :
    (part : List ℕ) (k : ℕ) → get_or part k 0 ≡ b' ' → trimmed_end part (suc k) ≡ trimmed_end part k
unfolding trimmed_end
trimmed_end-space part k e = rw e

trimmed_end-padded :
    (text : List ℕ) (n k : ℕ)
    → NoTrailing text
    → length text ≤ k
    → k ≤ length text + n
    → trimmed_end (padded text n) k ≡ length text
trimmed_end-padded text n zero h lo hi = unfold trimmed_end in omega arith
trimmed_end-padded text n (suc k) h lo hi = elim (dec_lt k (length text)) [
  | yes p ↦ let e : suc k ≡ length text = omega arith in rw e (trimmed_end-text text n h)
  | no p ↦
      trimmed_end-space (padded text n) k (get_or-padding text n k (omega arith) hi)
      ∙ trimmed_end-padded text n k h (omega arith) (omega arith)
]

-- A padded field reads back as its text.
field_text-padded :
    (text : List ℕ) (n : ℕ) → NoTrailing text → IsAscii text → field_text (padded text n) ≡ text
unfolding field_text
field_text-padded text n h ascii =
    rw
      (
        trimmed_end-padded text n (length (padded text n)) h
            (omega (arith, length-append text (replicate n b' ')))
            (omega (arith, length-append text (replicate n b' '), length-replicate {A = ℕ} n b' ')),
        take-append text (replicate n b' '),
        from_utf8-IsAscii text ascii,
      )
      refl

-- The two fields of a name that was written over spaces.
abbrev blank : List ℕ
blank = replicate 11 b' '

window-base :
    (base : List ℕ)
    → length base ≤ 8
    → window (splice blank 0 base) 0 8 ≡ padded base (8 - length base)
window-base base h = get_elem?_ext _ _ λ i. ground (
  arith,
  get_elem?-window (splice blank 0 base) 0 8 i,
  get_elem?-splice blank 0 base i,
  get_elem?-append base (replicate (8 - length base) b' ') i,
  get_elem?-replicate {A = ℕ} (8 - length base) b' ' (i - length base),
  get_elem?-replicate {A = ℕ} 11 b' ' i,
  get_elem?-none base i,
)

window-blank :
    (base : List ℕ) → length base ≤ 8 → window (splice blank 0 base) 8 3 ≡ replicate 3 b' '
window-blank base h =
    window-splice_apart blank 0 base 8 3 (omega arith) (inr (omega arith)) ∙ (unfold window in refl)

window-extension :
    (name ext : List ℕ)
    → length name ≡ 11
    → length ext ≤ 3
    → window name 8 3 ≡ replicate 3 b' '
    → window (splice name 8 ext) 8 3 ≡ padded ext (3 - length ext)
window-extension name ext eleven h spaces = get_elem?_ext _ _ λ i. ground (
  arith,
  get_elem?-window (splice name 8 ext) 8 3 i,
  get_elem?-splice name 8 ext (8 + i),
  get_elem?-window name 8 3 i,
  ap (λ w. get_elem? w i) spaces,
  get_elem?-append ext (replicate (3 - length ext) b' ') i,
  get_elem?-replicate {A = ℕ} (3 - length ext) b' ' (i - length ext),
  get_elem?-replicate {A = ℕ} 3 b' ' i,
  get_elem?-none ext i,
)

-- A part of a name: ASCII, no dot, no space at its end, `max` bytes at most.
pub record IsPart (max : ℕ) (text : List ℕ) : Type 0 where
  pub ascii : IsAscii text
  pub dotless : Without b'.' text
  pub trimmed : NoTrailing text
  pub short : length text ≤ max

NoTrailing-upper : (text : List ℕ) → NoTrailing text → NoTrailing (map ascii_upper text)
unfolding ascii_upper
NoTrailing-upper [] h = tt
NoTrailing-upper (x ∷ []) h = ground arith
NoTrailing-upper (x ∷ y ∷ ys) h = NoTrailing-upper (y ∷ ys) h

module _ (to_uppercase : List ℕ → List ℕ) (upper : UppersAscii to_uppercase) where
  upper-text :
      (text : List ℕ) (n : ℕ) {max : ℕ}
      → IsPart max text
      → max ≤ n
      → take n (to_uppercase text) ≡ map ascii_upper text
  upper-text text n p h =
      rw (upper text p.ascii)
        (take-all n (map ascii_upper text) (omega (arith, length-map ascii_upper text, p.short)))

  field_text-upper :
      (text : List ℕ) (n : ℕ) {max : ℕ}
      → IsPart max text
      → field_text (padded (map ascii_upper text) n) ≡ map ascii_upper text
  field_text-upper text n p =
      field_text-padded (map ascii_upper text) n (NoTrailing-upper text p.trimmed)
        (map-ascii_upper-IsAscii text p.ascii)

  -- The name that `format_to_8_3` writes, as the two fields that it reads back as.
  short_name-fields :
      (name11 base ext : List ℕ) (m n : ℕ)
      → IsPart 8 base
      → IsPart 3 ext
      → window name11 0 8 ≡ padded (map ascii_upper base) m
      → window name11 8 3 ≡ padded (map ascii_upper ext) n
      → short_name_to_string name11 ≡ join_name (map ascii_upper base) (map ascii_upper ext)
  unfolding short_name_to_string
  short_name-fields name11 base ext m n p q e f =
      rw (e, f, field_text-upper base m p, field_text-upper ext n q) refl

  abbrev written : List ℕ → List ℕ
  written base = splice blank 0 (map ascii_upper base)

  written-base :
      (base : List ℕ)
      → IsPart 8 base
      → window (written base) 0 8 ≡ padded (map ascii_upper base) (8 - length base)
  written-base base p =
      let same = length-map ascii_upper base in
      window-base (map ascii_upper base) (omega (arith, same, p.short))
      ∙ ap (λ k. padded (map ascii_upper base) (8 - k)) same

  -- `format_to_8_3` on `base` or on `base.ext`.
  format-join :
      (b : ℕ) (bs ext : List ℕ)
      → IsPart 8 (b ∷ bs)
      → IsPart 3 ext
      → format_to_8_3 to_uppercase (join_name (b ∷ bs) ext)
        ≡ ok (splice (written (b ∷ bs)) 8 (map ascii_upper ext))
  unfolding format_to_8_3
  format-join b bs [] p q =
      rw
        (
          split-Without b'.' (b ∷ bs) p.dotless,
          upper-text (b ∷ bs) 8 p (omega arith),
          splice-nil (written (b ∷ bs)) 8,
        )
        refl
  format-join b bs (e ∷ ext) p q =
      rw
        (
          split-append b'.' (b ∷ bs) (e ∷ ext) p.dotless,
          split-Without b'.' (e ∷ ext) q.dotless,
          upper-text (b ∷ bs) 8 p (omega arith),
          upper-text (e ∷ ext) 3 q (omega arith),
        )
        refl

  -- With `to_uppercase` working byte by byte on ASCII: for a base of 1 to 8 ASCII bytes and an
  -- extension of 0 to 3, both without a dot and with no space at the end, `format_to_8_3` accepts
  -- `base.ext` (`base` alone if the extension is empty), and `short_name_to_string` reads the
  -- result back as the same name in upper case.
  pub short_name_to_string-format_to_8_3 :
      (b : ℕ) (bs ext : List ℕ)
      → IsPart 8 (b ∷ bs)
      → IsPart 3 ext
      → (name11 : List ℕ) × (format_to_8_3 to_uppercase (join_name (b ∷ bs) ext) ≡ ok name11)
        × (short_name_to_string name11 ≡ join_name (map ascii_upper (b ∷ bs)) (map ascii_upper ext))
  short_name_to_string-format_to_8_3 b bs ext p q =
      let base = b ∷ bs in
      let up = map ascii_upper base in
      let same = length-map ascii_upper base in
      let room : length up ≤ 8 = omega (arith, same, p.short) in
      let eleven : length (written base) ≡ 11 = length-splice blank 0 up (omega arith) in
      let sames = length-map ascii_upper ext in
      let within : 8 + length (map ascii_upper ext) ≤ length (written base) =
        omega (arith, sames, q.short, eleven) in
      (
        splice (written base) 8 (map ascii_upper ext),
        format-join b bs ext p q,
        short_name-fields _ base ext (8 - length base) (3 - length (map ascii_upper ext)) p q
            (window-splice_apart (written base) 8 (map ascii_upper ext) 0 8 within
                (inl (omega arith))
              ∙ written-base base p)
            (window-extension (written base) (map ascii_upper ext) eleven
              (omega (arith, sames, q.short)) (window-blank up room)),
      )
