-- ===== src/Base/Windows.antt =====
-- A window of a list, and a list with a window overwritten: slices and `copy_from_slice`.
use Prim.Native.Nat.{ℕ, ◌+◌, ◌-◌, ◌≤◌, ◌<◌}
use mathlib.Core.Path.{◌≡◌}
use mathlib.Core.Logic.{◌⊎◌}
use mathlib.Core.List.{List, [], ◌++◌}
use mathlib.Core.Option.{none}
use native.Mathlib.Nat.{add-zero}
use native.Mathlib.Omega.{arith}
use fat32_reimplementation.Base.Tests.{ltb, leb, le→leb, if◌then◌else◌}
use fat32_reimplementation.Base.Lists.{
  length, get_elem?, get_or, get_or-get_elem?, take, drop, length-append, length-take, length-drop,
  get_elem?-none, get_elem?-take, get_elem?-drop, get_elem?-append, get_elem?_ext, All, All-append,
  All-take, All-drop, take-append-drop,
}
use fat32_reimplementation.Base.Runs.{Run, done, panic}

module _ {A : Type 0} where
  -- The `n` items from index `lo` on.
  unfoldable pub window : List A → ℕ → ℕ → List A
  window xs lo n = take n (drop lo xs)

  -- `xs` with the items from index `lo` on replaced by `ys`.
  unfoldable pub splice : List A → ℕ → List A → List A
  splice xs lo ys = take lo xs ++ (ys ++ drop (lo + length ys) xs)

  -- `xs[lo..lo + n]`, which panics out of range.
  unfoldable pub slice : List A → ℕ → ℕ → Run (List A)
  slice xs lo n = if leb (lo + n) (length xs) then done (window xs lo n) else panic

  -- `xs[lo..lo + ys.len()].copy_from_slice(&ys)`.
  unfoldable pub copy_at : List A → ℕ → List A → Run (List A)
  copy_at xs lo ys = if leb (lo + length ys) (length xs) then done (splice xs lo ys) else panic

  pub slice-window :
      (xs : List A) (lo n : ℕ) → lo + n ≤ length xs → slice xs lo n ≡ done (window xs lo n)
  unfolding slice
  slice-window xs lo n h = rw (le→leb _ _ h)

  pub copy_at-splice :
      (xs : List A) (lo : ℕ) (ys : List A)
      → lo + length ys ≤ length xs
      → copy_at xs lo ys ≡ done (splice xs lo ys)
  unfolding copy_at
  copy_at-splice xs lo ys h = rw (le→leb _ _ h)

  pub length-window : (xs : List A) (lo n : ℕ) → lo + n ≤ length xs → length (window xs lo n) ≡ n
  unfolding window
  length-window xs lo n h = omega (arith, length-take n (drop lo xs), length-drop lo xs)

  pub length-splice :
      (xs : List A) (lo : ℕ) (ys : List A)
      → lo + length ys ≤ length xs
      → length (splice xs lo ys) ≡ length xs
  unfolding splice
  length-splice xs lo ys h = omega (
    arith,
    length-append (take lo xs) (ys ++ drop (lo + length ys) xs),
    length-append ys (drop (lo + length ys) xs),
    length-take lo xs,
    length-drop (lo + length ys) xs,
  )

  pub get_elem?-window :
      (xs : List A) (lo n i : ℕ)
      → get_elem? (window xs lo n) i ≡ (if ltb i n then get_elem? xs (lo + i) else none)
  unfolding window
  get_elem?-window xs lo n i =
      ground (arith, get_elem?-take n (drop lo xs) i, get_elem?-drop lo xs i)

  pub get_or-window :
      (xs : List A) (lo n i j : ℕ) (d : A)
      → i < n
      → j ≡ lo + i
      → get_or xs j d ≡ get_or (window xs lo n) i d
  get_or-window xs lo n i j d h e = ground (
    arith,
    get_or-get_elem? xs j d,
    get_or-get_elem? (window xs lo n) i d,
    get_elem?-window xs lo n i,
  )

  pub get_elem?-splice :
      (xs : List A) (lo : ℕ) (ys : List A) (i : ℕ)
      → lo + length ys ≤ length xs
      → get_elem? (splice xs lo ys) i ≡ (
          if ltb i lo
          then get_elem? xs i
          else if ltb i (lo + length ys)
          then get_elem? ys (i - lo)
          else get_elem? xs i)
  unfolding splice
  get_elem?-splice xs lo ys i h =
      let n = length ys in
      ground (
        arith,
        get_elem?-append (take lo xs) (ys ++ drop (lo + n) xs) i,
        get_elem?-append ys (drop (lo + n) xs) (i - lo),
        get_elem?-take lo xs i,
        get_elem?-drop (lo + n) xs (i - lo - n),
        length-take lo xs,
      )

  pub window-zero : (xs : List A) (lo n : ℕ) → n ≡ 0 → window xs lo n ≡ []
  unfolding window
  window-zero xs lo n e = rw e

  pub splice-nil : (xs : List A) (lo : ℕ) → splice xs lo [] ≡ xs
  unfolding splice
  splice-nil xs lo = rw (add-zero, take-append-drop lo xs)

  pub window-splice_self :
      (xs : List A) (lo : ℕ) (ys : List A)
      → lo + length ys ≤ length xs
      → window (splice xs lo ys) lo (length ys) ≡ ys
  window-splice_self xs lo ys h = get_elem?_ext _ _ λ i. ground (
    arith,
    get_elem?-window (splice xs lo ys) lo (length ys) i,
    get_elem?-splice xs lo ys (lo + i) h,
    get_elem?-none ys i,
  )

  pub window-splice_apart :
      (xs : List A) (lo : ℕ) (ys : List A) (a n : ℕ)
      → lo + length ys ≤ length xs
      → (a + n ≤ lo) ⊎ (lo + length ys ≤ a)
      → window (splice xs lo ys) a n ≡ window xs a n
  window-splice_apart xs lo ys a n h apart = get_elem?_ext _ _ λ i. ground (
    arith,
    get_elem?-window (splice xs lo ys) a n i,
    get_elem?-window xs a n i,
    get_elem?-splice xs lo ys (a + i) h,
  )

  pub window-append :
      (xs : List A) (lo m n : ℕ)
      → lo + m ≤ length xs
      → window xs lo m ++ window xs (lo + m) n ≡ window xs lo (m + n)
  window-append xs lo m n h = get_elem?_ext _ _ λ i. ground (
    arith,
    get_elem?-append (window xs lo m) (window xs (lo + m) n) i,
    length-window xs lo m h,
    get_elem?-window xs lo m i,
    get_elem?-window xs (lo + m) n (i - m),
    get_elem?-window xs lo (m + n) i,
  )

  pub window-window :
      (xs : List A) (a n b m : ℕ) → b + m ≤ n → window (window xs a n) b m ≡ window xs (a + b) m
  window-window xs a n b m h = get_elem?_ext _ _ λ i. ground (
    arith,
    get_elem?-window (window xs a n) b m i,
    get_elem?-window xs a n (b + i),
    get_elem?-window xs (a + b) m i,
  )

  -- Overwriting inside a window is overwriting the window.
  pub window-splice_inside :
      (xs : List A) (a n b : ℕ) (ys : List A)
      → a + n ≤ length xs
      → b + length ys ≤ n
      → window (splice xs (a + b) ys) a n ≡ splice (window xs a n) b ys
  window-splice_inside xs a n b ys h k = get_elem?_ext _ _ λ i. ground (
    arith,
    length-window xs a n h,
    get_elem?-window (splice xs (a + b) ys) a n i,
    get_elem?-splice xs (a + b) ys (a + i),
    get_elem?-splice (window xs a n) b ys i,
    get_elem?-window xs a n i,
  )

  pub All-window {κ} : (P : A → Type κ) (xs : List A) (lo n : ℕ) → All P xs → All P (window xs lo n)
  unfolding window
  All-window P xs lo n h = All-take P n (drop lo xs) (All-drop P lo xs h)

  pub All-splice {κ} :
      (P : A → Type κ) (xs : List A) (lo : ℕ) (ys : List A)
      → All P xs
      → All P ys
      → All P (splice xs lo ys)
  unfolding splice
  All-splice P xs lo ys h k =
      All-append P (take lo xs) _ (All-take P lo xs h)
        (All-append P ys _ k (All-drop P (lo + length ys) xs h))
