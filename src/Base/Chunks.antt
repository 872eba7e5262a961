-- ===== src/Base/Chunks.antt =====
-- `chunks_exact`, by index.
use Prim.Native.Nat.{ℕ, zero, suc, ◌+◌, ◌*◌, ◌≤◌, ◌<◌}
use mathlib.Core.Path.{◌≡◌, refl, ap, sym, ◌∙◌}
use mathlib.Core.Logic.{◌≢◌, inl, inr}
use mathlib.Core.List.{List, [], ◌∷◌, ◌++◌}
use mathlib.Core.Option.{some}
use native.Mathlib.Decide.{dec_lt, ℕ_discrete}
use native.Mathlib.Omega.{arith}
use fat32_reimplementation.Base.Lists.{
  length, get_elem?, take, drop, chunks, length-take, length-drop, get_elem?-none, get_elem?-drop,
  get_elem?_ext, All,
}
use fat32_reimplementation.Base.Windows.{window, splice, window-splice_self, window-splice_apart}
use fat32_reimplementation.Base.Products.{mul_step}

module _ {A : Type 0} where
  abbrev pub set : List A → ℕ → A → List A
  set [] i v = []
  set (x ∷ xs) zero v = v ∷ xs
  set (x ∷ xs) (suc i) v = x ∷ set xs i v

  pub length-set : (xs : List A) (i : ℕ) (v : A) → length (set xs i v) ≡ length xs
  length-set [] i v = refl
  length-set (x ∷ xs) zero v = refl
  length-set (x ∷ xs) (suc i) v = ap suc (length-set xs i v)

  pub get_elem?-set_self :
      (xs : List A) (i : ℕ) (v : A) → i < length xs → get_elem? (set xs i v) i ≡ some v
  get_elem?-set_self [] i v h = absurd (omega arith)
  get_elem?-set_self (x ∷ xs) zero v h = refl
  get_elem?-set_self (x ∷ xs) (suc i) v h = get_elem?-set_self xs i v (omega arith)

  pub get_elem?-set_ne :
      (xs : List A) (i j : ℕ) (v : A) → i ≢ j → get_elem? (set xs i v) j ≡ get_elem? xs j
  get_elem?-set_ne [] i j v h = refl
  get_elem?-set_ne (x ∷ xs) zero zero v h = absurd (h refl)
  get_elem?-set_ne (x ∷ xs) zero (suc j) v h = refl
  get_elem?-set_ne (x ∷ xs) (suc i) zero v h = refl
  get_elem?-set_ne (x ∷ xs) (suc i) (suc j) v h = get_elem?-set_ne xs i j v (λ e. h (ap suc e))

  pub set-append :
      (xs : List A) (y : A) (ys : List A) (v : A) → set (xs ++ y ∷ ys) (length xs) v ≡ xs ++ v ∷ ys
  set-append [] y ys v = refl
  set-append (x ∷ xs) y ys v = rw (set-append xs y ys v)

module _ {A : Type 0} where
  pub length-chunks : (k n : ℕ) (xs : List A) → length (chunks k n xs) ≡ n
  length-chunks k zero xs = refl
  length-chunks k (suc n) xs = ap suc (length-chunks k n (drop k xs))

  drop-drop : (m n k : ℕ) (xs : List A) → k ≡ n + m → drop m (drop n xs) ≡ drop k xs
  drop-drop m n k xs e = get_elem?_ext _ _ λ i.
      get_elem?-drop m (drop n xs) i
      ∙ get_elem?-drop n xs (m + i)
      ∙ ap (get_elem? xs) (omega arith)
      ∙ sym (get_elem?-drop k xs i)

  pub get_elem?-chunks :
      (k n : ℕ) (xs : List A) (j : ℕ)
      → j < n
      → get_elem? (chunks k n xs) j ≡ some (window xs (j * k) k)
  unfolding window
  get_elem?-chunks k zero xs j h = absurd (omega arith)
  get_elem?-chunks k (suc n) xs zero h = let e : 0 * k ≡ 0 = omega arith in rw e
  get_elem?-chunks k (suc n) xs (suc j) h =
      get_elem?-chunks k n (drop k xs) j (omega arith)
      ∙ ap (λ (d : List A). some (take k d)) (drop-drop (j * k) k (suc j * k) xs (omega arith))

  -- Every chunk of a list that is long enough is full.
  pub chunks-length :
      (k n : ℕ) (xs : List A) → n * k ≤ length xs → All (λ c. length c ≡ k) (chunks k n xs)
  chunks-length k zero xs h = tt
  chunks-length k (suc n) xs h = (
    omega (arith, length-take k xs),
    chunks-length k n (drop k xs) (omega (arith, length-drop k xs)),
  )

  -- Overwriting one chunk's place replaces that chunk.
  pub chunks-splice :
      (k n : ℕ) (xs : List A) (i : ℕ) (ys : List A)
      → i < n
      → n * k ≤ length xs
      → length ys ≡ k
      → chunks k n (splice xs (i * k) ys) ≡ set (chunks k n xs) i ys
  chunks-splice k n xs i ys h fits e = get_elem?_ext _ _ at
    where
      room : i * k + length ys ≤ length xs
      room = omega (arith, mul_step i n k h)

      self : window (splice xs (i * k) ys) (i * k) k ≡ ys
      self =
          ap (window (splice xs (i * k) ys) (i * k)) (sym e) ∙ window-splice_self xs (i * k) ys room

      other : (j : ℕ) → j ≢ i → window (splice xs (i * k) ys) (j * k) k ≡ window xs (j * k) k
      other j ne = elim (dec_lt j i) [
        | yes p ↦
            window-splice_apart xs (i * k) ys (j * k) k room (inl (omega (arith, mul_step j i k p)))
        | no p ↦
            window-splice_apart xs (i * k) ys (j * k) k room
              (inr (omega (arith, mul_step i j k (omega arith))))
      ]

      at :
          (j : ℕ)
          → get_elem? (chunks k n (splice xs (i * k) ys)) j ≡ get_elem? (set (chunks k n xs) i ys) j
      at j = elim (dec_lt j n) [
        | yes p ↦ elim (ℕ_discrete j i) [
          | yes q ↦ rw q (
              get_elem?-chunks k n (splice xs (i * k) ys) i h
              ∙ ap some self
              ∙ sym (get_elem?-set_self (chunks k n xs) i ys (rw (length-chunks k n xs) h)))
          | no q ↦
              get_elem?-chunks k n (splice xs (i * k) ys) j p
              ∙ ap some (other j q)
              ∙ sym (get_elem?-chunks k n xs j p)
              ∙ sym (get_elem?-set_ne (chunks k n xs) i j ys (λ r. q (sym r)))
        ]
        | no p ↦
            get_elem?-none (chunks k n (splice xs (i * k) ys)) j
              (omega (arith, length-chunks k n (splice xs (i * k) ys)))
            ∙ sym (
                get_elem?-none (set (chunks k n xs) i ys) j
                  (omega (arith, length-chunks k n xs, length-set (chunks k n xs) i ys)))
      ]
