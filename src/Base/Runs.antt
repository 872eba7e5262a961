-- ===== src/Base/Runs.antt =====
-- What a call may do: return, panic, or run out of the model's fuel.
use mathlib.Core.Path.{◌≡◌, refl, ap, ◌∙◌}
use mathlib.Core.Option.{Option, none, some}
use Prim.Native.String.{String}
use native.Mathlib.Omega.{arith}

pub data Run (A : Type 0) : Type 0 where
  done : A → Run A
  panic : Run A
  out_of_fuel : Run A

infixl 5 ◌>>=◌ ◌>>◌
abbrev pub ◌>>=◌ : {A B : Type 0} → Run A → (A → Run B) → Run B
done a >>= f = f a
panic >>= f = panic
out_of_fuel >>= f = out_of_fuel

abbrev pub ◌>>◌ : {A B : Type 0} → Run A → Run B → Run B
m >> k = m >>= λ _. k

-- Rust's `Result` with a message for the error.
pub data Result (A : Type 0) : Type 0 where
  ok : A → Result A
  err : String → Result A

-- `unwrap`, `expect`.
abbrev pub unwrap : {A : Type 0} → Option A → Run A
unwrap none = panic
unwrap (some a) = done a

-- A chain whose first call returns goes on with what it returned.
pub bind-done :
    {A B : Type 0} {m : Run A} (f : A → Run B) {a : A} {r : Run B}
    → m ≡ done a
    → f a ≡ r
    → (m >>= f) ≡ r
bind-done {A} f e h = ap (λ (n : Run A). n >>= f) e ∙ h

pub >>=-eq-done :
    {A B : Type 0} (m : Run A) (f : A → Run B) {b : B}
    → (m >>= f) ≡ done b
    → (a : A) × (m ≡ done a) × (f a ≡ done b)
>>=-eq-done (done a) f h = (a, refl, h)
>>=-eq-done panic f h = ground arith
>>=-eq-done out_of_fuel f h = ground arith
