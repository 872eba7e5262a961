-- ===== src/Allocator/Alignment.antt =====
-- `align_up` and the multiples of the alignment.
use native.Mathlib.Nat.{div-add-mod, mod-lt, mul-mod_right}
use native.Mathlib.Decide.{ℕ_discrete}
use fat32_reimplementation.Base.{
  ℕ, ◌+◌, ◌-◌, ◌*◌, ◌/◌, ◌%◌, ◌^◌, ◌≤◌, ◌<◌, ◌≡◌, refl, ap, ◌∙◌, ne→==, ==-eq, lt→ltb, done, arith,
}
use fat32_reimplementation.Allocator.{align_up}

-- `r` is the least multiple of `align` from `addr` on.
pub record IsAligned (addr align r : ℕ) : Type 0 where
  pub multiple : r % align ≡ 0
  pub from : addr ≤ r
  pub near : r < addr + align

rounded : (addr align : ℕ) → 0 < align → (addr - addr % align + align) % align ≡ 0
rounded addr align pos =
    let e : addr - addr % align + align ≡ align * (addr / align + 1) =
      omega (arith, div-add-mod addr align) in
    ap (λ (t : ℕ). t % align) e ∙ mul-mod_right align (addr / align + 1)

-- For an alignment above 0 that can be added to the address in 64 bits, `align_up` returns, and its
-- result is the least multiple of the alignment from the address on.
pub align_up-IsAligned :
    (addr align : ℕ)
    → 0 < align
    → addr + align ≤ 2 ^ 64
    → (r : ℕ) × (align_up addr align ≡ done r) × IsAligned addr align r
unfolding align_up
align_up-IsAligned addr align pos fits = elim (ℕ_discrete (addr % align) 0) [
  | yes p ↦ (
    addr,
    rw (ne→== align 0 (omega arith), ==-eq (addr % align) 0 p) refl,
    record { multiple = p; from = omega arith; near = omega arith },
  )
  | no p ↦ (
    addr - addr % align + align,
    rw
        (
          ne→== align 0 (omega arith),
          ne→== (addr % align) 0 p,
          lt→ltb (addr - addr % align + align) (2 ^ 64) (omega (arith, div-add-mod addr align)),
        )
        refl,
    record {
      multiple = rounded addr align pos;
      from = omega (arith, mod-lt addr pos);
      near = omega (arith, div-add-mod addr align);
    },
  )
]

-- The converse: a result is the aligned address.
pub IsAligned-align_up :
    (addr align r : ℕ) → 0 < align → align_up addr align ≡ done r → IsAligned addr align r
unfolding align_up
IsAligned-align_up addr align r pos e = elim (ℕ_discrete (addr % align) 0) [
  | yes p ↦
      let same : addr ≡ r = ground arith in
      rw (← same) (record { multiple = p; from = omega arith; near = omega arith })
  | no p ↦
      let same : addr - addr % align + align ≡ r = ground arith in
      rw (← same) (record {
        multiple = rounded addr align pos;
        from = omega (arith, mod-lt addr pos);
        near = omega (arith, div-add-mod addr align);
      })
]
