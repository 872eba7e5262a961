-- ===== src/Frames/Ascending.antt =====
-- The usable pages of a memory map, in their order.
use fat32_reimplementation.Base.{
  inl, inr, ℕ, zero, suc, ◌+◌, ◌-◌, ◌*◌, ◌/◌, ◌%◌, ◌^◌, ◌≤◌, ◌<◌, ◌≡◌, refl, ap, ◌∙◌, List, [], ◌∷◌,
  ◌++◌, Bool-cases, true, false, some, arith, length, get_elem?, get_or, get_elem?-some,
  get_elem?-append, lt→ltb, le→ltb, if◌then◌else◌,
}
use fat32_reimplementation.Frames.{Boot, step_by, usable_addresses}

-- The regions are made of whole pages of the physical address space, and they stand in
-- order, the first one from `lo` on.
abbrev pub IsOrdered : (boot : Boot) → ℕ → List boot.MemoryRegion → Type 0
IsOrdered boot lo [] = Unit {0}
IsOrdered boot lo (r ∷ regions) =
    (boot.start_addr r % 4096 ≡ 0)
    × (boot.end_addr r % 4096 ≡ 0)
    × (lo ≤ boot.start_addr r)
    × (boot.start_addr r ≤ boot.end_addr r)
    × (boot.end_addr r ≤ 2 ^ 52)
    × IsOrdered boot (boot.end_addr r) regions

pub length-step_by : (count start : ℕ) → length (step_by count start) ≡ count
unfolding step_by
length-step_by zero start = refl
length-step_by (suc count) start = ap suc (length-step_by count (start + 4096))

pub get_elem?-step_by :
    (count start k : ℕ) → k < count → get_elem? (step_by count start) k ≡ some (start + k * 4096)
unfolding step_by
get_elem?-step_by zero start k lt = absurd (omega arith)
get_elem?-step_by (suc count) start zero lt = ground arith
get_elem?-step_by (suc count) start (suc k) lt =
    ground (arith, get_elem?-step_by count (start + 4096) k)

-- Pages from `lo` on: each is a multiple of 4096, and ends before the next one and in the address space.
abbrev pub Ascending : ℕ → List ℕ → Type 0
Ascending lo [] = Unit {0}
Ascending lo (a ∷ addrs) =
    (lo ≤ a) × (a % 4096 ≡ 0) × (a + 4096 ≤ 2 ^ 52) × Ascending (a + 4096) addrs

Ascending-weaken :
    (lo lo' : ℕ) (addrs : List ℕ) → lo ≤ lo' → Ascending lo' addrs → Ascending lo addrs
Ascending-weaken lo lo' [] le asc = tt
Ascending-weaken lo lo' (a ∷ addrs) le asc = (omega (arith, asc.0), asc.1, asc.2, asc.3)

Ascending-step_by :
    (count start lo stop : ℕ) (rest : List ℕ)
    → lo ≤ start
    → start % 4096 ≡ 0
    → start + count * 4096 ≡ stop
    → stop ≤ 2 ^ 52
    → Ascending stop rest
    → Ascending lo (step_by count start ++ rest)
unfolding step_by
Ascending-step_by zero start lo stop rest le al e hi asc =
    Ascending-weaken lo stop rest (omega arith) asc
Ascending-step_by (suc count) start lo stop rest le al e hi asc = (
  le,
  al,
  omega arith,
  Ascending-step_by count (start + 4096) (start + 4096) stop rest (omega arith) (omega arith)
      (omega arith) hi asc,
)

pub usable_addresses-Ascending :
    (boot : Boot) (lo : ℕ) (regions : List boot.MemoryRegion)
    → IsOrdered boot lo regions
    → Ascending lo (usable_addresses boot regions)
unfolding usable_addresses
usable_addresses-Ascending boot lo [] o = tt
usable_addresses-Ascending boot lo (r ∷ regions) (starts, stops, above, wide, low, rest) =
    let asc = usable_addresses-Ascending boot (boot.end_addr r) regions rest in
    let pages = step_by ((boot.end_addr r - boot.start_addr r + 4095) / 4096) (boot.start_addr r) in
    elim (boot.is_usable r)
      as (λ usable. Ascending lo (
        if usable then pages ++ usable_addresses boot regions else usable_addresses boot regions)) [
          | true ↦
              Ascending-step_by ((boot.end_addr r - boot.start_addr r + 4095) / 4096)
                (boot.start_addr r) lo (boot.end_addr r) (usable_addresses boot regions) above
                starts (omega arith) low asc
          | false ↦
              Ascending-weaken lo (boot.end_addr r) (usable_addresses boot regions) (omega arith)
                asc
        ]

-- Two pages of an ascending list.
pub Ascending-known :
    (lo : ℕ) (addrs : List ℕ) (i a : ℕ)
    → Ascending lo addrs
    → get_elem? addrs i ≡ some a
    → (lo + i * 4096 ≤ a) × (a % 4096 ≡ 0) × (a + 4096 ≤ 2 ^ 52)
Ascending-known lo [] i a asc at = absurd (ground arith)
Ascending-known lo (c ∷ addrs) zero a asc at =
    let e : c ≡ a = cc in
    (omega (arith, asc.0, e), omega (arith, asc.1, e), omega (arith, asc.2, e))
Ascending-known lo (c ∷ addrs) (suc i) a asc at =
    let (le, al, hi) = Ascending-known (c + 4096) addrs i a asc.3 at in
    (omega (arith, asc.0), al, hi)

pub Ascending-apart :
    (lo : ℕ) (addrs : List ℕ) (i j : ℕ) (a b : ℕ)
    → Ascending lo addrs
    → i < j
    → get_elem? addrs i ≡ some a
    → get_elem? addrs j ≡ some b
    → a + 4096 ≤ b
Ascending-apart lo [] i j a b asc lt ei ej = absurd (ground arith)
Ascending-apart lo (c ∷ addrs) i zero a b asc lt ei ej = absurd (omega arith)
Ascending-apart lo (c ∷ addrs) zero (suc j) a b asc lt ei ej =
    let e : c ≡ a = cc in omega (arith, e, (Ascending-known (c + 4096) addrs j b asc.3 ej).0)
Ascending-apart lo (c ∷ addrs) (suc i) (suc j) a b asc lt ei ej =
    Ascending-apart (c + 4096) addrs i j a b asc.3 (omega arith) ei ej

pub page_at :
    (boot : Boot) (regions : List boot.MemoryRegion) (n : ℕ)
    → n < length (usable_addresses boot regions)
    → (a : ℕ) × (get_elem? (usable_addresses boot regions) n ≡ some a)
page_at boot regions n lt = (
  get_or (usable_addresses boot regions) n 0,
  get_elem?-some (usable_addresses boot regions) n 0 lt,
)

-- The addresses of a usable region stand in front of those of the later ones.
usable_addresses-usable :
    (boot : Boot) (region : boot.MemoryRegion) (regions : List boot.MemoryRegion) (k : ℕ)
    → boot.is_usable region ≡ true
    → boot.start_addr region + k * 4096 < boot.end_addr region
    → get_elem? (usable_addresses boot (region ∷ regions)) k
      ≡ some (boot.start_addr region + k * 4096)
unfolding usable_addresses
usable_addresses-usable boot region regions k usable inside =
    let count = (boot.end_addr region - boot.start_addr region + 4095) / 4096 in
    rw
      (
        usable,
        get_elem?-append (step_by count (boot.start_addr region)) (usable_addresses boot regions) k,
        length-step_by count (boot.start_addr region),
        lt→ltb k count (omega arith),
      )
      (get_elem?-step_by count (boot.start_addr region) k (omega arith))

get_elem?-append-behind :
    {A : Type 0} (xs ys : List A) (n : ℕ) → get_elem? (xs ++ ys) (length xs + n) ≡ get_elem? ys n
get_elem?-append-behind xs ys n =
    let e : length xs + n - length xs ≡ n = omega arith in
    rw (get_elem?-append xs ys (length xs + n), le→ltb (length xs + n) (length xs) (omega arith), e)
      refl

-- The addresses of the later regions stand behind those of the first one.
usable_addresses-later :
    (boot : Boot) (region : boot.MemoryRegion) (regions : List boot.MemoryRegion) (n : ℕ)
    → (n' : ℕ) × (get_elem? (usable_addresses boot (region ∷ regions)) n'
        ≡ get_elem? (usable_addresses boot regions) n)
unfolding usable_addresses
usable_addresses-later boot region regions n =
    let count = (boot.end_addr region - boot.start_addr region + 4095) / 4096 in
    let pages = step_by count (boot.start_addr region) in
    elim (Bool-cases (boot.is_usable region)) [
      | inl usable ↦ (
        length pages + n,
        rw usable (get_elem?-append-behind pages (usable_addresses boot regions) n),
      )
      | inr unusable ↦ (n, rw unusable refl)
    ]

pub usable_addresses-reached :
    (boot : Boot) (regions : List boot.MemoryRegion) (r k : ℕ) (region : boot.MemoryRegion)
    → get_elem? regions r ≡ some region
    → boot.is_usable region ≡ true
    → boot.start_addr region + k * 4096 < boot.end_addr region
    → (n : ℕ) × (get_elem? (usable_addresses boot regions) n
        ≡ some (boot.start_addr region + k * 4096))
usable_addresses-reached boot [] r k region at usable inside = absurd (ground arith)
usable_addresses-reached boot (first ∷ regions) zero k region at usable inside =
    let e : first ≡ region = cc in
    (k, rw e (usable_addresses-usable boot region regions k usable inside))
usable_addresses-reached boot (first ∷ regions) (suc r) k region at usable inside =
    let (n, e) = usable_addresses-reached boot regions r k region at usable inside in
    let (n', e') = usable_addresses-later boot first regions n in (n', e' ∙ e)
