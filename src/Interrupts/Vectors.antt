-- ===== src/Interrupts/Vectors.antt =====
-- The interrupt table by vectors.
use fat32_reimplementation.Base.{
  ℕ, ◌+◌, ◌≡◌, sym, ap, ◌∙◌, Option, none, some, ◌==◌, ==_iff, Bool-cases, inl, inr, Bool,
  if◌then◌else◌, arith,
}
use fat32_reimplementation.Interrupts.{
  Handler, breakpoint_handler, double_fault_handler, timer_interrupt_handler,
  keyboard_interrupt_handler, page_fault_handler, Tables, IsTables, idt, tss, as_u8, as_usize,
  double_fault_ist_index,
}

-- The function for a vector: the processor's exceptions, and the lines of the two PICs.
abbrev pub handler_of : ℕ → Option Handler
handler_of v =
    if v == 14
    then some page_fault_handler
    else if v == 33
    then some keyboard_interrupt_handler
    else if v == 32
    then some timer_interrupt_handler
    else if v == 8
    then some double_fault_handler
    else if v == 3
    then some breakpoint_handler
    else none

module _ (t : Tables) (laws : IsTables t) where
  set-handler :
      (d : t.Idt) (i v : ℕ) (h : Handler) (before : Option Handler)
      → t.handler d v ≡ before
      → t.handler (t.set_handler_fn d i h) v ≡ (if v == i then some h else before)
  set-handler d i v h before e = elim (Bool-cases (v == i)) [
    | inl same ↦
        let eq : i ≡ v = sym ((==_iff v i).0 same) in
        ap (λ (k : ℕ). t.handler (t.set_handler_fn d k h) v) eq
        ∙ laws.handler-set d v h
        ∙ sym (ap (λ (b : Bool). if b then some h else before) same)
    | inr other ↦
        laws.handler-set_other d i v h (ground (arith, other))
        ∙ e
        ∙ sym (ap (λ (b : Bool). if b then some h else before) other)
  ]

  set-stack_index :
      (d : t.Idt) (i v n : ℕ)
      → t.stack_index d v ≡ none
      → t.stack_index (t.set_stack_index d i n) v ≡ (if v == i then some n else none)
  set-stack_index d i v n e = elim (Bool-cases (v == i)) [
    | inl same ↦
        let eq : i ≡ v = sym ((==_iff v i).0 same) in
        ap (λ (k : ℕ). t.stack_index (t.set_stack_index d k n) v) eq
        ∙ laws.stack_index-set d v n
        ∙ sym (ap (λ (b : Bool). if b then some n else none) same)
    | inr other ↦
        laws.stack_index-set_other d i v n (ground (arith, other))
        ∙ e
        ∙ sym (ap (λ (b : Bool). if b then some n else none) other)
  ]

-- With x86_64's tables, whose breakpoint, double fault and page fault are the vectors 3, 8 and 14:
-- each of those vectors, 32 for the timer and 33 for the keyboard has the function of its name and
-- every other vector has none; only the double fault changes the stack, to one that begins 20480
-- bytes behind the start of the memory reserved for it.
pub idt-handler :
    (t : Tables)
    → IsTables t
    → (v stack_start : ℕ)
    → (t.handler (idt t) v ≡ handler_of v)
      × (t.stack_index (idt t) v ≡ (if v == 8 then some double_fault_ist_index else none))
      × (t.stack (tss t stack_start) double_fault_ist_index ≡ stack_start + 20480)
unfolding idt tss as_usize as_u8
idt-handler t laws v stack_start =
    rw (laws.is_breakpoint, laws.is_double_fault, laws.is_page_fault)
      (
        set-handler t laws _ 14 v page_fault_handler _ (
            set-handler t laws _ 33 v keyboard_interrupt_handler _ (
              set-handler t laws _ 32 v timer_interrupt_handler _ (
                laws.handler-set_stack_index _ 8 v 0
                ∙ set-handler t laws _ 8 v double_fault_handler _
                    (set-handler t laws _ 3 v breakpoint_handler _ (laws.new-handler v))))),
        laws.stack_index-set_handler_fn _ 14 v page_fault_handler
            ∙ laws.stack_index-set_handler_fn _ 33 v keyboard_interrupt_handler
            ∙ laws.stack_index-set_handler_fn _ 32 v timer_interrupt_handler
            ∙ set-stack_index t laws _ 8 v 0 (
                laws.stack_index-set_handler_fn _ 8 v double_fault_handler
                ∙ laws.stack_index-set_handler_fn _ 3 v breakpoint_handler
                ∙ laws.new-stack_index v),
        laws.stack-set _ 0 _,
      )
