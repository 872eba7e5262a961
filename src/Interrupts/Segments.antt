-- ===== src/Interrupts/Segments.antt =====
-- src/gdt.rs: the segments that `init` loads. The crate's tables are parameters.
use fat32_reimplementation.Base.{ℕ, ◌≡◌, ◌+◌, some, Option, ap, ◌∙◌}
use fat32_reimplementation.Interrupts.{Tables, IsTables, tss, idt, double_fault_ist_index}
use fat32_reimplementation.Interrupts.Vectors.{idt-handler}

-- What a descriptor describes: the kernel's code, or a task state.
pub data Descriptor (Tss : Type 0) : Type 0 where
  kernel_code_segment : Descriptor Tss
  tss_segment : Tss → Descriptor Tss

-- `GlobalDescriptorTable::new`, `add_entry`, and the entry of a selector.
pub record Descriptors (Tss : Type 0) : Type 1 where
  pub Gdt : Type 0
  pub SegmentSelector : Type 0
  pub new : Gdt
  pub add_entry : Gdt → Descriptor Tss → SegmentSelector × Gdt
  pub entry : Gdt → SegmentSelector → Option (Descriptor Tss)

-- What is used of that crate: an added entry is found under its selector, also behind another one.
pub record IsDescriptors {Tss : Type 0} (d : Descriptors Tss) : Type 0 where
  pub entry-add_entry :
      (g : d.Gdt) (x : Descriptor Tss) → d.entry (d.add_entry g x).1 (d.add_entry g x).0 ≡ some x
  pub entry-add_entry_other :
      (g : d.Gdt) (s : d.SegmentSelector) (x y : Descriptor Tss)
      → d.entry g s ≡ some x
      → d.entry (d.add_entry g y).1 s ≡ some x

module _ {Tss : Type 0} (d : Descriptors Tss) where
  pub record Selectors : Type 0 where
    pub code_selector : d.SegmentSelector
    pub tss_selector : d.SegmentSelector

  -- `GDT`.
  unfoldable pub gdt : Tss → d.Gdt × Selectors
  gdt task =
      let (code_selector, g1) = d.add_entry d.new kernel_code_segment in
      let (tss_selector, g2) = d.add_entry g1 (tss_segment task) in
      (g2, record { code_selector = code_selector; tss_selector = tss_selector })

  -- The processor's registers for segments.
  pub record Segments : Type 0 where
    pub table : d.Gdt
    pub cs : d.SegmentSelector
    pub task : d.SegmentSelector

  unfoldable pub init : Tss → Segments
  unfolding gdt
  init task =
      let (g, selectors) = gdt task in
      record { table = g; cs = selectors.code_selector; task = selectors.tss_selector }

-- With x86_64's tables: behind `gdt::init` the code register names the kernel's code and the task
-- register a task state of the loaded table; in that task state the stack that the double fault's
-- entry of the interrupt table asks for ends 20480 bytes behind the start of the memory reserved
-- for it.
pub init-segments :
    (t : Tables)
    → IsTables t
    → (d : Descriptors t.TaskStateSegment) → IsDescriptors d
    → (stack_start : ℕ)
    → (task : t.TaskStateSegment) × (index : ℕ) × (d.entry
          (init d (tss t stack_start)).table
          (init d (tss t stack_start)).cs
        ≡ some kernel_code_segment)
      × (d.entry (init d (tss t stack_start)).table (init d (tss t stack_start)).task
          ≡ some (tss_segment task))
      × (t.stack_index (idt t) t.double_fault ≡ some index)
      × (t.stack task index ≡ stack_start + 20480)
unfolding init gdt
init-segments t laws d known stack_start =
    let task = tss t stack_start in
    let g1 = (d.add_entry d.new kernel_code_segment).1 in
    let (_, index, stack) = idt-handler t laws 8 stack_start in
    (
      task,
      double_fault_ist_index,
      known.entry-add_entry_other g1 _ kernel_code_segment (tss_segment task)
          (known.entry-add_entry d.new kernel_code_segment),
      known.entry-add_entry g1 (tss_segment task),
      ap (t.stack_index (idt t)) laws.is_double_fault ∙ index,
      stack,
    )
