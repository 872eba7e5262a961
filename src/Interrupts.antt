-- ===== src/Interrupts.antt =====
-- src/interrupts.rs and src/gdt.rs: the interrupt table, the stack of the double fault and the
-- handlers. The crates pc_keyboard, pic8259 and x86_64 and the format of what they print are
-- parameters.
pub mod Vectors
pub mod Handling
pub mod Segments
use mathlib.Core.Option
use fat32_reimplementation.Base.{
  ℕ, ◌+◌, ◌*◌, ◌≡◌, ◌≢◌, List, [], ◌∷◌, ◌++◌, Option, none, some, ◌⊎◌, inl, inr,
}
use fat32_reimplementation.Base.Ascii.{ascii}
use fat32_reimplementation.Vga.{Writer}
use fat32_reimplementation.Printing.{write_fmt}

abbrev pub pic_1_offset : ℕ
pic_1_offset = 32

abbrev pub pic_2_offset : ℕ
pic_2_offset = pic_1_offset + 8

pub data InterruptIndex : Type 0 where
  timer : InterruptIndex
  keyboard : InterruptIndex

unfoldable pub as_u8 : InterruptIndex → ℕ
as_u8 timer = pic_1_offset
as_u8 keyboard = pic_1_offset + 1

unfoldable pub as_usize : InterruptIndex → ℕ
unfolding as_u8
as_usize index = as_u8 index

-- `gdt::DOUBLE_FAULT_IST_INDEX`.
abbrev pub double_fault_ist_index : ℕ
double_fault_ist_index = 0

-- The functions of the module that the table names.
pub data Handler : Type 0 where
  breakpoint_handler : Handler
  double_fault_handler : Handler
  timer_interrupt_handler : Handler
  keyboard_interrupt_handler : Handler
  page_fault_handler : Handler

-- x86_64's table: the vectors of its named entries, `new`, `set_handler_fn` and `set_stack_index`
-- of the entry of a vector, and what an entry holds; the table of interrupt stacks in a `TSS`.
pub record Tables : Type 1 where
  pub Idt : Type 0
  pub TaskStateSegment : Type 0
  pub breakpoint : ℕ
  pub double_fault : ℕ
  pub page_fault : ℕ
  pub new : Idt
  pub set_handler_fn : Idt → ℕ → Handler → Idt
  pub set_stack_index : Idt → ℕ → ℕ → Idt
  pub handler : Idt → ℕ → Option Handler
  pub stack_index : Idt → ℕ → Option ℕ
  pub new_tss : TaskStateSegment
  pub set_stack : TaskStateSegment → ℕ → ℕ → TaskStateSegment
  pub stack : TaskStateSegment → ℕ → ℕ

-- What is used of that crate: the vectors of the processor's exceptions, and that an entry holds
-- what was set last.
pub record IsTables (t : Tables) : Type 0 where
  pub is_breakpoint : t.breakpoint ≡ 3
  pub is_double_fault : t.double_fault ≡ 8
  pub is_page_fault : t.page_fault ≡ 14
  pub new-handler : (i : ℕ) → t.handler t.new i ≡ none
  pub new-stack_index : (i : ℕ) → t.stack_index t.new i ≡ none
  pub handler-set :
      (d : t.Idt) (i : ℕ) (h : Handler) → t.handler (t.set_handler_fn d i h) i ≡ some h
  pub handler-set_other :
      (d : t.Idt) (i j : ℕ) (h : Handler)
      → i ≢ j
      → t.handler (t.set_handler_fn d i h) j ≡ t.handler d j
  pub stack_index-set_handler_fn :
      (d : t.Idt) (i j : ℕ) (h : Handler)
      → t.stack_index (t.set_handler_fn d i h) j ≡ t.stack_index d j
  pub handler-set_stack_index :
      (d : t.Idt) (i j n : ℕ) → t.handler (t.set_stack_index d i n) j ≡ t.handler d j
  pub stack_index-set : (d : t.Idt) (i n : ℕ) → t.stack_index (t.set_stack_index d i n) i ≡ some n
  pub stack_index-set_other :
      (d : t.Idt) (i j n : ℕ)
      → i ≢ j
      → t.stack_index (t.set_stack_index d i n) j ≡ t.stack_index d j
  pub stack-set : (s : t.TaskStateSegment) (i a : ℕ) → t.stack (t.set_stack s i a) i ≡ a

module _ (t : Tables) where
  -- `IDT`.
  unfoldable pub idt : t.Idt
  unfolding as_usize
  idt =
      let d1 = t.set_handler_fn t.new t.breakpoint breakpoint_handler in
      let d2 =
        t.set_stack_index (t.set_handler_fn d1 t.double_fault double_fault_handler) t.double_fault
          double_fault_ist_index in
      let d3 = t.set_handler_fn d2 (as_usize timer) timer_interrupt_handler in
      let d4 = t.set_handler_fn d3 (as_usize keyboard) keyboard_interrupt_handler in
      t.set_handler_fn d4 t.page_fault page_fault_handler

  abbrev pub stack_size : ℕ
  stack_size = 4096 * 5

  -- `gdt::TSS`, with the address of its static stack.
  unfoldable pub tss : ℕ → t.TaskStateSegment
  tss stack_start = t.set_stack t.new_tss double_fault_ist_index (stack_start + stack_size)

-- The crates of the handlers: a decoded key is a character or a key; `add_byte` and
-- `process_keyevent` of the keyboard, where an error of `add_byte` is `none`; the two chained PICs;
-- how a character, a key, a stack frame, an address and an error code are printed, and what a panic
-- prints for its message.
pub record Devices : Type 1 where
  pub Keyboard : Type 0
  pub KeyEvent : Type 0
  pub KeyCode : Type 0
  pub add_byte : Keyboard → ℕ → Option (Option KeyEvent) × Keyboard
  pub process_keyevent : Keyboard → KeyEvent → Option (ℕ ⊎ KeyCode) × Keyboard
  pub Pics : Type 0
  pub notify_end_of_interrupt : Pics → ℕ → Pics
  pub InterruptStackFrame : Type 0
  pub PageFaultErrorCode : Type 0
  pub character : ℕ → List (List ℕ)
  pub raw_key : KeyCode → List (List ℕ)
  pub debug_frame : InterruptStackFrame → List ℕ
  pub debug_address : ℕ → List ℕ
  pub debug_code : PageFaultErrorCode → List ℕ
  pub panic_info : List ℕ → List ℕ

module _ (d : Devices) where
  pub record Machine : Type 0 where
    pub writer : Writer
    pub keyboard : d.Keyboard
    pub pics : d.Pics

  -- A handler returns, or halts for ever.
  pub data Outcome : Type 0 where
    returns : Machine → Outcome
    halts : Machine → Outcome

  -- `print!`.
  unfoldable pub print : Machine → List (List ℕ) → Machine
  unfolding write_fmt
  print m text = record m { writer = write_fmt m.writer text }

  unfoldable pub print_key : Machine → Option (ℕ ⊎ d.KeyCode) → Machine
  unfolding print
  print_key m none = m
  print_key m (some (inl c)) = print m (d.character c)
  print_key m (some (inr key)) = print m (d.raw_key key)

  -- What `add_byte` returned is processed.
  unfoldable pub process : Machine → Option (Option d.KeyEvent) → Machine
  unfolding print_key
  process m none = m
  process m (some none) = m
  process m (some (some event)) =
      let (key, k) = d.process_keyevent m.keyboard event in
      print_key (record m { keyboard = k }) key

  abbrev pub end_of_interrupt : Machine → InterruptIndex → Machine
  end_of_interrupt m index = record m { pics = d.notify_end_of_interrupt m.pics (as_u8 index) }

  -- With the scancode that the port returns.
  unfoldable pub keyboard_interrupt : Machine → ℕ → Machine
  unfolding as_u8 process
  keyboard_interrupt m scancode =
      let (event, k) = d.add_byte m.keyboard scancode in
      end_of_interrupt (process (record m { keyboard = k }) event) keyboard

  unfoldable pub timer_interrupt : Machine → Machine
  unfolding as_u8
  timer_interrupt m = end_of_interrupt m timer

  -- What interrupts the kernel, with what the handler reads of it.
  pub data Event : Type 0 where
    breakpoint : d.InterruptStackFrame → Event
    double_fault : d.InterruptStackFrame → Event
    timer_tick : Event
    scancode : ℕ → Event
    page_fault : ℕ → d.PageFaultErrorCode → d.InterruptStackFrame → Event

  abbrev pub line_end : List ℕ
  line_end = b'\n' ∷ []

  unfoldable pub breakpoint_text : d.InterruptStackFrame → List (List ℕ)
  breakpoint_text frame = ascii "EXCEPTION: BREAKPOINT\n" ∷ d.debug_frame frame ∷ line_end ∷ []

  -- The four lines of `page_fault_handler`.
  unfoldable pub page_fault_text : ℕ → d.PageFaultErrorCode → d.InterruptStackFrame → List (List ℕ)
  page_fault_text address code frame =
      ascii "EXCEPTION: PAGE FAULT\n"
      ∷ ascii "Accessed Address: "
      ∷ d.debug_address address
      ∷ line_end
      ∷ ascii "Error Code: "
      ∷ d.debug_code code
      ∷ line_end
      ∷ d.debug_frame frame
      ∷ line_end
      ∷ []

  -- The kernel's panic handler prints the panic and a line end.
  unfoldable pub panic_text : List ℕ → List (List ℕ)
  panic_text message = d.panic_info message ∷ line_end ∷ []

  unfoldable pub double_fault_text : d.InterruptStackFrame → List (List ℕ)
  unfolding panic_text
  double_fault_text frame = panic_text (ascii "EXCEPTION: DOUBLE FAULT\n " ++ d.debug_frame frame)

  unfoldable pub handle : Machine → Event → Outcome
  unfolding print keyboard_interrupt timer_interrupt breakpoint_text double_fault_text
      page_fault_text
  handle m (breakpoint frame) = returns (print m (breakpoint_text frame))
  handle m (double_fault frame) = halts (print m (double_fault_text frame))
  handle m timer_tick = returns (timer_interrupt m)
  handle m (scancode code) = returns (keyboard_interrupt m code)
  handle m (page_fault address code frame) = halts (print m (page_fault_text address code frame))

  -- Events in their order, up to the first one that halts.
  unfoldable pub handle_all : Machine → List Event → Outcome
  unfolding handle
  handle_all m [] = returns m
  handle_all m (event ∷ events) = elim (handle m event) [
    | returns m' ↦ handle_all m' events
    | halts m' ↦ halts m'
  ]
