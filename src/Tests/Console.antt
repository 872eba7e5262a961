-- ===== src/Tests/Console.antt =====
-- The theorems on the console, the interrupts and the test harness at concrete inputs.
use fat32_reimplementation.Base.{
  ℕ, arith, length, get_elem?, get_elem?-append, lt_of_get_elem?, ◌+◌, ◌≡◌, ◌⊎◌, refl, ap, inl, inr,
  List, [], ◌∷◌, ◌++◌, map, Bool, true, false, Option, none, some, ◌==◌, if◌then◌else◌, ne→==,
  ==-eq,
}
use fat32_reimplementation.Base.Ascii.{ascii}
use fat32_reimplementation.Vga.{Writer}
use fat32_reimplementation.Printing.{
  Processor, IsMasking, Console, holding, outside, Step, Reach, start, here, next, enter, lock,
  interrupt, write_fmt,
}
use fat32_reimplementation.Printing.Locking.{IsIdle, write_all, Reach-whole, Reach-progress}
use fat32_reimplementation.Interrupts.{
  Handler, Tables, IsTables, idt, tss, double_fault_ist_index, Devices, Machine, returns,
  handle_all,
}
use fat32_reimplementation.Interrupts.Vectors.{handler_of, idt-handler}
use fat32_reimplementation.Interrupts.Handling.{event_of, typed, acknowledged, handle_all-typed}
use fat32_reimplementation.Interrupts.Segments as Segments
use fat32_reimplementation.Interrupts.Segments.{
  Descriptor, Descriptors, IsDescriptors, kernel_code_segment, tss_segment, init-segments,
}
use fat32_reimplementation.Kernel.Harness as Harness
use fat32_reimplementation.Kernel.Harness.{
  Test, test_runner, finished, halted, header, ok_lines, test_runner-verdict,
}

-- A processor that is its interrupt flag.
abbrev flag : Processor
flag = record {
  Cpu = Bool;
  are_enabled = λ c. c;
  disable = λ c. false;
  restore = λ before c. before;
  gate = λ c. false;
  resume = λ before c. before;
}

flag-IsMasking : IsMasking flag
flag-IsMasking = record { disabled = λ c. refl; gated = λ c. refl }

abbrev screen : Writer
screen = record {
  column_position = 0;
  color_code = 14;
  chars = λ row col. record { ascii_character = b' '; color_code = 14 };
}

abbrev hello : List (List ℕ)
hello = ascii "hello" ∷ []

abbrev tick : List (List ℕ)
tick = ascii "." ∷ []

-- The thread is about to print; an interrupt prints a text before it does.
abbrev interrupted : Console flag
interrupted = record {
  cpu = false;
  locked = true;
  writer = screen;
  running = record { phase = holding false tick; texts = [] };
  suspended = (true, record { phase = outside; texts = hello ∷ [] }) ∷ [];
}

interrupted-Reach : Reach flag (start flag true screen (hello ∷ [])) (tick ∷ []) interrupted
interrupted-Reach =
    next
      (next (next here (interrupt true false screen _ (tick ∷ []) [] refl))
        (enter false false screen tick [] _))
      (lock false false screen tick [] _)

Reach-whole_example :
    ((true ≡ false) × (screen ≡ write_all screen (tick ∷ []))) ⊎ ((true ≡ true) × (false ≡ false))
Reach-whole_example =
    Reach-whole flag flag-IsMasking true screen (hello ∷ []) (tick ∷ []) interrupted
      interrupted-Reach

Reach-progress_example :
    IsIdle flag interrupted
    ⊎ ((begun : List (List (List ℕ))) × (t : Console flag) × Step flag interrupted begun t)
Reach-progress_example =
    Reach-progress flag flag-IsMasking true screen (hello ∷ []) (tick ∷ []) interrupted
      interrupted-Reach

-- Tables that are functions of the vector.
abbrev update : {A : Type 0} → (ℕ → A) → ℕ → A → ℕ → A
update f i a j = if i == j then a else f j

abbrev tables : Tables
tables = record {
  Idt = (ℕ → Option Handler) × (ℕ → Option ℕ);
  TaskStateSegment = ℕ → ℕ;
  breakpoint = 3;
  double_fault = 8;
  page_fault = 14;
  new = (λ i. none, λ i. none);
  set_handler_fn = λ d i h. (update d.0 i (some h), d.1);
  set_stack_index = λ d i n. (d.0, update d.1 i (some n));
  handler = λ d i. d.0 i;
  stack_index = λ d i. d.1 i;
  new_tss = λ i. 0;
  set_stack = λ s i a. update s i a;
  stack = λ s i. s i;
}

update_self : {A : Type 0} (f : ℕ → A) (i : ℕ) (a : A) → update f i a i ≡ a
update_self f i a = ap (λ (b : Bool). if b then a else f i) (==-eq i i refl)

tables-IsTables : IsTables tables
tables-IsTables = record {
  is_breakpoint = refl;
  is_double_fault = refl;
  is_page_fault = refl;
  new-handler = λ i. refl;
  new-stack_index = λ i. refl;
  handler-set = λ d i h. update_self d.0 i (some h);
  handler-set_other = λ d i j h ne. ap (λ (b : Bool). if b then some h else d.0 j) (ne→== i j ne);
  stack_index-set_handler_fn = λ d i j h. refl;
  handler-set_stack_index = λ d i j n. refl;
  stack_index-set = λ d i n. update_self d.1 i (some n);
  stack_index-set_other =
      λ d i j n ne. ap (λ (b : Bool). if b then some n else d.1 j) (ne→== i j ne);
  stack-set = λ s i a. update_self s i a;
}

idt-handler_example :
    (tables.handler (idt tables) 33 ≡ handler_of 33)
    × (tables.stack_index (idt tables) 33 ≡ (if 33 == 8 then some double_fault_ist_index else none))
    × (tables.stack (tss tables 1000) double_fault_ist_index ≡ 1000 + 20480)
idt-handler_example = idt-handler tables tables-IsTables 33 1000

-- A descriptor table that is a list, and selectors that are indices.
abbrev descriptors : Descriptors tables.TaskStateSegment
descriptors = record {
  Gdt = List (Descriptor tables.TaskStateSegment);
  SegmentSelector = ℕ;
  new = [];
  add_entry = λ g x. (length g, g ++ x ∷ []);
  entry = λ g i. get_elem? g i;
}

descriptors-IsDescriptors : IsDescriptors descriptors
descriptors-IsDescriptors = record {
  entry-add_entry = λ g x. ground (arith, get_elem?-append g (x ∷ []) (length g));
  entry-add_entry_other =
      λ g i x y e. ground (arith, get_elem?-append g (y ∷ []) i, lt_of_get_elem? g i x e);
}

init-segments_example :
    (task : ℕ → ℕ) × (index : ℕ) × (descriptors.entry
        (Segments.init descriptors (tss tables 1000)).table
        (Segments.init descriptors (tss tables 1000)).cs
      ≡ some kernel_code_segment)
    × (descriptors.entry
          (Segments.init descriptors (tss tables 1000)).table
          (Segments.init descriptors (tss tables 1000)).task
        ≡ some (tss_segment task))
    × (tables.stack_index (idt tables) 8 ≡ some index)
    × (tables.stack task index ≡ 1000 + 20480)
init-segments_example =
    init-segments tables tables-IsTables descriptors descriptors-IsDescriptors 1000

-- A keyboard that counts, whose scancodes are characters, and the end of interrupts sent.
abbrev devices : Devices
devices = record {
  Keyboard = ℕ;
  KeyEvent = ℕ;
  KeyCode = ℕ;
  add_byte = λ k code. (if code == 0xE0 then none else some (some code), k + 1);
  process_keyevent = λ k event. (some (inl event), k);
  Pics = List ℕ;
  notify_end_of_interrupt = λ pics i. i ∷ pics;
  InterruptStackFrame = ℕ;
  PageFaultErrorCode = ℕ;
  character = λ c. (c ∷ []) ∷ [];
  raw_key = λ c. [];
  debug_frame = λ frame. [];
  debug_address = λ address. [];
  debug_code = λ code. [];
  panic_info = λ message. message;
}

abbrev machine : Machine devices
machine = record { writer = screen; keyboard = 0; pics = [] }

handle_all-typed_example :
    handle_all devices machine
      (map (event_of devices) (inr b'o' ∷ inl tt ∷ inr 0xE0 ∷ inr b'k' ∷ []))
    ≡ returns (record {
      writer = write_fmt screen (typed devices 0 (inr b'o' ∷ inl tt ∷ inr 0xE0 ∷ inr b'k' ∷ [])).0;
      keyboard = (typed devices 0 (inr b'o' ∷ inl tt ∷ inr 0xE0 ∷ inr b'k' ∷ [])).1;
      pics = acknowledged devices [] (inr b'o' ∷ inl tt ∷ inr 0xE0 ∷ inr b'k' ∷ []);
    })
handle_all-typed_example =
    handle_all-typed devices machine (inr b'o' ∷ inl tt ∷ inr 0xE0 ∷ inr b'k' ∷ [])

typed_ok :
    typed devices 0 (inr b'o' ∷ inl tt ∷ inr 0xE0 ∷ inr b'k' ∷ [])
    ≡ ((b'o' ∷ []) ∷ (b'k' ∷ []) ∷ [], 3)
unfolding typed
typed_ok = refl

-- Two tests that return, and a third one that panics.
abbrev returning : List Test
returning =
    record { type_name = ascii "a"; behaviour = Harness.returns }
    ∷ record { type_name = ascii "b"; behaviour = Harness.returns }
    ∷ []

abbrev panicking : Test
panicking = record { type_name = ascii "c"; behaviour = Harness.panics (ascii "no") }

abbrev decimal : ℕ → List ℕ
decimal n = (n + b'0') ∷ []

abbrev closed : Harness.Ports
closed = record { serial = []; debug_exit = [] }

test_runner-verdict_example :
    (test_runner decimal closed returning
      ≡ finished (record {
        serial = header decimal returning ++ ok_lines returning;
        debug_exit = 16 ∷ [];
      }))
    × (test_runner decimal closed (returning ++ panicking ∷ [])
        ≡ halted (record {
          serial =
              header decimal (returning ++ panicking ∷ [])
              ++ ok_lines returning
              ++ (ascii "c" ++ ascii "...\t")
              ++ ascii "[failed]\n\n"
              ++ (ascii "Error: " ++ ascii "no" ++ ascii "\n\n");
          debug_exit = 17 ∷ [];
        }))
test_runner-verdict_example =
    test_runner-verdict decimal returning [] (ascii "c") (ascii "no") (refl, (refl, tt))

ok_lines_ok : ok_lines returning ≡ ascii "a...\t[ok]\nb...\t[ok]\n"
unfolding ok_lines
ok_lines_ok = refl
