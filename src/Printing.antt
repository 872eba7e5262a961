-- ===== src/Printing.antt =====
-- src/vga_buffer.rs: `_print`, and the interrupts of src/interrupts.rs that may come in between.
-- The processor is a parameter, with what x86_64's `without_interrupts` does to it; a lock that is
-- held is waited for.
pub mod Locking
use fat32_reimplementation.Base.{List, [], ◌∷◌, ◌++◌, ℕ, Bool, true, false, ◌≡◌}
use fat32_reimplementation.Vga.{Writer, write_string}

-- `disable` and `restore` are the two ends of `without_interrupts`, `gate` is the entry of an
-- interrupt; `restore` and the return from an interrupt go back to the processor of before.
pub record Processor : Type 1 where
  pub Cpu : Type 0
  pub are_enabled : Cpu → Bool
  pub disable : Cpu → Cpu
  pub restore : Cpu → Cpu → Cpu
  pub gate : Cpu → Cpu
  pub resume : Cpu → Cpu → Cpu

-- What is used of the processor: no interrupts inside of `without_interrupts` and of a handler.
pub record IsMasking (p : Processor) : Type 0 where
  pub disabled : (c : p.Cpu) → p.are_enabled (p.disable c) ≡ false
  pub gated : (c : p.Cpu) → p.are_enabled (p.gate c) ≡ false

-- `Writer::write_str`.
unfoldable pub write_str : Writer → List ℕ → Writer
unfolding write_string
write_str writer s = write_string writer s

-- `write_fmt`: the pieces of a text are written in turn.
unfoldable pub write_fmt : Writer → List (List ℕ) → Writer
unfolding write_str
write_fmt writer [] = writer
write_fmt writer (piece ∷ pieces) = write_fmt (write_str writer piece) pieces

module _ (p : Processor) where
  -- How far a call of `_print` is, with the processor of before.
  pub data Phase : Type 0 where
    outside : Phase
    waiting : p.Cpu → List (List ℕ) → Phase
    holding : p.Cpu → List (List ℕ) → Phase
    released : p.Cpu → Phase

  -- A thread of the kernel, with the texts that it will print.
  pub record Thread : Type 0 where
    pub phase : Phase
    pub texts : List (List (List ℕ))

  -- `WRITER` and its lock, the thread that runs, and those that were interrupted.
  pub record Console : Type 0 where
    pub cpu : p.Cpu
    pub locked : Bool
    pub writer : Writer
    pub running : Thread
    pub suspended : List (p.Cpu × Thread)

  abbrev pub at_phase : Phase → List (List (List ℕ)) → Thread
  at_phase phase texts = record { phase = phase; texts = texts }

  abbrev pub no_threads : List (p.Cpu × Thread)
  no_threads = []

  abbrev pub console :
      p.Cpu → Writer → Phase → Bool → List (List (List ℕ)) → List (p.Cpu × Thread) → Console
  console c w phase locked texts threads = record {
    cpu = c;
    locked = locked;
    writer = w;
    running = at_phase phase texts;
    suspended = threads;
  }

  -- The steps from one console to the next, each with the texts that it begins to print.
  pub data Step : Console → List (List (List ℕ)) → Console → Type 0 where
    enter :
        (c : p.Cpu) (b : Bool) (w : Writer) (text : List (List ℕ)) (texts : List (List (List ℕ)))
        → (threads : List (p.Cpu × Thread))
        → Step
            (console c w outside b (text ∷ texts) threads)
            []
            (console (p.disable c) w (waiting c text) b texts threads)
    lock :
        (c before : p.Cpu) (w : Writer) (text : List (List ℕ)) (texts : List (List (List ℕ)))
        → (threads : List (p.Cpu × Thread))
        → Step
            (console c w (waiting before text) false texts threads)
            (text ∷ [])
            (console c w (holding before text) true texts threads)
    write :
        (c before : p.Cpu) (b : Bool) (w : Writer) (piece : List ℕ) (pieces : List (List ℕ))
        → (texts : List (List (List ℕ))) (threads : List (p.Cpu × Thread))
        → Step
            (console c w (holding before (piece ∷ pieces)) b texts threads)
            []
            (console c (write_str w piece) (holding before pieces) b texts threads)
    unlock :
        (c before : p.Cpu) (b : Bool) (w : Writer) (texts : List (List (List ℕ)))
        → (threads : List (p.Cpu × Thread))
        → Step
            (console c w (holding before []) b texts threads)
            []
            (console c w (released before) false texts threads)
    leave :
        (c before : p.Cpu) (b : Bool) (w : Writer) (texts : List (List (List ℕ)))
        → (threads : List (p.Cpu × Thread))
        → Step
            (console c w (released before) b texts threads)
            []
            (console (p.restore before c) w outside b texts threads)
    -- A handler that will print `texts` starts wherever interrupts are enabled.
    interrupt :
        (c : p.Cpu) (b : Bool) (w : Writer) (thread : Thread) (texts : List (List (List ℕ)))
        → (threads : List (p.Cpu × Thread)) → p.are_enabled c ≡ true
        → Step
            (record { cpu = c; locked = b; writer = w; running = thread; suspended = threads })
            []
            (console (p.gate c) w outside b texts ((c, thread) ∷ threads))
    -- The handler returns.
    iret :
        (c before : p.Cpu) (b : Bool) (w : Writer) (thread : Thread)
        → (threads : List (p.Cpu × Thread))
        → Step (console c w outside b [] ((before, thread) ∷ threads)) [] (record {
          cpu = p.resume before c;
          locked = b;
          writer = w;
          running = thread;
          suspended = threads;
        })

  -- Any number of steps, with the texts in the order in which they were begun.
  pub data Reach (s : Console) : List (List (List ℕ)) → Console → Type 0 where
    here : Reach s [] s
    next :
        {log texts : List (List (List ℕ))} {t u : Console}
        → Reach s log t
        → Step t texts u
        → Reach s (log ++ texts) u

  -- A thread that prints `texts`, on a console that nothing else uses.
  abbrev pub start : p.Cpu → Writer → List (List (List ℕ)) → Console
  start c w texts = console c w outside false texts []
