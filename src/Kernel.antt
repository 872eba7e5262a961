-- ===== src/Kernel.antt =====
-- src/main.rs: the shell commands of `kernel_main`, on the console and the mounted volume; and
-- src/lib.rs: the set-up and, in Kernel/Harness.antt, the test harness. `str::to_uppercase` and the
-- disk's image are parameters.
pub mod Harness
use mathlib.Core.Option
use fat32_reimplementation.Base.{
  ℕ, List, [], ◌∷◌, ◌++◌, ◌≡◌, Option, none, some, Run, done, panic, ◌>>=◌, Result, ok, err, inl,
  inr,
}
use fat32_reimplementation.Base.Ascii.{ascii}
use fat32_reimplementation.FileSystem.{mount}
use fat32_reimplementation.Allocator.Pages.{VirtAddrs}
use fat32_reimplementation.Allocator.Slab as Slab
use fat32_reimplementation.Allocator.Heap.{Paging, init_heap}
use fat32_reimplementation.Frames.Mapping as Mapping
use fat32_reimplementation.Vga.{Writer}
use fat32_reimplementation.Printing.{write_fmt}
use fat32_reimplementation.Shell.{ShellSession, Printed, content, message, ls, cd, cat, mkdir, new}

-- The actions of `init`: each is one call into the module or the crate that it names.
pub data Action : Type 0 where
  gdt_init : Action
  init_idt : Action
  initialize_pics : Action
  enable_interrupts : Action

abbrev pub init : List Action
init = gdt_init ∷ init_idt ∷ initialize_pics ∷ enable_interrupts ∷ []

-- `Result::unwrap`.
abbrev pub unwrap_ok : {A : Type 0} → Result A → Run A
unwrap_ok (ok a) = done a
unwrap_ok (err e) = panic

-- What the commands print goes to the console.
unfoldable pub console_ls : Writer → ShellSession → Option (List ℕ) → Run Writer
unfolding ls write_fmt
console_ls w session path = do
  result ← ls session path
  text ← unwrap_ok result
  done (write_fmt w (text ∷ []))

abbrev pub printed_bytes : Printed → List ℕ
printed_bytes (content text) = text
printed_bytes (message e) = ascii e

unfoldable pub console_cat : ℕ → Writer → ShellSession → List ℕ → Run Writer
unfolding cat write_fmt
console_cat fuel w session path = do
  result ← cat fuel session path
  text ← unwrap_ok result
  done (write_fmt w (printed_bytes text ∷ (b'\n' ∷ []) ∷ []))

unfoldable pub enter : ShellSession → List ℕ → Run ShellSession
unfolding cd
enter session path = do (result, session') ← cd session path; _ ← unwrap_ok result; done session'

module _ (to_uppercase : List ℕ → List ℕ) where
  unfoldable pub make : ShellSession → List ℕ → List ℕ → Run ShellSession
  unfolding mkdir
  make session parent_path folder_name = do
    (result, session') ← mkdir to_uppercase session parent_path folder_name
    _ ← unwrap_ok result
    done session'

  -- The two calls of `mkdir`.
  unfoldable pub make_folders : ShellSession → Run ShellSession
  unfolding make
  make_folders session = do
    session1 ← make session [] (ascii "file_t")
    make session1 [] (ascii "folder_t")

  -- The commands in front of them.
  unfoldable pub explore : ℕ → Writer → ShellSession → Run (Writer × ShellSession)
  unfolding console_ls console_cat enter
  explore fuel w session = do
    w1 ← console_ls w session none
    session1 ← enter session (ascii "test_dir")
    w2 ← console_ls w1 session1 none
    session2 ← enter session1 (ascii "../")
    w3 ← console_ls w2 session2 none
    w4 ← console_ls w3 session2 (some (ascii "test_dir"))
    w5 ← console_cat fuel w4 session2 (ascii "test_dir/test_dir_file")
    done (w5, session2)

  unfoldable pub commands : ℕ → Writer → ShellSession → Run (Writer × ShellSession)
  unfolding explore make_folders
  commands fuel w session = do
    (w1, session1) ← explore fuel w session
    session2 ← make_folders session1
    w2 ← console_ls w1 session2 none
    session3 ← enter session2 (ascii "test_dir")
    done (w2, session3)

  -- From the disk's image on, to the last line that is printed.
  unfoldable pub run_shell : ℕ → Writer → List ℕ → Run (Writer × ShellSession)
  unfolding mount new commands
  run_shell fuel w raw_disk = do
    fs ← mount raw_disk
    (w1, session) ← commands fuel w (new fs)
    done (write_fmt w1 (ascii "Did not crash!" ∷ (b'\n' ∷ []) ∷ []), session)

  -- `kernel_main`, with what the bootloader and the x86_64 crate hand to it. The actions of `init`,
  -- which concern the processor alone, are returned with the console and the session.
  unfoldable pub kernel_main :
      (paging : Paging)
      → VirtAddrs
      → (ℕ → ℕ → paging.Mapper)
      → ℕ
      → ℕ
      → paging.FrameAllocator
      → ℕ
      → Writer
      → List ℕ
      → Run (List Action × Writer × ShellSession)
  unfolding init_heap run_shell write_fmt Mapping.init
  kernel_main paging v new_mapper level_4_table_frame offset frames fuel w raw_disk = do
    let w1 = write_fmt w (ascii "Hello World" ∷ ascii "!" ∷ (b'\n' ∷ []) ∷ [])
    let actions = init
    phys_mem_offset ← v.new offset
    mapper ← Mapping.init v new_mapper level_4_table_frame phys_mem_offset
    (result, _, _, _) ← init_heap paging v Slab.new mapper frames
    elim result [
      | inl _ ↦ panic
      | inr _ ↦ do (w2, session) ← run_shell fuel w1 raw_disk; done (actions, w2, session)
    ]
