-- ===== src/Kernel/Harness.antt =====
-- src/lib.rs: the runner of the tests. A test is a parameter: its name and what its function does;
-- the serial port and the emulator's port are the texts and numbers sent to them.
use mathlib.Core.List.{append_assoc, append-nil}
use fat32_reimplementation.Base.{ℕ, List, [], ◌∷◌, ◌++◌, length, All, ◌≡◌, sym, ap, ◌∙◌}
use fat32_reimplementation.Base.Ascii.{ascii}

-- A function returns, panics with a message, or goes on for ever.
pub data Behaviour : Type 0 where
  returns : Behaviour
  panics : List ℕ → Behaviour
  hangs : Behaviour

pub record Test : Type 0 where
  pub type_name : List ℕ
  pub behaviour : Behaviour

pub data QemuExitCode : Type 0 where
  success : QemuExitCode
  failed : QemuExitCode

unfoldable pub as_u32 : QemuExitCode → ℕ
as_u32 success = 0x10
as_u32 failed = 0x11

-- What was sent so far.
pub record Ports : Type 0 where
  pub serial : List ℕ
  pub debug_exit : List ℕ

-- `serial::_print`: the whole text is sent.
unfoldable pub serial_print : Ports → List ℕ → Ports
serial_print p text = record p { serial = p.serial ++ text }

unfoldable pub exit_qemu : Ports → QemuExitCode → Ports
unfolding as_u32
exit_qemu p code = record p { debug_exit = p.debug_exit ++ as_u32 code ∷ [] }

-- The runner returns, halts behind a panic, or stays in a test.
pub data Verdict : Type 0 where
  finished : Ports → Verdict
  halted : Ports → Verdict
  stuck : Ports → Verdict

unfoldable pub test_panic_handler : Ports → List ℕ → Verdict
unfolding serial_print exit_qemu
test_panic_handler p info =
    let p1 = serial_print p (ascii "[failed]\n\n") in
    let p2 = serial_print p1 (ascii "Error: " ++ info ++ ascii "\n\n") in
    halted (exit_qemu p2 failed)

-- `Testable::run`, up to the end of the function.
unfoldable pub announce : Ports → Test → Ports
unfolding serial_print
announce p t = serial_print p (t.type_name ++ ascii "...\t")

-- The loop of `test_runner`, with the exit behind it.
unfoldable pub run_tests : Ports → List Test → Verdict
unfolding serial_print exit_qemu announce test_panic_handler
run_tests p [] = finished (exit_qemu p success)
run_tests p (t ∷ tests) = elim t.behaviour [
  | returns ↦ run_tests (serial_print (announce p t) (ascii "[ok]\n")) tests
  | panics info ↦ test_panic_handler (announce p t) info
  | hangs ↦ stuck (announce p t)
]

-- With the decimal text of a number.
unfoldable pub test_runner : (ℕ → List ℕ) → Ports → List Test → Verdict
unfolding serial_print run_tests
test_runner decimal p tests =
    run_tests (serial_print p (ascii "Running " ++ decimal (length tests) ++ ascii " tests\n"))
      tests

-- A line for each test.
unfoldable pub ok_lines : List Test → List ℕ
ok_lines [] = []
ok_lines (t ∷ tests) = (t.type_name ++ ascii "...\t") ++ (ascii "[ok]\n" ++ ok_lines tests)

abbrev pub header : (ℕ → List ℕ) → List Test → List ℕ
header decimal tests = ascii "Running " ++ decimal (length tests) ++ ascii " tests\n"

run_tests-returns :
    (tests rest : List Test) (serial debug_exit : List ℕ)
    → All (λ t. t.behaviour ≡ returns) tests
    → run_tests (record { serial = serial; debug_exit = debug_exit }) (tests ++ rest)
      ≡ run_tests (record { serial = serial ++ ok_lines tests; debug_exit = debug_exit }) rest
unfolding run_tests serial_print announce ok_lines
run_tests-returns [] rest serial debug_exit all =
    ap (λ (s : List ℕ). run_tests (record { serial = s; debug_exit = debug_exit }) rest)
      (sym (append-nil serial))
run_tests-returns (t ∷ tests) rest serial debug_exit all =
    let line = t.type_name ++ ascii "...\t" in
    let ok = ascii "[ok]\n" in
    ap
      (λ (b : Behaviour). elim b [
        | returns ↦
            run_tests (record { serial = (serial ++ line) ++ ok; debug_exit = debug_exit })
              (tests ++ rest)
        | panics info ↦
            test_panic_handler (record { serial = serial ++ line; debug_exit = debug_exit }) info
        | hangs ↦ stuck (record { serial = serial ++ line; debug_exit = debug_exit })
      ])
      all.0
    ∙ run_tests-returns tests rest ((serial ++ line) ++ ok) debug_exit all.1
    ∙ ap (λ (s : List ℕ). run_tests (record { serial = s; debug_exit = debug_exit }) rest)
        (append_assoc (serial ++ line) ok (ok_lines tests)
          ∙ append_assoc serial line (ok ++ ok_lines tests))

-- From ports that nothing was sent to, with tests that all return: the runner finishes, it has sent
-- the number of tests and then one line with `[ok]` for each in their order, and 16 to the
-- emulator. With a test behind them that panics, and any others behind that one: it halts, has sent
-- the same lines, then the name of that test and its message, and 17 to the emulator, and no test
-- behind it is run.
pub test_runner-verdict :
    (decimal : ℕ → List ℕ) (tests rest : List Test) (name info : List ℕ)
    → All (λ t. t.behaviour ≡ returns) tests
    → (test_runner decimal (record { serial = []; debug_exit = [] }) tests
        ≡ finished
            (record { serial = header decimal tests ++ ok_lines tests; debug_exit = 16 ∷ [] }))
      × (test_runner decimal
            (record { serial = []; debug_exit = [] })
            (tests ++ record { type_name = name; behaviour = panics info } ∷ rest)
          ≡ halted (record {
            serial =
                header decimal
                  (tests ++ record { type_name = name; behaviour = panics info } ∷ rest)
                ++ ok_lines tests
                ++ (name ++ ascii "...\t")
                ++ ascii "[failed]\n\n"
                ++ (ascii "Error: " ++ info ++ ascii "\n\n");
            debug_exit = 17 ∷ [];
          }))
unfolding test_runner run_tests serial_print announce test_panic_handler exit_qemu as_u32 ok_lines
test_runner-verdict decimal tests rest name info all =
    let last : Test = record { type_name = name; behaviour = panics info } in
    (
      ap
            (λ (l : List Test).
              run_tests (record { serial = header decimal tests; debug_exit = [] }) l)
            (sym (append-nil tests))
          ∙ run_tests-returns tests [] (header decimal tests) [] all,
      run_tests-returns tests (last ∷ rest) (header decimal (tests ++ last ∷ rest)) [] all,
    )
