-- ===== src/Interrupts/Handling.antt =====
-- What a sequence of hardware interrupts leaves behind.
use fat32_reimplementation.Base.{
  ℕ, ◌≡◌, refl, sym, ap, ◌∙◌, List, [], ◌∷◌, ◌++◌, Option, none, some, ◌⊎◌, inl, inr, map,
}
use fat32_reimplementation.Vga.{Writer}
use fat32_reimplementation.Printing.{write_fmt}
use fat32_reimplementation.Interrupts.{
  Devices, Machine, returns, Event, timer_tick, scancode, handle, handle_all, print, print_key,
  process, keyboard_interrupt, timer_interrupt, as_u8,
}

write_fmt-append :
    (xs ys : List (List ℕ)) (w : Writer) → write_fmt w (xs ++ ys) ≡ write_fmt (write_fmt w xs) ys
unfolding write_fmt
write_fmt-append [] ys w = refl
write_fmt-append (x ∷ xs) ys w = write_fmt-append xs ys _

module _ (d : Devices) where
  -- A tick of the timer, or a scancode of the keyboard.
  abbrev pub Signal : Type 0
  Signal = Unit {0} ⊎ ℕ

  abbrev pub event_of : Signal → Event d
  event_of (inl _) = timer_tick
  event_of (inr code) = scancode code

  -- What is printed for a decoded key.
  abbrev key_text : Option (ℕ ⊎ d.KeyCode) → List (List ℕ)
  key_text none = []
  key_text (some (inl c)) = d.character c
  key_text (some (inr key)) = d.raw_key key

  -- What the keyboard makes of what `add_byte` returned: a text, and its next state.
  abbrev decoded : d.Keyboard → Option (Option d.KeyEvent) → List (List ℕ) × d.Keyboard
  decoded k none = ([], k)
  decoded k (some none) = ([], k)
  decoded k (some (some event)) =
      (key_text (d.process_keyevent k event).0, (d.process_keyevent k event).1)

  abbrev decode : d.Keyboard → ℕ → List (List ℕ) × d.Keyboard
  decode k code = decoded (d.add_byte k code).1 (d.add_byte k code).0

  -- The text that a keyboard types, and its state behind the signals.
  unfoldable pub typed : d.Keyboard → List Signal → List (List ℕ) × d.Keyboard
  typed k [] = ([], k)
  typed k (inl _ ∷ signals) = typed k signals
  typed k (inr code ∷ signals) = (
    (decode k code).0 ++ (typed (decode k code).1 signals).0,
    (typed (decode k code).1 signals).1,
  )

  abbrev vector_of : Signal → ℕ
  vector_of (inl _) = 32
  vector_of (inr code) = 33

  -- Each signal is acknowledged once, in its order.
  unfoldable pub acknowledged : d.Pics → List Signal → d.Pics
  acknowledged pics [] = pics
  acknowledged pics (s ∷ signals) =
      acknowledged (d.notify_end_of_interrupt pics (vector_of s)) signals

  print_key-text :
      (m : Machine d) (key : Option (ℕ ⊎ d.KeyCode))
      → print_key d m key ≡ record m { writer = write_fmt m.writer (key_text key) }
  unfolding print_key print write_fmt
  print_key-text m none = refl
  print_key-text m (some (inl c)) = refl
  print_key-text m (some (inr key)) = refl

  abbrev machine : Writer → d.Keyboard → d.Pics → Machine d
  machine w k p = record { writer = w; keyboard = k; pics = p }

  process-decoded :
      (w : Writer) (k : d.Keyboard) (p : d.Pics) (event : Option (Option d.KeyEvent))
      → process d (machine w k p) event
        ≡ machine (write_fmt w (decoded k event).0) (decoded k event).1 p
  unfolding process write_fmt
  process-decoded w k p none = refl
  process-decoded w k p (some none) = refl
  process-decoded w k p (some (some event)) =
      print_key-text (machine w (d.process_keyevent k event).1 p) (d.process_keyevent k event).0

  keyboard-decode :
      (w : Writer) (k : d.Keyboard) (p : d.Pics) (code : ℕ)
      → keyboard_interrupt d (machine w k p) code
        ≡ machine (write_fmt w (decode k code).0) (decode k code).1 (d.notify_end_of_interrupt p 33)
  unfolding keyboard_interrupt as_u8
  keyboard-decode w k p code =
      ap (λ (m : Machine d). record m { pics = d.notify_end_of_interrupt m.pics 33 })
        (process-decoded w (d.add_byte k code).1 p (d.add_byte k code).0)

-- After any sequence of timer and keyboard interrupts the handlers have returned, the screen is
-- that of one print of the text that the keyboard decodes from the scancodes, in which the ticks of
-- the timer leave no trace, the keyboard is in the state in which it then is, and each interrupt
-- was acknowledged once, under vector 32 or 33, in the order in which they came.
pub handle_all-typed :
    (d : Devices) (m : Machine d) (signals : List (Signal d))
    → handle_all d m (map (event_of d) signals)
      ≡ returns (record {
        writer = write_fmt m.writer (typed d m.keyboard signals).0;
        keyboard = (typed d m.keyboard signals).1;
        pics = acknowledged d m.pics signals;
      })
unfolding handle_all handle timer_interrupt as_u8 typed acknowledged write_fmt
handle_all-typed d m [] = refl
handle_all-typed d m (inl _ ∷ signals) = handle_all-typed d (timer_interrupt d m) signals
handle_all-typed d m (inr code ∷ signals) =
    let after = keyboard-decode d m.writer m.keyboard m.pics code in
    ap (λ (n : Machine d). handle_all d n (map (event_of d) signals)) after
    ∙ handle_all-typed d
        (machine d (write_fmt m.writer (decode d m.keyboard code).0) (decode d m.keyboard code).1
          (d.notify_end_of_interrupt m.pics 33))
        signals
    ∙ ap
        (λ (w : Writer). returns (
          machine d w (typed d m.keyboard (inr code ∷ signals)).1
            (acknowledged d m.pics (inr code ∷ signals))))
        (sym (
          write_fmt-append (decode d m.keyboard code).0
            (typed d (decode d m.keyboard code).1 signals).0 m.writer))
