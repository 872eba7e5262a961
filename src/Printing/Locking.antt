-- ===== src/Printing/Locking.antt =====
-- The lock of `WRITER` under interrupts: texts are whole, and nothing waits for ever.
use mathlib.Core.Path.{subst}
use fat32_reimplementation.Base.{
  ℕ, List, [], ◌∷◌, ◌++◌, Bool, true, false, ◌≡◌, refl, sym, ap, ◌∙◌, ◌⊎◌, inl, inr, All, arith,
}
use fat32_reimplementation.Vga.{Writer}
use fat32_reimplementation.Printing.{
  Processor, IsMasking, Phase, outside, waiting, holding, released, Thread, Console, Step, Reach,
  start, write_fmt, here, next, enter, lock, write, unlock, leave, interrupt, iret, no_threads,
  console,
}

-- What each phase says of the lock and of the interrupts.
abbrev IsGuarded : (p : Processor) → Phase p → Bool → Bool → Type 0
IsGuarded p outside locked enabled = locked ≡ false
IsGuarded p (waiting before pieces) locked enabled = (locked ≡ false) × (enabled ≡ false)
IsGuarded p (holding before pieces) locked enabled = (locked ≡ true) × (enabled ≡ false)
IsGuarded p (released before) locked enabled = (locked ≡ false) × (enabled ≡ false)

-- What the running text still lacks.
abbrev rest_of : (p : Processor) → Phase p → List (List ℕ)
rest_of p outside = []
rest_of p (waiting before pieces) = []
rest_of p (holding before pieces) = pieces
rest_of p (released before) = []

-- Every text of a log, written in turn.
unfoldable pub write_all : Writer → List (List (List ℕ)) → Writer
unfolding write_fmt
write_all w [] = w
write_all w (text ∷ texts) = write_all (write_fmt w text) texts

write_all-append :
    (xs ys : List (List (List ℕ))) (w : Writer)
    → write_all w (xs ++ ys) ≡ write_all (write_all w xs) ys
unfolding write_all
write_all-append [] ys w = refl
write_all-append (x ∷ xs) ys w = write_all-append xs ys (write_fmt w x)

record IsOrderly (p : Processor) (w : Writer) (log : List (List (List ℕ))) (s : Console p)
    : Type 0 where
  guarded : IsGuarded p s.running.phase s.locked (p.are_enabled s.cpu)
  idle : All (λ (t : p.Cpu × Thread p). t.1.phase ≡ outside) s.suspended
  shown : write_fmt s.writer (rest_of p s.running.phase) ≡ write_all w log

module _ (p : Processor) (masking : IsMasking p) (w : Writer) where
  -- A thread that can be interrupted is outside of `_print`.
  outside_of :
      (phase : Phase p) (locked enabled : Bool)
      → IsGuarded p phase locked enabled
      → enabled ≡ true
      → (phase ≡ outside) × (locked ≡ false)
  outside_of outside locked enabled g e = (refl, g)
  outside_of (waiting before pieces) locked enabled g e = ground (arith, g)
  outside_of (holding before pieces) locked enabled g e = ground (arith, g)
  outside_of (released before) locked enabled g e = ground (arith, g)

  append_nil : (log : List (List (List ℕ))) → write_all w (log ++ []) ≡ write_all w log
  unfolding write_all
  append_nil log = write_all-append log [] w

  Step-IsOrderly :
      {log texts : List (List (List ℕ))} {s t : Console p}
      → Step p s texts t
      → IsOrderly p w log s
      → IsOrderly p w (log ++ texts) t
  unfolding write_fmt write_all
  Step-IsOrderly {log} (enter c b u text texts threads) o = record {
    guarded = (o.guarded, masking.disabled c);
    idle = o.idle;
    shown = o.shown ∙ sym (append_nil log);
  }
  Step-IsOrderly {log} (lock c before u text texts threads) o = record {
    guarded = (refl, o.guarded.1);
    idle = o.idle;
    shown =
        ap (λ (x : Writer). write_fmt x text) o.shown ∙ sym (write_all-append log (text ∷ []) w);
  }
  Step-IsOrderly {log} (write c before b u piece pieces texts threads) o = record {
    guarded = o.guarded;
    idle = o.idle;
    shown = o.shown ∙ sym (append_nil log);
  }
  Step-IsOrderly {log} (unlock c before b u texts threads) o = record {
    guarded = (refl, o.guarded.1);
    idle = o.idle;
    shown = o.shown ∙ sym (append_nil log);
  }
  Step-IsOrderly {log} (leave c before b u texts threads) o = record {
    guarded = o.guarded.0;
    idle = o.idle;
    shown = o.shown ∙ sym (append_nil log);
  }
  Step-IsOrderly {log} (interrupt c b u thread texts threads e) o =
      let (out, free) = outside_of thread.phase b (p.are_enabled c) o.guarded e in
      record {
        guarded = free;
        idle = (out, o.idle);
        shown =
            ap (λ (x : Phase p). write_fmt u (rest_of p x)) (sym out)
            ∙ o.shown
            ∙ sym (append_nil log);
      }
  Step-IsOrderly {log} (iret c before b u thread threads) o = record {
    guarded =
        subst (λ (x : Phase p). IsGuarded p x b (p.are_enabled (p.resume before c))) (sym o.idle.0)
          o.guarded;
    idle = o.idle.1;
    shown =
        ap (λ (x : Phase p). write_fmt u (rest_of p x)) o.idle.0 ∙ o.shown ∙ sym (append_nil log);
  }

  Reach-IsOrderly :
      {s : Console p} {log : List (List (List ℕ))} {t : Console p}
      → IsOrderly p w [] s
      → Reach p s log t
      → IsOrderly p w log t
  Reach-IsOrderly o here = o
  Reach-IsOrderly o (next r step) = Step-IsOrderly step (Reach-IsOrderly o r)

  start-IsOrderly :
      (c : p.Cpu) (texts : List (List (List ℕ))) → IsOrderly p w [] (start p c w texts)
  unfolding write_fmt write_all
  start-IsOrderly c texts = record { guarded = refl; idle = tt; shown = refl }

whole :
    (p : Processor) (phase : Phase p) (locked enabled : Bool) (u v : Writer)
    → IsGuarded p phase locked enabled
    → write_fmt u (rest_of p phase) ≡ v
    → ((locked ≡ false) × (u ≡ v)) ⊎ ((locked ≡ true) × (enabled ≡ false))
unfolding write_fmt
whole p outside locked enabled u v g e = inl (g, e)
whole p (waiting before pieces) locked enabled u v g e = inl (g.0, e)
whole p (holding before pieces) locked enabled u v g e = inr g
whole p (released before) locked enabled u v g e = inl (g.0, e)

-- Nothing is left to do.
abbrev pub IsIdle : (p : Processor) → Console p → Type 0
IsIdle p s = (s.running.phase ≡ outside) × (s.running.texts ≡ []) × (s.suspended ≡ no_threads p)

step_of :
    (p : Processor) (c : p.Cpu) (w : Writer) (phase : Phase p) (locked : Bool)
    → (texts : List (List (List ℕ))) (threads : List (p.Cpu × Thread p))
    → IsGuarded p phase locked (p.are_enabled c)
    → IsIdle p (console p c w phase locked texts threads)
      ⊎ ((begun : List (List (List ℕ))) × (t : Console p) × Step p
            (console p c w phase locked texts threads)
            begun
            t)
step_of p c w outside locked (text ∷ texts) threads g =
    inr (_, _, enter c locked w text texts threads)
step_of p c w outside locked [] [] g = inl (refl, refl, refl)
step_of p c w outside locked [] (thread ∷ threads) g =
    inr (_, _, iret c thread.0 locked w thread.1 threads)
step_of p c w (waiting before pieces) true texts threads g = ground (arith, g)
step_of p c w (waiting before pieces) false texts threads g =
    inr (_, _, lock c before w pieces texts threads)
step_of p c w (holding before []) locked texts threads g =
    inr (_, _, unlock c before locked w texts threads)
step_of p c w (holding before (piece ∷ pieces)) locked texts threads g =
    inr (_, _, write c before locked w piece pieces texts threads)
step_of p c w (released before) locked texts threads g =
    inr (_, _, leave c before locked w texts threads)

-- On a processor that masks interrupts, from a thread that prints on a console nobody else uses,
-- with handlers that print coming in wherever interrupts are enabled: whenever the lock is free,
-- the screen is that of the texts begun so far, each written whole and in that order; and while the
-- lock is held, interrupts are disabled.
pub Reach-whole :
    (p : Processor)
    → IsMasking p
    → (c : p.Cpu) (w : Writer) (texts log : List (List (List ℕ))) (s : Console p)
    → Reach p (start p c w texts) log s
    → ((s.locked ≡ false) × (s.writer ≡ write_all w log))
      ⊎ ((s.locked ≡ true) × (p.are_enabled s.cpu ≡ false))
unfolding write_fmt
Reach-whole p masking c w texts log s r =
    let o = Reach-IsOrderly p masking w (start-IsOrderly p masking w c texts) r in
    whole p s.running.phase s.locked (p.are_enabled s.cpu) s.writer (write_all w log) o.guarded
      o.shown

-- On a processor that masks interrupts, from a thread that prints on a console nobody else uses,
-- with handlers that print coming in wherever interrupts are enabled: as long as a text is left to
-- print, a call of `_print` is unfinished or a handler has not returned, some step is possible.
pub Reach-progress :
    (p : Processor)
    → IsMasking p
    → (c : p.Cpu) (w : Writer) (texts log : List (List (List ℕ))) (s : Console p)
    → Reach p (start p c w texts) log s
    → IsIdle p s ⊎ ((begun : List (List (List ℕ))) × (t : Console p) × Step p s begun t)
Reach-progress p masking c w texts log s r =
    let o = Reach-IsOrderly p masking w (start-IsOrderly p masking w c texts) r in
    step_of p s.cpu s.writer s.running.phase s.locked s.running.texts s.suspended o.guarded
