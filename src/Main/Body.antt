-- ===== src/Main/Body.antt =====
-- The threads and the child processes that `main_proc` starts (mym.py), wherever it stops.
use meet_your_match.Prelude.{ℕ, ◌+◌, ◌≤◌, List, [], ◌∷◌, ◌++◌, arith}
use meet_your_match.Python.{◌>>◌, system_exit, Text, After, Leads, ◌then◌, modify-Leads, Exception}
use meet_your_match.Constants.{registration_port, matchmaking_port, session_port}
use meet_your_match.Text.{codes}
use meet_your_match.Text.Numerals.{str_nat}
use meet_your_match.Main.{
  Event, succeeds, fails, interrupts, Machine, Step, called, passing, call, run_forever, print,
  start_thread, start_child, main_proc, announce,
}

-- At most `c` child processes and `t` threads.
abbrev pub Within : ℕ → ℕ → Machine → Type 0
Within c t s = (s.children ≤ c) × (s.threads ≤ t)

abbrev pub Never : Machine → Type 0
Never s = ⊥

-- Where `main_proc` raises: it does not exit.
abbrev pub Stops : ℕ → Exception → Machine → Type 0
Stops T (system_exit code) s = ⊥
Stops T _ s = Within 2 T s

module _ (T : ℕ) where
  -- Wherever it stops, there are at most two children.
  abbrev Upto : (Machine → Type 0) → Step → (Machine → Type 0) → Type 0
  Upto P m Q = Leads (Stops T) (Within 2 T) P m Q

  called-Within :
      (c t : ℕ) (es : List Event) (s : Machine)
      → c ≤ 2
      → t ≤ T
      → Within c t s
      → After
          (Within c t)
          (Stops T)
          (Within 2 T)
          (let (r, rest) = called es in (r, record s { events = rest }))
  called-Within c t [] s hc ht (h, h') = (omega arith, omega arith)
  called-Within c t (succeeds ∷ es) s hc ht h = h
  called-Within c t (fails ∷ es) s hc ht (h, h') = (omega arith, omega arith)
  called-Within c t (interrupts ∷ es) s hc ht (h, h') = (omega arith, omega arith)

  call-Within : (c t : ℕ) → c ≤ 2 → t ≤ T → Upto (Within c t) call (Within c t)
  call-Within c t hc ht = record { leads = λ s h. called-Within c t s.events s hc ht h }

  start_thread-Within :
      (c t : ℕ) → c ≤ 2 → t + 1 ≤ T → Upto (Within c t) start_thread (Within c (t + 1))
  start_thread-Within c t hc ht =
      call-Within c t hc (omega arith)
      then modify-Leads (λ s. record s { threads = s.threads + 1 })
          (λ s h. (h.0, omega (arith, h.1)))

  start_child-Within :
      (c t : ℕ) → c + 1 ≤ 2 → t ≤ T → Upto (Within c t) start_child (Within (c + 1) t)
  start_child-Within c t hc ht =
      call-Within c t (omega arith) ht
      then modify-Leads (λ s. record s { children = s.children + 1 })
          (λ s h. (omega (arith, h.0), h.1))

  passing-Within :
      (es : List Event) (s : Machine)
      → Within 2 T s
      → After Never
          (Stops T)
          (Within 2 T)
          (let (r, rest) = passing es in (r, record s { events = rest }))
  passing-Within [] s h = h
  passing-Within (succeeds ∷ es) s h = passing-Within es s h
  passing-Within (fails ∷ es) s h = passing-Within es s h
  passing-Within (interrupts ∷ es) s h = h

  run_forever-Within : Upto (Within 2 T) run_forever Never
  run_forever-Within = record { leads = λ s h. passing-Within s.events s h }

  print-Within : (text : Text) (c t : ℕ) → Upto (Within c t) (print text) (Within c t)
  print-Within text c t =
      modify-Leads (λ s. record s { printed = s.printed ++ text ∷ [] }) (λ s h. h)

  -- It does not return.
  main_proc-Never : (t : ℕ) → t + 2 ≤ T → Upto (Within 0 t) main_proc Never
  unfolding main_proc
  main_proc-Never t h =
      call-Within 0 t (omega arith) (omega arith)
      then call-Within 0 t (omega arith) (omega arith)
      then start_child-Within 0 t (omega arith) (omega arith)
      then call-Within 1 t (omega arith) (omega arith)
      then call-Within 1 t (omega arith) (omega arith)
      then call-Within 1 t (omega arith) (omega arith)
      then start_thread-Within 1 t (omega arith) (omega arith)
      then start_thread-Within 1 (t + 1) (omega arith) (omega arith)
      then start_child-Within 1 (t + 1 + 1) (omega arith) (omega arith)
      then print-Within (codes "running...") 2 (t + 1 + 1)
      then record { leads = λ s (a, b). run_forever-Within.leads s (a, omega arith) }

  pub body-Never :
      (ip : Text) (t : ℕ) → t + 2 ≤ T → Upto (Within 0 t) (announce ip >> main_proc) Never
  unfolding announce
  body-Never ip t h =
      (print-Within (codes "Meet Your Match server at " ++ ip) 0 t
        then print-Within (codes "accepting registration on port " ++ str_nat registration_port) 0 t
        then print-Within (codes "accepting matchmaking on port " ++ str_nat matchmaking_port) 0 t
        then print-Within (codes "accepting sessions on port " ++ str_nat session_port) 0 t)
      then main_proc-Never t h
