-- ===== src/Main.antt =====
-- `main` and `main_proc` (mym.py): the sockets, the threads and the child processes, and the loop that
-- starts anew after an exception.
pub mod Body
pub mod Children
pub mod Threads
use meet_your_match.Prelude.{ℕ, ◌+◌, Bool, true, false, List, [], ◌∷◌, ◌++◌}
use meet_your_match.Python.{
  Result, ok, raised, blocked, Py, pure, raise, modify, ◌>>=◌, ◌>>◌, keyboard_interrupt,
  external_error, system_exit, Text,
}
use meet_your_match.Text.{codes}
use meet_your_match.Text.Numerals.{str_nat}
use meet_your_match.Constants.{registration_port, matchmaking_port, session_port}

-- What comes of a call into the operating system: it succeeds, it raises, or the user presses Ctrl-C
-- before it is done.
pub data Event : Type 0 where
  succeeds fails interrupts : Event

-- The bound sockets, how many threads and child processes have been started and not been killed,
-- what is printed, and what is to happen next.
pub record Machine : Type 0 where
  pub events : List Event
  pub sockets : List (Text × ℕ)
  pub threads : ℕ
  pub children : ℕ
  pub printed : List Text

abbrev pub Step : Type 0
Step = Py Machine (Unit {0})

-- What a wait ends with, and what is left to happen.
abbrev pub Wait : Type 0
Wait = List Event → Result (Unit {0}) × List Event

abbrev pub awaiting : Wait → Step
awaiting wait s = let (r, es) = wait s.events in (r, record s { events = es })

-- A call into the operating system; it is waited for as long as nothing happens.
abbrev pub called : Wait
called [] = (blocked, [])
called (succeeds ∷ es) = (ok tt, es)
called (fails ∷ es) = (raised external_error, es)
called (interrupts ∷ es) = (raised keyboard_interrupt, es)

abbrev pub call : Step
call = awaiting called

-- `while True: pass`: nothing fails in it.
abbrev pub passing : Wait
passing [] = (blocked, [])
passing (interrupts ∷ es) = (raised keyboard_interrupt, es)
passing (_ ∷ es) = passing es

abbrev pub run_forever : Step
run_forever = awaiting passing

-- `sleep(5)`: it does not fail either.
abbrev pub slept : Wait
slept [] = (blocked, [])
slept (interrupts ∷ es) = (raised keyboard_interrupt, es)
slept (_ ∷ es) = (ok tt, es)

abbrev pub sleep : Step
sleep = awaiting slept

abbrev pub print : Text → Step
print text = modify (λ s. record s { printed = s.printed ++ text ∷ [] })

abbrev pub start_thread : Step
start_thread = call >> modify (λ s. record s { threads = s.threads + 1 })

abbrev pub start_child : Step
start_child = call >> modify (λ s. record s { children = s.children + 1 })

-- `socket.socket(…)` and `bind((ip, port))`
abbrev pub bind : Text → ℕ → Step
bind ip port = call >> (call >> modify (λ s. record s { sockets = s.sockets ++ (ip, port) ∷ [] }))

-- `for c in active_children(): c.kill()`
abbrev pub kill_children : Step
kill_children = modify (λ s. record s { children = 0 })

-- `main_proc`: two pipes, the manager with its process, its two queues, the key that is put into one
-- of them, the two threads of registration, and the process of matchmaking.
unfoldable pub main_proc : Step
main_proc = do
  call
  call
  start_child
  call
  call
  call
  start_thread
  start_thread
  start_child
  print (codes "running...")
  run_forever

-- What is printed before `main_proc`.
unfoldable pub announce : Text → Step
announce ip = do
  print (codes "Meet Your Match server at " ++ ip)
  print (codes "accepting registration on port " ++ str_nat registration_port)
  print (codes "accepting matchmaking on port " ++ str_nat matchmaking_port)
  print (codes "accepting sessions on port " ++ str_nat session_port)

-- How a round goes on after the body of its `try`: true if `main` returns.
unfoldable pub handle : Result (Unit {0}) → Py Machine Bool
handle (ok _) = sleep >> pure false
handle (raised keyboard_interrupt) = kill_children >> pure true
handle (raised (system_exit code)) = raise (system_exit code)
handle (raised _) = kill_children >> (sleep >> pure false)
handle blocked = λ s. (blocked, s)

-- One round of the loop.
unfoldable pub attempt : Text → Py Machine Bool
unfolding main_proc announce handle
attempt ip s = let (r, t) = (announce ip >> main_proc) s in handle r t

-- The loop: each round has events of its own. When there are no more, nothing else has happened yet.
unfoldable pub attempts : Text → List (List Event) → Step
unfolding attempt
attempts ip [] s = (blocked, s)
attempts ip (es ∷ ess) s =
    (attempt ip >>= λ ends. elim ends [ true ↦ pure tt | false ↦ attempts ip ess ])
      (record s { events = es })

-- `main`: `setup` is what happens while the sockets are made.
unfoldable pub main : Text → List (List Event) → Step
unfolding attempts
main ip rounds = do
  bind ip registration_port
  bind ip matchmaking_port
  bind ip session_port
  attempts ip rounds
