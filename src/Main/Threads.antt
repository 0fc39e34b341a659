-- ===== src/Main/Threads.antt =====
-- The threads that are left when the loop of `main` starts anew, and when `main` returns (mym.py).
use meet_your_match.Prelude.{
  ℕ, ◌+◌, ◌*◌, ◌≡◌, ◌∙◌, refl, zero, suc, List, [], ◌∷◌, ◌++◌, replicate, arith,
}
use meet_your_match.Python.{ok, Text}
use meet_your_match.Constants.{registration_port, matchmaking_port, session_port}
use meet_your_match.Main.{Event, succeeds, fails, interrupts, Machine, attempt, attempts, main}

-- Everything starts but the process of matchmaking; then the sleep ends.
abbrev pub broken : List Event
broken = replicate 8 succeeds ++ fails ∷ succeeds ∷ []

-- Everything starts, and then Ctrl-C is pressed.
abbrev pub stopped : List Event
stopped = replicate 9 succeeds ++ interrupts ∷ []

attempts_left :
    (ip : Text) (n : ℕ) (s : Machine)
    → ((attempts ip (replicate n broken ++ stopped ∷ []) s).0 ≡ ok tt)
      × ((attempts ip (replicate n broken ++ stopped ∷ []) s).1.children ≡ 0)
      × ((attempts ip (replicate n broken ++ stopped ∷ []) s).1.threads ≡ s.threads + 2 * n + 2)
unfolding attempts
attempts_left ip zero s = (refl, refl, omega arith)
attempts_left ip (suc n) s =
    let (returns, killed, count) =
      attempts_left ip n (attempt ip (record s { events = broken })).1 in
    (returns, killed, count ∙ omega arith)

-- The six calls for the three sockets.
abbrev pub bound : List Event
bound = replicate 6 succeeds

-- When the sockets are bound, the process of matchmaking cannot be started `n` times in a row, and
-- Ctrl-C is pressed while all runs the next time, `main` returns with every child process killed,
-- but two threads are left for each of the `n + 1` times, beside those that were there.
pub threads_are_left :
    (ip : Text) (n : ℕ) (s : Machine)
    → ((main ip (replicate n broken ++ stopped ∷ []) (record s { events = bound })).0 ≡ ok tt)
      × ((main ip (replicate n broken ++ stopped ∷ []) (record s { events = bound })).1.children
          ≡ 0)
      × ((main ip (replicate n broken ++ stopped ∷ []) (record s { events = bound })).1.threads
          ≡ s.threads + 2 * (n + 1))
unfolding main
threads_are_left ip n s =
    let (returns, killed, count) = attempts_left ip n record s {
      events = [];
      sockets =
          s.sockets
          ++ (ip, registration_port) ∷ []
          ++ (ip, matchmaking_port) ∷ []
          ++ (ip, session_port) ∷ [];
    } in
    (returns, killed, count ∙ omega arith)
