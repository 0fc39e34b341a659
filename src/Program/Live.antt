-- ===== src/Program/Live.antt =====
-- The thread `matchmake_and_respond` among the others, from the start of the program on (mym.py and
-- match.py).
use meet_your_match.Prelude.{ℕ, ◌≡◌, ◌≢◌, refl, ap, false}
use meet_your_match.Python.{blocked, Floats}
use meet_your_match.Text.{Unicode}
use meet_your_match.Matching.{Store, init}
use meet_your_match.Matchmaker.{matchmake_and_respond}
use meet_your_match.Matchmaker.Running.Thread.{matchmake_and_respond-Runs}
use meet_your_match.Matchmaker.Threads.{match_receive}
use meet_your_match.Program.{
  Program, Turn, Turns, reg_inc, reg_t, match_inc, reg_in, matchmake_t, done, after, main_proc,
  start_register, start_server, receive, register_round,
}
use meet_your_match.Program.Idle.{IsQuiet, Turn-IsQuiet, intake_waits}

module _ (fl : Floats) (u : Unicode) where
  open fl use {Float}

  -- There is nobody to match, and the lock of the responses is free.
  abbrev pub IsLive : Program Float → Type 0
  IsLive p = IsQuiet fl u p × (p.server.responses.locked ≡ false)

  still_free : {p q : Program Float} → Turn fl u p q → IsLive p → q.server.responses.locked ≡ false
  unfolding receive register_round match_receive
  still_free (reg_inc windows r p) h = h.1
  still_free (reg_t log_time time p) h = h.1
  still_free (match_inc windows r p) h = h.1
  still_free (reg_in time p) ((_, (pipe, _)), free) = rw (intake_waits fl u time p.server pipe) free
  still_free (matchmake_t new_time log_time clock p) ((_, (_, empty)), free) =
      (matchmake_and_respond-Runs fl u new_time log_time clock p.server free
        (ap (λ md. md.locked) empty)).1

  pub Turns-IsLive : {p q : Program Float} → Turns fl u p q → IsLive p → IsLive q
  Turns-IsLive (done p) h = h
  Turns-IsLive (after turn turns) h =
      Turns-IsLive turns (Turn-IsQuiet fl u turn h.0, still_free turn h)

  -- From the start of the program on, whatever comes and whichever threads take their turns, a round
  -- of the matchmaking thread never waits for a lock: it returns or raises.
  pub matchmaking_goes_on :
      (rate : Float) (objects : Store) (prev_time : Float) (p : Program Float)
      → Turns fl u (main_proc fl rate objects prev_time) p
      → (new_time log_time : Float) (clock : ℕ → Float)
      → (matchmake_and_respond fl u new_time log_time clock p.server).0 ≢ blocked
  unfolding main_proc start_register start_server init
  matchmaking_goes_on rate objects prev_time p turns new_time log_time clock =
      let ((_, (_, empty)), free) = Turns-IsLive turns ((refl, (refl, refl)), refl) in
      (matchmake_and_respond-Runs fl u new_time log_time clock p.server free
        (ap (λ md. md.locked) empty)).0
