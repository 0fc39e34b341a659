-- ===== src/Program/Logs.antt =====
-- The connection logs of the two processes, from the start of the program on (mym.py, match.py and
-- common.py).
use Prim.Native.Nat.{bit_and}
use meet_your_match.Prelude.{ℕ, ◌≤◌, ◌≡◌, refl, ◌∙◌, ap, not, length, ltb, arith, ◌==◌}
use meet_your_match.Python.{
  Result, Floats, Address, pure, ◌>>=◌, ◌>>◌, Preserves, >>=-Preserves, if-Preserves, if-elim,
}
use meet_your_match.Text.{Unicode}
use meet_your_match.ConnectionLog.{ConnectionLog, log_ip, init}
use meet_your_match.ConnectionLog.Bans.{HasTextBans, log_ip-HasTextBans, init-HasTextBans}
use meet_your_match.ConnectionLog.Capacity.{log_ip-Grows}
use meet_your_match.Constants.{ip_turnover_time, max_registering, sv_error, matchmake_round_time}
use meet_your_match.Matching
use meet_your_match.Matching.{Store, acquire_lock, release_lock}
use meet_your_match.Registration.Failure.{register_next-On}
use meet_your_match.Matchmaker.{
  Server, Step, on_data, status_for, locked_answer, matchmake_round, serve, matchmake_and_respond,
}
use meet_your_match.Matchmaker.Answer.{answer}
use meet_your_match.Matchmaker.Queries.{query_respond-On}
use meet_your_match.Matchmaker.Threads.{match_receive}
use meet_your_match.Program.{
  Program, Turn, Turns, reg_inc, reg_t, match_inc, reg_in, matchmake_t, done, after, main_proc,
  start_register, start_server, receive, register_round, max_user_ct,
}
use meet_your_match.Program.Idle.{IsQuiet, Turn-IsQuiet, intake_waits, IsUnused, round-quiet}

module _ (fl : Floats) (u : Unicode) where
  open fl use {Float, of_nat, plus, minus, less}

  -- At most `n` addresses are known, and the ban list holds texts.
  abbrev pub IsWithin : ℕ → ConnectionLog Float → Type 0
  IsWithin n log = (log.max_ips ≡ n) × (length log.ip_log ≤ n) × HasTextBans log

  log_ip-IsWithin :
      (n : ℕ) (t : Float) (a : Address) (log : ConnectionLog Float)
      → IsWithin n log
      → IsWithin n (log_ip fl t a log).1
  log_ip-IsWithin n t a log (max, size, bans) =
      let (_, _, same, bounded) = log_ip-Grows fl t a log in
      let within = bounded (omega arith) in
      (same ∙ max, omega arith, log_ip-HasTextBans fl t a log bans)

  abbrev HasLog : ℕ → Server Float → Type 0
  HasLog n s = IsWithin n s.connect_log

  module _ (n : ℕ) where
    locked_answer-HasLog :
        (a : Address) (status : ℕ) → Preserves (HasLog n) (locked_answer fl u a status)
    unfolding locked_answer
    locked_answer-HasLog a status =
        >>=-Preserves (HasLog n) (on_data fl u acquire_lock) (λ _. rest) (λ s h. h)
          (λ _.
            >>=-Preserves (HasLog n) (on_data fl u (answer status a)) back (λ s h. h)
              (λ c.
                >>=-Preserves (HasLog n) (on_data fl u release_lock) (λ _. pure c) (λ s h. h)
                  (λ _ s h. h)))
      where
        back : ℕ → Step fl u ℕ
        back c = on_data fl u release_lock >> pure c

        rest : Step fl u ℕ
        rest = on_data fl u (answer status a) >>= back

    status_for-HasLog :
        (error : ℕ) (a : Address) (status : ℕ)
        → Preserves (HasLog n) (status_for fl u error a status)
    unfolding status_for
    status_for-HasLog error a status =
        if-Preserves (HasLog n) (not (bit_and error sv_error == 0)) (pure error)
          (locked_answer fl u a status) (λ s h. h) (locked_answer-HasLog a status)

    round-HasLog :
        (clock : ℕ → Float) (s : Server Float)
        → IsUnused fl u s
        → HasLog n s
        → HasLog n (matchmake_round fl u clock s).1
    round-HasLog clock s (_, empty) h =
        let same =
          ap (λ md. (matchmake_round fl u clock (record s { match_data = md })).1.connect_log) empty
          ∙ ap (λ o. o.1.connect_log) (round-quiet fl u clock s s.match_data) in
        rw same h

    serve-HasLog :
        (log_time : Float) (clock : ℕ → Float) (s : Server Float)
        → IsUnused fl u s
        → HasLog n s
        → HasLog n (serve fl u log_time clock s).1
    unfolding serve
    serve-HasLog log_time clock s unused h =
        if-elim (λ (o : Result (Unit {0}) × Server Float). HasLog n o.1)
          (not (less s.matchmake_wait_ctr (of_nat matchmake_round_time)))
          (round-HasLog clock s unused h)
          (if-elim (λ (o : Result (Unit {0}) × Server Float). HasLog n o.1)
            (ltb 0 (length s.incoming))
            (query_respond-On fl u (λ _ _ log. IsWithin n log)
              (λ t a t' g. log_ip-IsWithin n t a t'.connect_log g) status_for-HasLog log_time
              (clock 0) s h)
            h)

  -- Nobody is matched, and the logs are within their sizes.
  abbrev HasLogs : Program Float → Type 0
  HasLogs p =
      IsWithin max_registering p.register.connect_log × IsWithin max_user_ct p.server.connect_log

  Turn-HasLogs : {p q : Program Float} → Turn fl u p q → IsQuiet fl u p → HasLogs p → HasLogs q
  unfolding receive register_round match_receive matchmake_and_respond
  Turn-HasLogs (reg_inc windows r p) quiet h = h
  Turn-HasLogs (reg_t log_time time p) quiet (mine, others) = (
    register_next-On fl (λ _ log. IsWithin max_registering log)
        (λ t a s g. log_ip-IsWithin max_registering t a s.connect_log g) log_time time p.register
        mine,
    others,
  )
  Turn-HasLogs (match_inc windows r p) quiet h = h
  Turn-HasLogs (reg_in time p) (_, (pipe, _)) (mine, others) =
      (mine, rw (intake_waits fl u time p.server pipe) others)
  Turn-HasLogs (matchmake_t new_time log_time clock p) (_, unused) (mine, others) = (
    mine,
    serve-HasLog max_user_ct log_time clock
        (record (p.server) {
          prev_time = new_time;
          matchmake_wait_ctr = plus p.server.matchmake_wait_ctr (minus new_time p.server.prev_time);
        })
        unused others,
  )

  Turns-HasLogs : {p q : Program Float} → Turns fl u p q → IsQuiet fl u p → HasLogs p → HasLogs q
  Turns-HasLogs (done p) quiet h = h
  Turns-HasLogs (after turn turns) quiet h =
      Turns-HasLogs turns (Turn-IsQuiet fl u turn quiet) (Turn-HasLogs turn quiet h)

  -- However the program runs from its start, the log of registration never has more than
  -- `max_registering` addresses, nor that of matchmaking more than `max_user_ct`, and both ban lists
  -- hold only texts.
  pub logs-IsWithin :
      (rate : Float) (objects : Store) (prev_time : Float) (p : Program Float)
      → Turns fl u (main_proc fl rate objects prev_time) p
      → IsWithin max_registering p.register.connect_log × IsWithin max_user_ct p.server.connect_log
  unfolding main_proc start_register start_server init Matching.init
  logs-IsWithin rate objects prev_time p turns =
      Turns-HasLogs turns (refl, (refl, refl))
        (
          (refl, omega arith, init-HasTextBans fl rate (of_nat ip_turnover_time) max_registering),
          (refl, omega arith, init-HasTextBans fl rate (of_nat ip_turnover_time) max_user_ct),
        )
