-- ===== src/Program/Idle.antt =====
-- What the threads of the program make of the matching data, from its start on (mym.py, match.py and
-- register.py).
use Prim.Native.Nat.{bit_and}
use meet_your_match.Prelude.{
  sym, true, ℕ, ◌≢◌, ◌⊎◌, inl, inr, arith, ◌≡◌, refl, ◌∙◌, ap, false, not, List, [], length, ltb,
  ◌==◌,
}
use meet_your_match.Python.{
  Result, blocked, ok, raised, attribute_error, pure, Floats, Address, Preserves, if-Preserves,
  if-elim, >>=-blocked,
}
use meet_your_match.Text.{Unicode}
use meet_your_match.Member.{Client}
use meet_your_match.Constants.{
  sv_error, sv_error_matching_not_found, sv_error_not_matching, matchmake_round_time,
}
use meet_your_match.Matching.{
  MatchingData, Store, acquire_lock, release_lock, init, find_client_unmatched, find_client_matched,
  find_in_sessions, find_host,
}
use meet_your_match.Matchmaker.Answer.{answer, answer_host, answer_matching, answer_in_match}
use meet_your_match.Matchmaker.{
  Server, next_client, intake, status_for, locked_answer, register_intake, matchmake,
  matchmake_round, serve, matchmake_and_respond, inform_sessions,
}
use meet_your_match.Matchmaker.Pairing.{expire, pair}
use meet_your_match.Matchmaker.Queries.{Returns, query_respond-On, locked_answer-free}
use meet_your_match.Matchmaker.Threads.{match_receive}
use meet_your_match.Registration.Failure.{register_next-match_pipe}
use meet_your_match.Program.{
  Program, Turn, Turns, reg_inc, reg_t, match_inc, reg_in, matchmake_t, done, after, main_proc,
  start_register, start_server, receive, register_round,
}

-- The data with nobody registered, waiting or in a session, and the lock free.
abbrev pub nobody : MatchingData → MatchingData
nobody md = record md {
  address_to_record = [];
  sessions = [];
  unmatched_clients = [];
  locked = false;
}

abbrev pub IsEmpty : MatchingData → Type 0
IsEmpty md = md ≡ nobody md

abbrev pub IsIdle : List Client → MatchingData → Type 0
IsIdle pipe md = (pipe ≡ []) × IsEmpty md

pub answer-nobody :
    (status : ℕ) (a : Address) (md : MatchingData)
    → (answer status a (record (nobody md) { locked = true })
        ≡ (ok sv_error_matching_not_found, record (nobody md) { locked = true }))
      ⊎ (answer status a (record (nobody md) { locked = true })
          ≡ (ok sv_error_not_matching, record (nobody md) { locked = true }))
unfolding answer answer_host answer_matching answer_in_match find_client_unmatched
    find_client_matched find_in_sessions find_host
answer-nobody status a md = ground arith

-- With nobody in the data, an answer returns.
pub locked_answer-nobody :
    (fl : Floats) (u : Unicode) (a : Address) (status : ℕ) (s : Server fl.Float)
    → IsEmpty s.match_data
    → Returns fl u a status s
locked_answer-nobody fl u a status s empty =
    elim (locked_answer-free fl u a status s (ap (λ m. m.locked) empty)) [
      | inl returned ↦ returned
      | inr (_, said) ↦
          let fails : (answer status a (record (nobody s.match_data) { locked = true })).0
              ≡ raised attribute_error =
            sym (ap (λ m. (answer status a (record m { locked = true })).0) empty)
            ∙ ap (λ o. o.0) said in
          absurd (elim (answer-nobody status a s.match_data) [
            | inl e ↦ returns (sym (ap (λ o. o.0) e) ∙ fails)
            | inr e ↦ returns (sym (ap (λ o. o.0) e) ∙ fails)
          ])
    ]
  where
    returns : {n : ℕ} → ◌≢◌ {A = Result ℕ} (ok n) (raised attribute_error)
    returns h = cc

module _ (fl : Floats) (u : Unicode) where
  open fl use {Float, of_nat, plus, minus, less}

  abbrev pub IsUnused : Server Float → Type 0
  IsUnused s = IsIdle s.in_pipe s.match_data

  -- A round with nobody in the data leaves the data alone.
  pub round-quiet :
      (clock : ℕ → Float) (s : Server Float) (md : MatchingData)
      → matchmake_round fl u clock (record s { match_data = nobody md })
        ≡ (ok tt, record s { matchmake_wait_ctr = of_nat 0; match_data = nobody md })
  unfolding matchmake_round matchmake acquire_lock release_lock expire pair inform_sessions
  round-quiet clock s md = refl

  round-IsIdle : (clock : ℕ → Float) → Preserves IsUnused (matchmake_round fl u clock)
  round-IsIdle clock s (pipe, empty) =
      let same =
        ap (λ md. matchmake_round fl u clock (record s { match_data = md })) empty
        ∙ round-quiet clock s s.match_data in
      (
        ap (λ o. o.1.in_pipe) same ∙ pipe,
        ap (λ o. o.1.match_data) same ∙ ap nobody (sym (ap (λ o. o.1.match_data) same)),
      )

  status_for-IsIdle :
      (error : ℕ) (a : Address) (status : ℕ) → Preserves IsUnused (status_for fl u error a status)
  unfolding status_for
  status_for-IsIdle error a status =
      if-Preserves IsUnused (not (bit_and error sv_error == 0)) (pure error)
        (locked_answer fl u a status) (λ s h. h)
        (λ s (pipe, empty).
          let (c, objects, e, _, _) = locked_answer-nobody fl u a status s empty in
          rw e (
            pipe,
            ap {A = MatchingData} {B = MatchingData}
                (λ m. record m { locked = false; objects = objects }) empty,
          ))

  pub intake_waits :
      (time : Float) (s : Server Float)
      → s.in_pipe ≡ []
      → register_intake fl u time s ≡ (blocked, s)
  unfolding register_intake
  intake_waits time s pipe = >>=-blocked next_client (intake fl u time) {s = s} {t = s} (rw pipe)

  intake-IsIdle : (time : Float) → Preserves IsUnused (register_intake fl u time)
  intake-IsIdle time s (pipe, empty) = rw (intake_waits time s pipe) (pipe, empty)

  serve-IsIdle :
      (log_time : Float) (clock : ℕ → Float) → Preserves IsUnused (serve fl u log_time clock)
  unfolding serve
  serve-IsIdle log_time clock s h =
      if-elim (λ (o : Result (Unit {0}) × Server Float). IsUnused o.1)
        (not (less s.matchmake_wait_ctr (of_nat matchmake_round_time))) (round-IsIdle clock s h)
        (if-elim (λ (o : Result (Unit {0}) × Server Float). IsUnused o.1)
          (ltb 0 (length s.incoming))
          (query_respond-On fl u (λ pipe md _. IsIdle pipe md) (λ _ _ _ h. h) status_for-IsIdle
            log_time (clock 0) s h)
          h)

  -- The registration process has nothing to send, and the matching process has nobody.
  abbrev pub IsQuiet : Program Float → Type 0
  IsQuiet p = (p.register.match_pipe ≡ []) × IsUnused p.server

  pub Turn-IsQuiet : {p q : Program Float} → Turn fl u p q → IsQuiet p → IsQuiet q
  unfolding receive register_round match_receive matchmake_and_respond
  Turn-IsQuiet (reg_inc windows r p) h = h
  Turn-IsQuiet (reg_t log_time time p) (sent, (pipe, empty)) =
      (refl, (rw (pipe, register_next-match_pipe fl log_time time p.register, sent) refl, empty))
  Turn-IsQuiet (match_inc windows r p) h = h
  Turn-IsQuiet (reg_in time p) (sent, h) = (sent, intake-IsIdle time p.server h)
  Turn-IsQuiet (matchmake_t new_time log_time clock p) (sent, h) = (
    sent,
    serve-IsIdle log_time clock
        (record (p.server) {
          prev_time = new_time;
          matchmake_wait_ctr = plus p.server.matchmake_wait_ctr (minus new_time p.server.prev_time);
        })
        h,
  )

  Turns-IsQuiet : {p q : Program Float} → Turns fl u p q → IsQuiet p → IsQuiet q
  Turns-IsQuiet (done p) h = h
  Turns-IsQuiet (after turn turns) h = Turns-IsQuiet turns (Turn-IsQuiet turn h)

  -- Whatever datagrams come to the two sockets and whichever threads take their turns, the program
  -- matches nobody: no client is ever in the pipe to the matching process, nobody is registered,
  -- waiting or in a session there, and its lock is free between the turns.
  pub nobody_is_matched :
      (rate : Float) (objects : Store) (prev_time : Float) (p : Program Float)
      → Turns fl u (main_proc fl rate objects prev_time) p
      → (p.server.in_pipe ≡ [])
        × (p.server.match_data.address_to_record ≡ [])
        × (p.server.match_data.unmatched_clients ≡ [])
        × (p.server.match_data.sessions ≡ [])
        × (p.server.match_data.locked ≡ false)
  unfolding main_proc start_register start_server init
  nobody_is_matched rate objects prev_time p turns =
      let (sent, (pipe, empty)) = Turns-IsQuiet turns (refl, (refl, refl)) in
      (
        pipe,
        ap (λ m. m.address_to_record) empty,
        ap (λ m. m.unmatched_clients) empty,
        ap (λ m. m.sessions) empty,
        ap (λ m. m.locked) empty,
      )
