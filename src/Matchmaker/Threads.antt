-- ===== src/Matchmaker/Threads.antt =====
-- The threads of `match_clients` (match.py), in any order: each turn is one round of one of them.
-- A thread that has ended or waits may take more turns here than it would; so what is shown of every
-- run holds of the real ones.
use meet_your_match.Prelude.{
  ℕ, ◌≡◌, refl, ◌∙◌, ap, Bool, true, false, not, List, [], ◌∷◌, ◌++◌, length, ltb, arith,
}
use meet_your_match.Python.{
  Result, on_part, blocked, Py, Floats, modify, ◌>>◌, Preserves, >>=-Preserves, >>=-blocked,
  if-elim,
}
use meet_your_match.Sockets.{Received, buffer_incoming}
use meet_your_match.Text.{Unicode}
use meet_your_match.Member.{Client}
use meet_your_match.Constants.{matchmake_round_time}
use meet_your_match.Matching.{MatchingData, acquire_lock, release_lock}
use meet_your_match.Matchmaker.{
  Server, next_client, on_data, intake, register_intake, matchmake, matchmake_round, serve,
  matchmake_and_respond,
}
use meet_your_match.Matchmaker.Intake.{register_intake_lem}
use meet_your_match.Matchmaker.Queries.{HasData, acquire_held, query_respond-held}

-- a round of `buffer_incoming`
unfoldable pub match_receive : {F : Type 0} → Bool → Received → Py (Server F) (Unit {0})
unfolding buffer_incoming
match_receive windows r =
    on_part (λ s. s.incoming) (λ s q. record s { incoming = q }) (buffer_incoming windows r)

-- a client that the registration process sends through the pipe
unfoldable pub send_client : {F : Type 0} → Client → Py (Server F) (Unit {0})
send_client client = modify (λ s. record s { in_pipe = s.in_pipe ++ client ∷ [] })

module _ (fl : Floats) (u : Unicode) where
  open fl use {Float, of_nat, plus, minus, less}

  -- One turn, by the state before it and the one after.
  pub data Turn : Server Float → Server Float → Type 0 where
    registration : (c : Client) (s : Server Float) → Turn s (send_client c s).1
    match_inc :
        (windows : Bool) (r : Received) (s : Server Float) → Turn s (match_receive windows r s).1
    reg_in : (time : Float) (s : Server Float) → Turn s (register_intake fl u time s).1
    matchmake_t :
        (new_time log_time : Float) (clock : ℕ → Float) (s : Server Float)
        → Turn s (matchmake_and_respond fl u new_time log_time clock s).1

  pub data Turns : Server Float → Server Float → Type 0 where
    done : (s : Server Float) → Turns s s
    after : {s t r : Server Float} → Turn s t → Turns t r → Turns s r

  module _ (md : MatchingData) (held : md.locked ≡ true) where
    still_held : (s : Server Float) → HasData fl u md s → s.match_data.locked ≡ true
    still_held s h = ap (λ m. m.locked) h ∙ held

    intake-blocked :
        (time : Float) (c : Client) (s : Server Float)
        → s.match_data.locked ≡ true
        → intake fl u time c s ≡ (blocked, s)
    unfolding intake acquire_lock
    intake-blocked time c s waits = rw waits

    intake-held : (time : Float) (c : Client) → Preserves (HasData fl u md) (intake fl u time c)
    intake-held time c s h = rw (intake-blocked time c s (still_held s h)) h

    register_intake-held : (time : Float) → Preserves (HasData fl u md) (register_intake fl u time)
    unfolding register_intake
    register_intake-held time =
        >>=-Preserves (HasData fl u md) next_client (intake fl u time) (λ s h. ground arith)
          (intake-held time)

    round-held : (clock : ℕ → Float) → Preserves (HasData fl u md) (matchmake_round fl u clock)
    unfolding matchmake_round
    round-held clock s h =
        rw
          (>>=-blocked (on_data fl u acquire_lock)
            (λ _. matchmake fl u clock >> on_data fl u release_lock)
            (acquire_held fl u (record s { matchmake_wait_ctr = of_nat 0 }) (still_held s h)))
          h

    serve-held :
        (log_time : Float) (clock : ℕ → Float)
        → Preserves (HasData fl u md) (serve fl u log_time clock)
    unfolding serve
    serve-held log_time clock s h =
        if-elim (λ (o : Result (Unit {0}) × Server Float). HasData fl u md o.1)
          (not (less s.matchmake_wait_ctr (of_nat matchmake_round_time))) (round-held clock s h)
          (if-elim (λ (o : Result (Unit {0}) × Server Float). HasData fl u md o.1)
            (ltb 0 (length s.incoming)) (query_respond-held fl u md held log_time (clock 0) s h) h)

    Turn-held : {s t : Server Float} → Turn s t → HasData fl u md s → HasData fl u md t
    unfolding send_client match_receive matchmake_and_respond
    Turn-held (registration c s) h = h
    Turn-held (match_inc windows r s) h = h
    Turn-held (reg_in time s) h = register_intake-held time s h
    Turn-held (matchmake_t new_time log_time clock s) h =
        serve-held log_time clock
          (record s {
            prev_time = new_time;
            matchmake_wait_ctr = plus s.matchmake_wait_ctr (minus new_time s.prev_time);
          })
          h

    pub Turns-held : {s t : Server Float} → Turns s t → HasData fl u md s → HasData fl u md t
    Turns-held (done s) h = h
    Turns-held (after turn turns) h = Turns-held turns (Turn-held turn h)

  -- Once the intake thread has taken a client from the pipe while the lock was free, no run of the
  -- threads changes the matching data again: the lock stays held, and nobody is added, matched or
  -- dropped.
  pub intake_ends_matching :
      (time : Float) (client : Client) (rest : List Client) (s t : Server Float)
      → s.in_pipe ≡ client ∷ rest
      → s.match_data.locked ≡ false
      → Turns (register_intake fl u time s).1 t
      → t.match_data ≡ record (s.match_data) { locked = true }
  intake_ends_matching time client rest s t pipe free turns =
      Turns-held (record (s.match_data) { locked = true }) refl turns
        (ap (λ o. o.1.match_data) ((register_intake_lem fl u time client rest s pipe).0 free))
