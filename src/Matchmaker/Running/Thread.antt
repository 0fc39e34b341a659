-- ===== src/Matchmaker/Running/Thread.antt =====
-- The thread `matchmake_and_respond` (match.py) and the two locks that it takes: of the matching data
-- and of the responses.
use Prim.Native.Nat.{bit_and}
use meet_your_match.Prelude.{
  ℕ, suc, ◌≡◌, ◌≢◌, refl, false, not, inl, inr, List, [], ◌∷◌, arith, length, ltb, ◌==◌,
}
use meet_your_match.Python.{
  Result, blocked, pure, Address, Floats, ◌>>=◌, ◌>>◌, >>=-ok, Runs, pure-Runs, on_part-Runs,
  >>=-Runs, RunsTo, >>=-RunsTo, if-RunsTo, if-elim, values,
}
use meet_your_match.Struct.{Bytes}
use meet_your_match.Text.{Unicode}
use meet_your_match.Packet.{PacketData, new_packet, unpackit, packit}
use meet_your_match.ConnectionLog.Rate.{log_ip_codes}
use meet_your_match.LockedList
use meet_your_match.Matching.{
  Ref, dict_of, Session, MatchingData, Action, acquire_lock, release_lock,
}
use meet_your_match.Registration.{accepts_port}
use meet_your_match.Constants.{sv_error, sv_status_group_update, matchmake_round_time}
use meet_your_match.Matchmaker.Pack.{pack_session}
use meet_your_match.Matchmaker.Pairing.{expire, pair}
use meet_your_match.Matchmaker.Queries.{locked_answer-free, acquire_free}
use meet_your_match.Matchmaker.{
  Server, Step, next_message, on_data, respond_with, send_status, poll, locked_answer, status_for,
  query, query_respond, look_in_match, inform_clients, inform_session, inform_sessions, matchmake,
  matchmake_round, serve, matchmake_and_respond,
}
use meet_your_match.Matchmaker.Running.{
  expire-Runs, dict_of-Runs, pair-Runs, pack_session-Runs, packit-Runs, unpackit-Runs,
}

module _ (fl : Floats) (u : Unicode) where
  open fl use {Float, of_nat, plus, minus, less}

  -- The lock of the responses is free, and `D` holds of the matching data.
  abbrev IsOpen : (MatchingData → Type 0) → Server Float → Type 0
  IsOpen D s = (s.responses.locked ≡ false) × D s.match_data

  module _ (D : MatchingData → Type 0) where
    respond_with-Runs :
        (packed : Bytes) (a : Address) → Runs (IsOpen D) (respond_with fl u packed a)
    unfolding LockedList.append LockedList.acquire_lock LockedList.release_lock
    respond_with-Runs packed a s (free, d) = rw free (λ q. cc, (refl, d))

    send_status-Runs :
        (time : Float) (a : Address) (status : ℕ) → Runs (IsOpen D) (send_status fl u time a status)
    unfolding send_status
    send_status-Runs time a status =
        let p : PacketData Float = record (new_packet fl) { status = status; time_stamp = time } in
        >>=-Runs (IsOpen D) (packit fl p) (λ packed. respond_with fl u packed a)
          (packit-Runs fl (IsOpen D) p) (λ packed. respond_with-Runs packed a)

    poll-Runs : (t : Float) (a : Address) → Runs (IsOpen D) (poll fl u t a)
    poll-Runs t a s h = let (c, e, _) = log_ip_codes fl t a s.connect_log in rw e (λ q. cc, h)

  abbrev IsFree : MatchingData → Type 0
  IsFree md = md.locked ≡ false

  -- The lock of the responses is free.
  abbrev IsAnswering : Server Float → Type 0
  IsAnswering = IsOpen (λ _. Unit {0})

  -- Both locks are free before, and that of the responses after.
  abbrev Answering : {A : Type 0} → Step fl u A → Type 0
  Answering m = RunsTo (IsOpen IsFree) IsAnswering m

  still : (s : Server Float) → IsOpen IsFree s → IsAnswering s
  still s (free, _) = (free, tt)

  status_for-Runs :
      (error : ℕ) (a : Address) (status : ℕ) → Answering (status_for fl u error a status)
  unfolding status_for
  status_for-Runs error a status =
      if-RunsTo (IsOpen IsFree) IsAnswering (not (bit_and error sv_error == 0)) (pure error)
        (locked_answer fl u a status) (λ s (free, d). (λ q. cc, (free, tt)))
        (λ s (free, d). elim (locked_answer-free fl u a status s d) [
          | inl (c, objects, e, _, _) ↦ rw e (λ q. cc, (free, tt))
          | inr (e, _) ↦ rw e (λ q. cc, (free, tt))
        ])

  query-Runs :
      (log_time time : Float) (msg : Bytes × Address) → Answering (query fl u log_time time msg)
  unfolding query
  query-Runs log_time time (bytes, a) =
      if-RunsTo (IsOpen IsFree) IsAnswering (not (accepts_port a.port)) (pure tt)
        (unpackit fl bytes >>= polled) (λ s (free, d). (λ q. cc, (free, tt)))
        (>>=-RunsTo (IsOpen IsFree) (IsOpen IsFree) IsAnswering (unpackit fl bytes) polled
          (unpackit-Runs fl (IsOpen IsFree) bytes) still
          (λ p.
            >>=-RunsTo (IsOpen IsFree) (IsOpen IsFree) IsAnswering (poll fl u log_time a) (found p)
              (poll-Runs IsFree log_time a) still
              (λ c.
                >>=-RunsTo (IsOpen IsFree) IsAnswering IsAnswering (status_for fl u c a p.status)
                  (send_status fl u time a) (status_for-Runs c a p.status) (λ s h. h)
                  (send_status-Runs (λ _. Unit {0}) time a))))
    where
      found : PacketData Float → ℕ → Step fl u (Unit {0})
      found p error = status_for fl u error a p.status >>= send_status fl u time a

      polled : PacketData Float → Step fl u (Unit {0})
      polled p = poll fl u log_time a >>= found p

  query_respond-Runs : (log_time time : Float) → Answering (query_respond fl u log_time time)
  unfolding query_respond
  query_respond-Runs log_time time =
      >>=-RunsTo (IsOpen IsFree) (IsOpen IsFree) IsAnswering next_message (query fl u log_time time)
        (λ s h. ground arith) still (query-Runs log_time time)

  on_data-Runs :
      {A : Type 0} (m : Action A)
      → Runs (λ (md : MatchingData). Unit {0}) m
      → Runs IsAnswering (on_data fl u m)
  on_data-Runs m runs =
      on_part-Runs IsAnswering (λ _. Unit {0}) (λ s. s.match_data)
        (λ s md. record s { match_data = md }) m runs (λ s h. tt) (λ s t h q. h)

  look_in_match-Runs : (r : Ref) → Runs IsAnswering (look_in_match fl u r)
  look_in_match-Runs r =
      >>=-Runs IsAnswering (on_data fl u (dict_of r)) (λ _. pure tt)
        (on_data-Runs (dict_of r) (dict_of-Runs r)) (λ _. pure-Runs IsAnswering tt)

  inform_clients-Runs :
      (packed : Bytes) (cs : List Ref) → Runs IsAnswering (inform_clients fl u packed cs)
  unfolding inform_clients
  inform_clients-Runs packed [] s = pure-Runs IsAnswering tt s
  inform_clients-Runs packed (c ∷ cs) s =
      >>=-Runs IsAnswering (respond_with fl u packed (s.match_data.objects c).address)
        (λ _. look_in_match fl u c >> inform_clients fl u packed cs)
        (respond_with-Runs (λ _. Unit {0}) packed (s.match_data.objects c).address)
        (λ _.
          >>=-Runs IsAnswering (look_in_match fl u c) (λ _. inform_clients fl u packed cs)
            (look_in_match-Runs c) (λ _. inform_clients-Runs packed cs))
        s

  inform_session-Runs :
      (time : Float) (session : Session) → Runs IsAnswering (inform_session fl u time session)
  unfolding inform_session
  inform_session-Runs time session =
      >>=-Runs IsAnswering (on_data fl u (pack_session u session)) send
        (on_data-Runs (pack_session u session) (pack_session-Runs u session))
        (λ bytes.
          >>=-Runs IsAnswering (packit fl (update bytes)) tell
            (packit-Runs fl IsAnswering (update bytes))
            (λ packed.
              >>=-Runs IsAnswering (look_in_match fl u session.host) (λ _. tell_all packed)
                (look_in_match-Runs session.host)
                (λ _ s.
                  >>=-Runs IsAnswering
                    (respond_with fl u packed (s.match_data.objects session.host).address)
                    (λ _. inform_clients fl u packed session.clients)
                    (respond_with-Runs (λ _. Unit {0}) packed
                      (s.match_data.objects session.host).address)
                    (λ _. inform_clients-Runs packed session.clients) s)))
    where
      update : Bytes → PacketData Float
      update bytes = record (new_packet fl) {
        status = sv_status_group_update;
        time_stamp = time;
        client_data = bytes;
      }

      tell_all : Bytes → Step fl u (Unit {0})
      tell_all packed s =
          (respond_with fl u packed (s.match_data.objects session.host).address
              >> inform_clients fl u packed session.clients)
            s

      tell : Bytes → Step fl u (Unit {0})
      tell packed = look_in_match fl u session.host >> tell_all packed

      send : Bytes → Step fl u (Unit {0})
      send bytes = packit fl (update bytes) >>= tell

  module _ (clock : ℕ → Float) where
    inform_sessions-Runs :
        (i : ℕ) (ss : List Session) → Runs IsAnswering (inform_sessions fl u clock i ss)
    unfolding inform_sessions
    inform_sessions-Runs i [] = pure-Runs IsAnswering tt
    inform_sessions-Runs i (s ∷ ss) =
        >>=-Runs IsAnswering (inform_session fl u (clock i) s)
          (λ _. inform_sessions fl u clock (suc i) ss) (inform_session-Runs (clock i) s)
          (λ _. inform_sessions-Runs (suc i) ss)

    matchmake-Runs : Runs IsAnswering (matchmake fl u clock)
    unfolding matchmake
    matchmake-Runs s h =
        >>=-Runs IsAnswering (on_data fl u (expire (values s.match_data.address_to_record)))
          (λ _. pairing)
          (on_data-Runs (expire (values s.match_data.address_to_record))
            (expire-Runs (values s.match_data.address_to_record)))
          (λ _. pairing-Runs) s h
      where
        finish : Step fl u (Unit {0})
        finish s = inform_sessions fl u clock 0 s.match_data.sessions s

        pairing : Step fl u (Unit {0})
        pairing s = (on_data fl u (pair 0 s.match_data.unmatched_clients) >> finish) s

        pairing-Runs : Runs IsAnswering pairing
        pairing-Runs s h =
            >>=-Runs IsAnswering (on_data fl u (pair 0 s.match_data.unmatched_clients))
              (λ _. finish)
              (on_data-Runs (pair 0 s.match_data.unmatched_clients)
                (pair-Runs s.match_data.unmatched_clients))
              (λ _ t g. inform_sessions-Runs 0 t.match_data.sessions t g) s h

    release-Runs : Runs IsAnswering (on_data fl u release_lock)
    unfolding release_lock
    release-Runs s h = ground arith

    round-Runs :
        (s : Server Float)
        → IsOpen IsFree s
        → ((matchmake_round fl u clock s).0 ≢ blocked)
          × IsAnswering (matchmake_round fl u clock s).1
    unfolding matchmake_round
    round-Runs s (free, d) =
        rw
          (>>=-ok (on_data fl u acquire_lock)
            (λ _. matchmake fl u clock >> on_data fl u release_lock)
            (acquire_free fl u (record s { matchmake_wait_ctr = of_nat 0 }) d))
          (>>=-Runs IsAnswering (matchmake fl u clock) (λ _. on_data fl u release_lock)
            matchmake-Runs (λ _. release-Runs) _ (free, tt))

  -- With both locks free, a round of the matchmaking thread does not wait: it returns or raises, and
  -- leaves the lock of the responses free.
  pub matchmake_and_respond-Runs :
      (new_time log_time : Float) (clock : ℕ → Float) (s : Server Float)
      → s.responses.locked ≡ false
      → s.match_data.locked ≡ false
      → ((matchmake_and_respond fl u new_time log_time clock s).0 ≢ blocked)
        × ((matchmake_and_respond fl u new_time log_time clock s).1.responses.locked ≡ false)
  unfolding matchmake_and_respond serve
  matchmake_and_respond-Runs new_time log_time clock s free d =
      let t = counted in
      let (waits, kept) =
        if-elim Ends (not (less t.matchmake_wait_ctr (of_nat matchmake_round_time)))
          (round-Runs clock t (free, d))
          (if-elim Ends (ltb 0 (length t.incoming))
            (let (ends, both) = query_respond-Runs log_time (clock 0) t (free, d) in (ends, both))
            (pure-Runs IsAnswering tt t (free, tt))) in
      (waits, kept.0)
    where
      counted : Server Float
      counted = record s {
        prev_time = new_time;
        matchmake_wait_ctr = plus s.matchmake_wait_ctr (minus new_time s.prev_time);
      }

      Ends : Result (Unit {0}) × Server Float → Type 0
      Ends o = (o.0 ≢ blocked) × IsAnswering o.1
