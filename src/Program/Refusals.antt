-- ===== src/Program/Refusals.antt =====
-- What the program tells its clients, from its start on (mym.py, match.py and register.py).
use Prim.Native.Nat.{bit_and}
use meet_your_match.Prelude.{
  ℕ, Bool, refl, ap, ◌∙◌, true, false, not, inl, inr, ltb, length, arith, All, Bool-cases, ◌==◌,
  if◌then◌else◌,
}
use meet_your_match.Python.{
  Result, ok, raised, blocked, ◌>>=◌, >>=-ok, Floats, Address, Leads, After, >>=-Leads, ◌then◌,
  Keeps, kept, if-elim, Preserves,
}
use meet_your_match.Struct.{Bytes}
use meet_your_match.Text.{Unicode}
use meet_your_match.Packet.{new_packet, unpackit}
use meet_your_match.Packet.RoundTrip.{IsDouble, unpackit-state}
use meet_your_match.Packet.Readable.{IsError, IsRefusal, packing-Keeps}
use meet_your_match.Constants.{sv_error, matchmake_round_time}
use meet_your_match.Matching.{Store, init}
use meet_your_match.Registration.{accepts_port}
use meet_your_match.Registration.Sending.{IsSending, register_next-Keeps}
use meet_your_match.Matchmaker.{
  Server, Step, next_message, send_status, poll, locked_answer, status_for, query, query_respond,
  matchmake_round, serve, matchmake_and_respond,
}
use meet_your_match.Program.Idle.{locked_answer-nobody}
use meet_your_match.Matchmaker.Sending.{respond_with-All}
use meet_your_match.Matchmaker.Threads.{match_receive}
use meet_your_match.Program.{
  Program, Turn, Turns, reg_inc, reg_t, match_inc, reg_in, matchmake_t, done, after, main_proc,
  start_register, start_server, receive, register_round,
}
use meet_your_match.Program.Idle.{IsQuiet, IsUnused, Turn-IsQuiet, intake_waits, round-quiet}
use meet_your_match.Program.Answering.{answer-IsError}

module _ (fl : Floats) (u : Unicode) (double : IsDouble fl) where
  open fl use {Float, of_nat, plus, minus, less}

  -- Whatever stands among the responses can be read and says an error.
  abbrev AreRefusals : Server Float → Type 0
  AreRefusals s = All (λ (bytes, a). IsRefusal fl bytes) s.responses.items

  -- There is nobody to match, too.
  abbrev Calm : Server Float → Type 0
  Calm s = IsUnused fl u s × AreRefusals s

  -- From a calm state, the call tells nothing but errors.
  abbrev Refuses : {A : Type 0} → Step fl u A → (Server Float → Type 0) → Type 0
  Refuses m Q = Leads (λ _. AreRefusals) AreRefusals Calm m Q

  calming :
      {A : Type 0} (o : Result A × Server Float)
      → Calm o.1
      → After Calm (λ _. AreRefusals) AreRefusals o
  calming (ok a, s) h = h
  calming (raised e, s) h = h.1
  calming (blocked, s) h = h.1

  stays : {A : Type 0} (m : Step fl u A) → Preserves Calm m → Refuses m Calm
  stays m h = record { leads = λ s calm. calming (m s) (h s calm) }

  refusing :
      {A : Type 0} (o : Result A × Server Float)
      → AreRefusals o.1
      → After AreRefusals (λ _. AreRefusals) AreRefusals o
  refusing (ok a, s) h = h
  refusing (raised e, s) h = h
  refusing (blocked, s) h = h

  send_status-Keeps :
      (time : Float) (a : Address) (c : ℕ)
      → IsError c
      → Keeps AreRefusals (send_status fl u time a c)
  unfolding send_status
  send_status-Keeps time a c wrong =
      packing-Keeps fl (record (new_packet fl) { status = c; time_stamp = time }) double refl
        (λ bytes good. respond_with-All fl u (IsRefusal fl) bytes a (c, wrong, good))

  answering-AreRefusals :
      (time : Float) (a : Address) (error status : ℕ) (s : Server Float)
      → Calm s
      → AreRefusals ((status_for fl u error a status >>= send_status fl u time a) s).1
  unfolding status_for
  answering-AreRefusals time a error status s ((_, empty), h) =
      elim (Bool-cases (bit_and error sv_error == 0)) [
        | inr wrong ↦ rw wrong (kept (send_status-Keeps time a error (ground arith)) s h)
        | inl passed ↦
            let (k, objects, e, _, said) = locked_answer-nobody fl u a status s empty in
            let wrong = answer-IsError status a s.match_data k empty (ap (λ o. o.0) said) in
            let step = >>=-ok (locked_answer fl u a status) (send_status fl u time a) e in
            rw (passed, step) (kept (send_status-Keeps time a k wrong) _ h)
      ]

  answering-Refuses :
      (time : Float) (a : Address) (error status : ℕ)
      → Refuses (status_for fl u error a status >>= send_status fl u time a) AreRefusals
  answering-Refuses time a error status = record {
    leads = λ s calm. refusing _ (answering-AreRefusals time a error status s calm);
  }

  unpackit-Calm : (bytes : Bytes) → Refuses (unpackit fl bytes) Calm
  unpackit-Calm bytes = stays (unpackit fl bytes) (λ s h. rw (unpackit-state fl bytes s) h)

  poll-Calm : (log_time : Float) (a : Address) → Refuses (poll fl u log_time a) Calm
  poll-Calm log_time a = stays (poll fl u log_time a) (λ s h. h)

  next_message-Calm : Refuses next_message Calm
  next_message-Calm = stays next_message (λ s h. ground arith)

  if-Refuses :
      {A : Type 0} (b : Bool) {m k : Step fl u A}
      → Refuses m AreRefusals
      → Refuses k AreRefusals
      → Refuses (if b then m else k) AreRefusals
  if-Refuses true hm hk = hm
  if-Refuses false hm hk = hk

  query-Refuses :
      (log_time time : Float) (msg : Bytes × Address)
      → Refuses (query fl u log_time time msg) AreRefusals
  unfolding query
  query-Refuses log_time time (bytes, a) =
      if-Refuses (not (accepts_port a.port)) (record { leads = λ s h. h.1 })
        (>>=-Leads (unpackit-Calm bytes)
          λ p. >>=-Leads (poll-Calm log_time a) λ error. answering-Refuses time a error p.status)

  query_respond-Refuses :
      (log_time time : Float) → Refuses (query_respond fl u log_time time) AreRefusals
  unfolding query_respond
  query_respond-Refuses log_time time = >>=-Leads next_message-Calm (query-Refuses log_time time)

  told :
      {A : Type 0} (o : Result A × Server Float)
      → After AreRefusals (λ _. AreRefusals) AreRefusals o
      → AreRefusals o.1
  told (ok a, s) h = h
  told (raised e, s) h = h
  told (blocked, s) h = h

  -- A round with nobody to match tells nothing.
  round-AreRefusals :
      (clock : ℕ → Float) (s : Server Float) → Calm s → AreRefusals (matchmake_round fl u clock s).1
  round-AreRefusals clock s ((_, empty), h) =
      let same =
        ap (λ md. (matchmake_round fl u clock (record s { match_data = md })).1.responses) empty
        ∙ ap (λ o. o.1.responses) (round-quiet fl u clock s s.match_data) in
      rw same h

  serve-AreRefusals :
      (log_time : Float) (clock : ℕ → Float) (s : Server Float)
      → Calm s
      → AreRefusals (serve fl u log_time clock s).1
  unfolding serve
  serve-AreRefusals log_time clock s calm =
      if-elim (λ (o : Result (Unit {0}) × Server Float). AreRefusals o.1)
        (not (less s.matchmake_wait_ctr (of_nat matchmake_round_time)))
        (round-AreRefusals clock s calm)
        (if-elim (λ (o : Result (Unit {0}) × Server Float). AreRefusals o.1)
          (ltb 0 (length s.incoming))
          (told (query_respond fl u log_time (clock 0) s)
            ((query_respond-Refuses log_time (clock 0)).leads s calm))
          calm.1)

  abbrev Refused : Program Float → Type 0
  Refused p = IsQuiet fl u p × IsSending fl double p.register × AreRefusals p.server

  Turn-told :
      {p q : Program Float}
      → Turn fl u p q
      → Refused p
      → IsSending fl double q.register × AreRefusals q.server
  unfolding receive register_round match_receive matchmake_and_respond
  Turn-told (reg_inc windows r p) (_, mine, others) = (mine, others)
  Turn-told (reg_t log_time time p) (_, mine, others) =
      (kept (register_next-Keeps fl double log_time time) p.register mine, others)
  Turn-told (match_inc windows r p) (_, mine, others) = (mine, others)
  Turn-told (reg_in time p) ((_, (pipe, _)), mine, others) =
      (mine, rw (intake_waits fl u time p.server pipe) others)
  Turn-told (matchmake_t new_time log_time clock p) ((_, unused), mine, others) = (
    mine,
    serve-AreRefusals log_time clock
        (record (p.server) {
          prev_time = new_time;
          matchmake_wait_ctr = plus p.server.matchmake_wait_ctr (minus new_time p.server.prev_time);
        })
        (unused, others),
  )

  Turns-Refused : {p q : Program Float} → Turns fl u p q → Refused p → Refused q
  Turns-Refused (done p) h = h
  Turns-Refused (after turn turns) h =
      let (mine, others) = Turn-told turn h in
      Turns-Refused turns (Turn-IsQuiet fl u turn h.0, mine, others)

  -- However the program runs from its start, every datagram that registration has sent and every
  -- response that matchmaking has put up can be read, and says an error.
  pub told-IsRefusal :
      (rate : Float) (objects : Store) (prev_time : Float) (p : Program Float)
      → Turns fl u (main_proc fl rate objects prev_time) p
      → All (λ (bytes, a). IsRefusal fl bytes) p.register.sent
        × All (λ (bytes, a). IsRefusal fl bytes) p.server.responses.items
  unfolding main_proc start_register start_server init
  told-IsRefusal rate objects prev_time p turns =
      let (_, (_, mine), others) = Turns-Refused turns ((refl, (refl, refl)), (refl, tt), tt) in
      (mine, others)
