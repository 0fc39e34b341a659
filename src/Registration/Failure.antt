-- ===== src/Registration/Failure.antt =====
-- What ends the registration thread (register.py), and which clients it sends to matchmaking.
use Prim.Native.Nat.{bit_and}
use meet_your_match.Prelude.{
  ℕ, ◌≡◌, refl, ◌∙◌, ap, true, not, List, ◌∷◌, arith, ◌==◌, if◌then◌else◌,
}
use meet_your_match.Python.{
  ok, raised, attribute_error, Address, Floats, pure, ◌>>=◌, Preserves, >>=-Preserves, if-Preserves,
  >>=-ok,
}
use meet_your_match.Member.{Client}
use meet_your_match.Struct.{Bytes}
use meet_your_match.Packet.{PacketData, unpackit, packit}
use meet_your_match.Packet.RoundTrip.{unpackit-state}
use meet_your_match.ConnectionLog.{ConnectionLog, log_ip}
use meet_your_match.Constants.{cl_status_register, sv_error, sv_error_not_registering}
use meet_your_match.Registration.{
  Register, accepts_port, Step, next_message, reply, register, respond, poll, handle, register_next,
}

module _ (fl : Floats) where
  open fl use {Float}

  pub register_lem :
      (t : Float) (a : Address) (p : PacketData Float) (s : Register Float)
      → register fl t a p s ≡ (raised attribute_error, s)
  unfolding register
  register_lem t a p s = refl

  reply-keeps :
      (t : Float) (a : Address) (c : ℕ) (s : Register Float)
      → ((reply fl t a c s).1.match_pipe ≡ s.match_pipe)
        × ((reply fl t a c s).1.connect_log ≡ s.connect_log)
  unfolding reply packit
  reply-keeps t a c s = (ground arith, ground arith)

  -- A property of the pipe and of the log.
  module _ {κ} (P : List Client → ConnectionLog Float → Type κ) where
    abbrev pub On : Register Float → Type κ
    On s = P s.match_pipe s.connect_log

    reply-On : (t : Float) (a : Address) (c : ℕ) → Preserves On (reply fl t a c)
    reply-On t a c s h = let (pipe, log) = reply-keeps t a c s in rw (pipe, log) h

    respond-On :
        (t : Float) (a : Address) (p : PacketData Float) (c : ℕ) → Preserves On (respond fl t a p c)
    unfolding respond
    respond-On t a p c =
        if-Preserves On (not (bit_and c sv_error == 0)) (reply fl t a c)
          (if not (p.status == cl_status_register)
            then reply fl t a sv_error_not_registering
            else register fl t a p)
          (reply-On t a c)
          (if-Preserves On (not (p.status == cl_status_register))
            (reply fl t a sv_error_not_registering) (register fl t a p)
            (reply-On t a sv_error_not_registering) (λ s h. rw (register_lem t a p s) h))

    module _ (polls : (t : Float) (a : Address) → Preserves On (poll fl t a)) where
      handle-On :
          (log_time time : Float) (msg : Bytes × Address)
          → Preserves On (handle fl log_time time msg)
      unfolding handle
      handle-On log_time time (bytes, a) =
          if-Preserves On (not (accepts_port a.port)) (pure tt) (unpackit fl bytes >>= polled)
            (λ s h. h)
            (>>=-Preserves On (unpackit fl bytes) polled (λ s h. rw (unpackit-state fl bytes s) h)
              (λ p.
                >>=-Preserves On (poll fl log_time a) (respond fl time a p) (polls log_time a)
                  (λ c. respond-On time a p c)))
        where
          polled : PacketData Float → Step fl (Unit {0})
          polled p = poll fl log_time a >>= respond fl time a p

      -- What polls of the log keep, a round of the registration loop keeps.
      pub register_next-On : (log_time time : Float) → Preserves On (register_next fl log_time time)
      unfolding register_next
      register_next-On log_time time =
          >>=-Preserves On next_message (handle fl log_time time) (λ t h. ground arith)
            (handle-On log_time time)

  -- Whatever datagrams come, a round of the registration loop sends no client to matchmaking.
  pub register_next-match_pipe :
      (log_time time : Float) (s : Register Float)
      → (register_next fl log_time time s).1.match_pipe ≡ s.match_pipe
  register_next-match_pipe log_time time s =
      register_next-On (λ pipe _. pipe ≡ s.match_pipe) (λ _ _ _ h. h) log_time time s refl

  -- The round that takes a datagram from the queue.
  pub taken :
      (log_time time : Float) (s : Register Float) (msg : Bytes × Address)
      (rest : List (Bytes × Address))
      → s.incoming ≡ msg ∷ rest
      → register_next fl log_time time s
        ≡ handle fl log_time time msg (record s { incoming = rest })
  unfolding register_next
  taken log_time time s msg rest queue = >>=-ok next_message (handle fl log_time time) (rw queue)

  -- A round for a packet that is well-formed, from an accepted port, once the log has returned.
  pub handle_passes :
      (log_time time : Float) (s : Register Float) (bytes : Bytes) (a : Address)
      (p : PacketData Float) (c : ℕ)
      → accepts_port a.port ≡ true
      → unpackit fl bytes s ≡ (ok p, s)
      → (log_ip fl log_time a s.connect_log).0 ≡ ok c
      → handle fl log_time time (bytes, a) s
        ≡ respond fl time a p c (record s { connect_log = (log_ip fl log_time a s.connect_log).1 })
  unfolding handle
  handle_passes log_time time s bytes a p c port good logged = rw port (
      >>=-ok (unpackit fl bytes) (λ q. poll fl log_time a >>= respond fl time a q) good
      ∙ >>=-ok (poll fl log_time a) (λ error. respond fl time a p error)
          (ap (λ r. (r, record s { connect_log = (log_ip fl log_time a s.connect_log).1 })) logged))

  -- A well-formed request to register, from an accepted port, that the log lets through, raises an
  -- AttributeError, with which the registration thread ends; nothing is sent.
  pub registering_raises :
      (log_time time : Float) (s : Register Float) (bytes : Bytes) (a : Address)
      (rest : List (Bytes × Address)) (p : PacketData Float)
      → s.incoming ≡ (bytes, a) ∷ rest
      → accepts_port a.port ≡ true
      → unpackit fl bytes (record s { incoming = rest }) ≡ (ok p, record s { incoming = rest })
      → (log_ip fl log_time a s.connect_log).0 ≡ ok 0
      → p.status ≡ cl_status_register
      → ((register_next fl log_time time s).0 ≡ raised attribute_error)
        × ((register_next fl log_time time s).1.sent ≡ s.sent)
  unfolding respond
  registering_raises log_time time s bytes a rest p queue port good passes asks =
      rw
        (
          taken log_time time s (bytes, a) rest queue,
          handle_passes log_time time (record s { incoming = rest }) bytes a p 0 port good passes,
          respond,
          asks,
          register_lem,
        )
        (refl, refl)
