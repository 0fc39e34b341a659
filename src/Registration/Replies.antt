-- ===== src/Registration/Replies.antt =====
-- What is sent back, and what a client reads in it.
use meet_your_match.Prelude.{
  ℕ, ◌^◌, ◌<◌, ◌≡◌, ◌≢◌, refl, ◌⊎◌, true, List, [], ◌∷◌, ◌++◌, arith, length, ◌==◌, if◌then◌else◌,
}
use meet_your_match.Python.{ok, Address, Floats, Py, modify, >>=-ok}
use meet_your_match.Struct.{Bytes}
use meet_your_match.Packet.{PacketData, unpackit, packit, packet_length}
use meet_your_match.Packet.RoundTrip.{IsDouble, Fits, unpackit-packit}
use meet_your_match.ConnectionLog.{log_ip}
use meet_your_match.ConnectionLog.Rate.{IsVerdict, log_ip-IsVerdict}
use meet_your_match.Constants.{cl_status_register, sv_error_not_registering}
use meet_your_match.Registration.{Register, accepts_port, reply, respond, register_next}
use meet_your_match.Registration.Failure.{taken, handle_passes}

-- The packet can be sent, whatever its status.
abbrev pub IsSendable : {F : Type 0} → PacketData F → Type 0
IsSendable p = (name : Bytes) × Fits (record p { status = 0 }) name

-- One datagram, for this address, was sent; whoever reads it finds this status.
abbrev pub Sends : (fl : Floats) → Address → ℕ → Register fl.Float → Register fl.Float → Type 0
Sends fl a c s s' =
    (bytes : Bytes) × (q : PacketData fl.Float) × (s'.sent ≡ s.sent ++ (bytes, a) ∷ [])
    × (length bytes ≡ packet_length)
    × ((t : Register fl.Float) → unpackit fl bytes t ≡ (ok q, t))
    × (q.status ≡ c)

-- the datagram that a reply appends
abbrev post : {F : Type 0} → Address → Bytes → Py (Register F) (Unit {0})
post a bytes = modify (λ s. record s { sent = s.sent ++ (bytes, a) ∷ [] })

-- Status and time do not matter for the fit, if the status is small.
refit :
    {F : Type 0} {p : PacketData F} {name : Bytes} (c : ℕ) (t : F)
    → c < 2 ^ 32
    → Fits p name
    → Fits (record p { status = c; time_stamp = t }) name
refit c t small fits = record {
  status = small;
  flags = fits.flags;
  name_bytes = fits.name_bytes;
  name_length = fits.name_length;
  data_length = fits.data_length;
}

module _ (fl : Floats) (double : IsDouble fl) where
  open fl use {Float}

  reply-Sends :
      (t : Float) (a : Address) (c : ℕ) (s : Register Float)
      → c < 2 ^ 32
      → IsSendable s.return_pdata
      → ((reply fl t a c s).0 ≡ ok tt)
        × Sends fl a c s (reply fl t a c s).1
        × IsSendable (reply fl t a c s).1.return_pdata
  unfolding reply
  reply-Sends t a c s small (name, fits) =
      let p = record (s.return_pdata) { status = c; time_stamp = t } in
      let (bytes, packed, size, read) = unpackit-packit fl p name double (refit c t small fits) in
      let step = >>=-ok (packit fl p) (λ b. post a b) (packed (record s { return_pdata = p })) in
      rw step (refl, (bytes, _, refl, size, read, refl), (name, refit 0 t (omega arith) fits))

  -- The code that a refusal carries.
  abbrev refusal : ℕ → ℕ
  refusal c = if c == 0 then sv_error_not_registering else c

  refusal-lt : (c : ℕ) → IsVerdict c → refusal c < 2 ^ 32
  refusal-lt c v = ground arith

  respond-refusal :
      (t : Float) (a : Address) (p : PacketData Float) (c : ℕ) (s : Register Float)
      → IsVerdict c
      → (c ≢ 0) ⊎ (p.status ≢ cl_status_register)
      → respond fl t a p c s ≡ reply fl t a (refusal c) s
  unfolding respond
  respond-refusal t a p c s v refused = ground arith

  -- A well-formed packet from an accepted port is answered with exactly one datagram, for its
  -- sender, if the log refuses it or it asks for something else than to register: the datagram
  -- carries the error of the log, or else the error that tells the client that it is not
  -- registering. The thread goes on, and can send again.
  pub refusal_is_sent :
      (log_time time : Float) (s : Register Float) (bytes : Bytes) (a : Address)
      (rest : List (Bytes × Address)) (p : PacketData Float) (c : ℕ)
      → IsSendable s.return_pdata
      → s.incoming ≡ (bytes, a) ∷ rest
      → accepts_port a.port ≡ true
      → unpackit fl bytes (record s { incoming = rest }) ≡ (ok p, record s { incoming = rest })
      → (log_ip fl log_time a s.connect_log).0 ≡ ok c
      → (c ≢ 0) ⊎ (p.status ≢ cl_status_register)
      → ((register_next fl log_time time s).0 ≡ ok tt)
        × Sends fl a (refusal c) s (register_next fl log_time time s).1
        × IsSendable (register_next fl log_time time s).1.return_pdata
  refusal_is_sent log_time time s bytes a rest p c sendable queue port good logged refused =
      let u = record s { incoming = rest } in
      let v = record u { connect_log = (log_ip fl log_time a s.connect_log).1 } in
      let kind = log_ip-IsVerdict fl log_time a s.connect_log c logged in
      rw
        (
          taken fl log_time time s (bytes, a) rest queue,
          handle_passes fl log_time time u bytes a p c port good logged,
          respond-refusal time a p c v kind refused,
        )
        (reply-Sends time a (refusal c) v (refusal-lt c kind) sendable)
