-- ===== src/Registration/Sending.antt =====
-- What `register_clients` (register.py) sends.
use Prim.Native.Nat.{bit_and}
use meet_your_match.Prelude.{
  ℕ, ◌≡◌, [], ◌∷◌, ◌++◌, not, ◌==◌, All, All-snoc, Bool-cases, inl, inr, arith,
}
use meet_your_match.Python.{
  Floats, Address, Keeps, keeps, kept, if-Keeps, >>=-Leads, pure-Leads, modify-Leads,
}
use meet_your_match.Struct.{Bytes}
use meet_your_match.Packet.{PacketData, default_name, unpackit}
use meet_your_match.Packet.RoundTrip.{IsDouble, unpackit-state}
use meet_your_match.Packet.Readable.{IsError, IsRefusal, packing-Keeps}
use meet_your_match.Constants.{sv_error, sv_error_not_registering, cl_status_register}
use meet_your_match.Registration.{
  Register, accepts_port, next_message, reply, register, respond, poll, handle, register_next,
}
use meet_your_match.Registration.Failure.{register_lem}

module _ (fl : Floats) (double : IsDouble fl) where
  open fl use {Float}

  -- Whatever has been sent can be read and says an error; the packet that is reused has the default
  -- name.
  abbrev pub IsSending : Register Float → Type 0
  IsSending s = (s.return_pdata.name ≡ default_name) × All (λ (bytes, a). IsRefusal fl bytes) s.sent

  reply-Keeps :
      (time : Float) (a : Address) (c : ℕ) → IsError c → Keeps IsSending (reply fl time a c)
  unfolding reply
  reply-Keeps time a c wrong = keeps λ s (named, h).
      let p : PacketData Float = record (s.return_pdata) { status = c; time_stamp = time } in
      kept
        (packing-Keeps fl {P = IsSending} p double named λ bytes good.
          modify-Leads (λ s. record s { sent = s.sent ++ (bytes, a) ∷ [] })
            (λ s (n, g). (
              n,
              All-snoc (λ (bytes, a). IsRefusal fl bytes) (bytes, a) s.sent g (c, wrong, good),
            )))
        (record s { return_pdata = p }) (named, h)

  register-Keeps :
      (time : Float) (a : Address) (p : PacketData Float) → Keeps IsSending (register fl time a p)
  register-Keeps time a p = keeps λ s h. rw (register_lem fl time a p s) h

  respond-Keeps :
      (time : Float) (a : Address) (p : PacketData Float) (c : ℕ)
      → Keeps IsSending (respond fl time a p c)
  unfolding respond
  respond-Keeps time a p c = elim (Bool-cases (bit_and c sv_error == 0)) [
    | inl passed ↦ rw passed (
        if-Keeps (not (p.status == cl_status_register))
          (reply-Keeps time a sv_error_not_registering (λ e. omega (arith, e)))
          (register-Keeps time a p))
    | inr wrong ↦ rw wrong (reply-Keeps time a c (ground arith))
  ]

  unpackit-Keeps : (bytes : Bytes) → Keeps IsSending (unpackit fl bytes)
  unpackit-Keeps bytes = keeps λ s h. rw (unpackit-state fl bytes s) h

  poll-Keeps : (log_time : Float) (a : Address) → Keeps IsSending (poll fl log_time a)
  poll-Keeps log_time a = keeps λ s h. h

  handle-Keeps :
      (log_time time : Float) (msg : Bytes × Address)
      → Keeps IsSending (handle fl log_time time msg)
  unfolding handle
  handle-Keeps log_time time (bytes, a) = if-Keeps (not (accepts_port a.port)) (pure-Leads tt) (
      >>=-Leads (unpackit-Keeps bytes)
        λ p. >>=-Leads (poll-Keeps log_time a) λ error. respond-Keeps time a p error)

  next_message-Keeps : Keeps {S = Register Float} IsSending next_message
  next_message-Keeps = keeps λ s h. ground arith

  pub register_next-Keeps :
      (log_time time : Float) → Keeps IsSending (register_next fl log_time time)
  unfolding register_next
  register_next-Keeps log_time time = >>=-Leads next_message-Keeps (handle-Keeps log_time time)
