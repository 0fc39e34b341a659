-- ===== src/Registration.antt =====
-- The registration process (register.py), and what it does of `class Client` (common.py).
pub mod Client
pub mod Replies
pub mod Sending
pub mod Failure
pub mod Latencies
use Prim.Native.Nat.{bit_and}
use meet_your_match.Prelude.{
  ℕ, zero, suc, ◌+◌, Bool, true, false, ◌&&◌, Option, none, some, List, [], ◌∷◌, ◌++◌, not, ltb,
  leb, ◌==◌, if◌then◌else◌,
}
use meet_your_match.Python.{
  Result, ok, raised, blocked, Py, pure, raise, gets, modify, on_part, ◌>>=◌, ◌>>◌, Address, Floats,
}
use meet_your_match.Struct.{Bytes}
use meet_your_match.Packet.{PacketData, new_packet, unpackit, packit}
use meet_your_match.ConnectionLog.{ConnectionLog, log_ip}
use meet_your_match.Classes.{Class, attribute}
use meet_your_match.Member
use meet_your_match.Constants.{
  accept_ports_from, accept_ports_to, cl_status_register, sv_error, sv_error_not_registering,
  sv_error_bad_group_size, sv_status_register_ok,
}
use Client.{new_client, set_match_size}

-- The variables of `register_clients`: what has come in, the log, the clients sent to matchmaking,
-- the datagrams sent back, and the packet that is reused for each.
pub record Register (F : Type 0) : Type 0 where
  pub incoming : List (Bytes × Address)
  pub connect_log : ConnectionLog F
  pub match_pipe : List Member.Client
  pub sent : List (Bytes × Address)
  pub return_pdata : PacketData F

-- `port in ACCEPT_TRAFFIC_PORTS`
abbrev pub accepts_port : ℕ → Bool
accepts_port port = leb accept_ports_from port && ltb port accept_ports_to

-- `incoming.popleft()`, after the wait for a datagram
abbrev pub next_message : {F : Type 0} → Py (Register F) (Bytes × Address)
next_message s = elim s.incoming [
  | [] ↦ (blocked, s)
  | msg ∷ rest ↦ (ok msg, record s { incoming = rest })
]

module _ (fl : Floats) where
  open fl use {Float}

  abbrev pub Step : Type 0 → Type 0
  Step A = Py (Register Float) A

  -- The status and the time are written to `return_pdata`, which is packed and sent.
  unfoldable pub reply : Float → Address → ℕ → Step (Unit {0})
  reply time ip_address status = do
    modify (λ s. record s {
      return_pdata = record (s.return_pdata) { status = status; time_stamp = time };
    })
    return_pdata ← gets (λ s. s.return_pdata)
    bytes ← packit fl return_pdata
    modify (λ s. record s { sent = s.sent ++ (bytes, ip_address) ∷ [] })

  -- From the client on: `set_group_size` is looked up, and called as `set_match_size` would be.
  unfoldable pub register : Float → Address → PacketData Float → Step (Unit {0})
  unfolding attribute
  register time ip_address pdata = do
    let client = new_client pdata ip_address
    attribute Class.client "set_group_size"
    success ← set_match_size pdata
    if not success then reply time ip_address sv_error_bad_group_size else (do
      modify (λ s. record s { match_pipe = s.match_pipe ++ client ∷ [] })
      reply time ip_address sv_status_register_ok)

  -- What a packet is answered with, after the log has returned `error`.
  unfoldable pub respond : Float → Address → PacketData Float → ℕ → Step (Unit {0})
  respond time ip_address pdata error =
      if not (bit_and error sv_error == 0)
      then reply time ip_address error
      else if not (pdata.status == cl_status_register)
      then reply time ip_address sv_error_not_registering
      else register time ip_address pdata

  -- a poll of the log
  abbrev pub poll : Float → Address → Step ℕ
  poll log_time ip_address =
      on_part (λ s. s.connect_log) (λ s l. record s { connect_log = l })
        (log_ip fl log_time ip_address)

  -- A round of the loop, for the datagram that was taken from the queue: the clock is read at
  -- `log_time` for the log, and at `time` for the reply.
  unfoldable pub handle : Float → Float → Bytes × Address → Step (Unit {0})
  handle log_time time (bytes, ip_address) =
      if not (accepts_port ip_address.port) then pure tt else (do
        pdata ← unpackit fl bytes
        error ← poll log_time ip_address
        respond time ip_address pdata error)

  -- One round of the loop of `register_clients`.
  unfoldable pub register_next : Float → Float → Step (Unit {0})
  register_next log_time time = next_message >>= handle log_time time
