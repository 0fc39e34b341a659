-- ===== src/Matchmaker.antt =====
-- The matchmaking process (match.py): its threads take turns on one state, and each function below
-- is one round of a thread. `blocked` is a thread that waits.
pub mod Pack
pub mod Answer
pub mod Pairing
pub mod Queries
pub mod Replies
pub mod Sending
pub mod Intake
pub mod Threads
pub mod Rounds
pub mod Running
pub mod Updates
mod State
unfoldable pub use State.*
use Prim.Native.Nat.{bit_and}
use mathlib.Core.Option
use meet_your_match.Prelude.{
  ℕ, zero, suc, ◌+◌, Bool, true, false, not, Option, none, some, List, [], ◌∷◌, ◌++◌, map, ltb, leb,
  length, ◌==◌, if◌then◌else◌,
}
use meet_your_match.Python.{
  Result, ok, raised, blocked, Py, pure, raise, index_error, gets, modify, on_part, ◌>>=◌, ◌>>◌,
  Address, values, Floats,
}
use meet_your_match.Struct.{Bytes}
use meet_your_match.Text.{Unicode}
use meet_your_match.Packet.{PacketData, new_packet, unpackit, packit}
use meet_your_match.ConnectionLog.{ConnectionLog, log_ip}
use meet_your_match.Classes.{Class, attribute}
use meet_your_match.Member.{Client}
use meet_your_match.LockedList
use meet_your_match.LockedList.{LockedList}
use meet_your_match.Matching.{
  Ref, Session, MatchingData, acquire_lock, release_lock, dict_of, record_exists_locked,
  add_unmatched_locked, add_host_locked,
}
use meet_your_match.Registration.{accepts_port}
use meet_your_match.Constants.{
  matchmake_round_time, max_matchmaking_sessions, cl_status_register, sv_error,
  sv_error_users_maxed, sv_error_mm_sessions_maxed, sv_status_group_update,
}
use Pack.{pack_session}
use Answer.{answer}
use Pairing.{expire, pair}

module _ (fl : Floats) (u : Unicode) where
  open fl use {Float, of_nat, plus, minus, less}

  abbrev pub Step : Type 0 → Type 0
  Step A = Py (Server Float) A

  abbrev pub on_data : {A : Type 0} → Py MatchingData A → Step A
  on_data = on_part (λ s. s.match_data) (λ s md. record s { match_data = md })

  -- `responses.append((packed, address))`
  abbrev pub respond_with : Bytes → Address → Step (Unit {0})
  respond_with packed address =
      on_part (λ s. s.responses) (λ s l. record s { responses = l })
        (LockedList.append (packed, address))

  -- A packet with this status, packed and put among the responses.
  unfoldable pub send_status : Float → Address → ℕ → Step (Unit {0})
  send_status time address status = do
    packed ← packit fl (record (new_packet fl) { status = status; time_stamp = time })
    respond_with packed address

  -- `match_data.record_exists(client.address)` and the like: the name is looked up, and then called
  -- as the method of nearly that name would be.
  abbrev called : {A : Type 0} → Py MatchingData (Unit {0}) → Py MatchingData A → Step A
  called found method = on_data (found >> method)

  -- A client that has been added, or not, with the lock held.
  unfoldable pub intake_added : Float → Client → Bool → Step (Unit {0})
  intake_added time client add_success = do
    on_data release_lock
    if add_success then pure tt else send_status time client.address sv_error_users_maxed

  -- The branches of `register_intake` for a client without a record, with the lock held.
  unfoldable pub intake_new : Float → Client → Step (Unit {0})
  unfolding attribute
  intake_new time client =
      if client.status == cl_status_register
      then (do
        add_success ←
            called (attribute Class.locked_matching_data "add_unmatched")
              (add_unmatched_locked client)
        intake_added time client add_success)
      else (do
        session_ct ←
            called (attribute Class.locked_matching_data "session_ct")
              (gets (λ md. length md.sessions))
        if ltb session_ct max_matchmaking_sessions
            then (do
              add_success ←
                  called (attribute Class.locked_matching_data "add_host") (add_host_locked client)
              intake_added time client add_success)
            else (do
              on_data release_lock
              send_status time client.address sv_error_mm_sessions_maxed))

  -- A round of `register_intake`, for the client that came.
  unfoldable pub intake : Float → Client → Step (Unit {0})
  unfolding attribute
  intake time client = do
    on_data acquire_lock
    exists ←
        called (attribute Class.locked_matching_data "record_exists")
          (record_exists_locked client.address)
    if exists then on_data release_lock else intake_new time client

  -- One round of the loop of `register_intake`.
  unfoldable pub register_intake : Float → Step (Unit {0})
  register_intake time = next_client >>= intake time

  -- a poll of the log
  abbrev pub poll : Float → Address → Step ℕ
  poll log_time address =
      on_part (λ s. s.connect_log) (λ s l. record s { connect_log = l })
        (log_ip fl log_time address)

  -- What the matching data say, under the lock.
  unfoldable pub locked_answer : Address → ℕ → Step ℕ
  locked_answer address remote_status = do
    on_data acquire_lock
    status ← on_data (answer remote_status address)
    on_data release_lock
    pure status

  -- The status of the answer: the log's error, or what the matching data say.
  unfoldable pub status_for : ℕ → Address → ℕ → Step ℕ
  status_for error address remote_status =
      if not (bit_and error sv_error == 0) then pure error else locked_answer address remote_status

  -- `query_respond`, for the datagram that was taken from the queue
  unfoldable pub query : Float → Float → Bytes × Address → Step (Unit {0})
  query log_time time (bytes, address) = if not (accepts_port address.port) then pure tt else (do
    pdata ← unpackit fl bytes
    error ← poll log_time address
    status ← status_for error address pdata.status
    send_status time address status)

  unfoldable pub query_respond : Float → Float → Step (Unit {0})
  query_respond log_time time = next_message >>= query log_time time

  -- `o.in_match` is read; what it is has no effect.
  abbrev pub look_in_match : Ref → Step (Unit {0})
  look_in_match r = on_data (dict_of r) >>= λ _. pure tt

  -- `for c in session.clients`: the response, and then the look at `c.in_match`
  unfoldable pub inform_clients : Bytes → List Ref → Step (Unit {0})
  inform_clients packed [] = pure tt
  inform_clients packed (c ∷ cs) = do
    address ← gets (λ s. (s.match_data.objects c).address)
    respond_with packed address
    look_in_match c
    inform_clients packed cs

  -- The group update of one session, at the time `time`, to its host and clients. (Whether all of
  -- them are in the match is looked up, and not used.)
  unfoldable pub inform_session : Float → Session → Step (Unit {0})
  inform_session time session = do
    client_data ← on_data (pack_session u session)
    packed ← packit fl (record (new_packet fl) {
      status = sv_status_group_update;
      time_stamp = time;
      client_data = client_data;
    })
    look_in_match session.host
    address ← gets (λ s. (s.match_data.objects session.host).address)
    respond_with packed address
    inform_clients packed session.clients

  -- The updates of the sessions, from the `i`-th on.
  unfoldable pub inform_sessions : (ℕ → Float) → ℕ → List Session → Step (Unit {0})
  inform_sessions clock i [] = pure tt
  inform_sessions clock i (s ∷ ss) = do inform_session (clock i) s; inform_sessions clock (suc i) ss

  -- `matchmake`, where `clock i` is the reading of the clock for the update of session `i`
  unfoldable pub matchmake : (ℕ → Float) → Step (Unit {0})
  matchmake clock = do
    all_clients ← gets (λ s. values s.match_data.address_to_record)
    on_data (expire all_clients)
    unmatched_copy ← gets (λ s. s.match_data.unmatched_clients)
    on_data (pair 0 unmatched_copy)
    sessions_copy ← gets (λ s. s.match_data.sessions)
    inform_sessions clock 0 sessions_copy

  -- A round that is due: the wait starts again, and `matchmake` has the lock.
  unfoldable pub matchmake_round : (ℕ → Float) → Step (Unit {0})
  matchmake_round clock = do
    modify (λ s. record s { matchmake_wait_ctr = of_nat 0 })
    on_data acquire_lock
    matchmake clock
    on_data release_lock

  -- The branches of a round of `matchmake_and_respond`, once the wait is counted.
  unfoldable pub serve : Float → (ℕ → Float) → Step (Unit {0})
  serve log_time clock s =
      if not (less s.matchmake_wait_ctr (of_nat matchmake_round_time))
      then matchmake_round clock s
      else if ltb 0 (length s.incoming)
      then query_respond log_time (clock 0) s
      else (ok tt, s)

  -- One round of `matchmake_and_respond`.
  unfoldable pub matchmake_and_respond : Float → Float → (ℕ → Float) → Step (Unit {0})
  matchmake_and_respond new_time log_time clock = do
    modify (λ s. record s {
      prev_time = new_time;
      matchmake_wait_ctr = plus s.matchmake_wait_ctr (minus new_time s.prev_time);
    })
    serve log_time clock
