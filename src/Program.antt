-- ===== src/Program.antt =====
-- The whole program (mym.py, `main_proc`, and match.py, `match_clients`): registration and
-- matchmaking, with the pipe between them, whose threads take turns in any order.
pub mod Idle
pub mod Live
pub mod Logs
pub mod Answering
pub mod Refusals
use meet_your_match.Prelude.{ℕ, ◌*◌, List, [], ◌∷◌, ◌++◌, Bool, false}
use meet_your_match.Python.{Address, Floats}
use meet_your_match.Struct.{Bytes}
use meet_your_match.Text.{Unicode}
use meet_your_match.Packet.{new_packet}
use meet_your_match.ConnectionLog
use meet_your_match.Matching
use meet_your_match.Matching.{Store}
use meet_your_match.LockedList.{new_list}
use meet_your_match.Registration.{Register, register_next}
use meet_your_match.Matchmaker.{Server, register_intake, matchmake_and_respond}
use meet_your_match.Matchmaker.Threads.{match_receive}
use meet_your_match.Sockets.{Received, buffer_incoming}
use meet_your_match.Constants.{
  max_registering, max_matchmaking_sessions, max_match_size, ip_turnover_time,
}

pub record Program (F : Type 0) : Type 0 where
  pub register : Register F
  pub server : Server F

abbrev pub max_user_ct : ℕ
max_user_ct = max_matchmaking_sessions * max_match_size

module _ (fl : Floats) where
  open fl use {Float, of_nat}

  -- What `register_clients` starts from; `rate` stands for `MAX_POLL_RATE`.
  unfoldable pub start_register : Float → Register Float
  start_register rate = record {
    incoming = [];
    connect_log = ConnectionLog.init fl rate (of_nat ip_turnover_time) max_registering;
    match_pipe = [];
    sent = [];
    return_pdata = new_packet fl;
  }

  -- What the threads of `match_clients` start from, at the time `prev_time`. There are no objects
  -- yet, so the store is any.
  unfoldable pub start_server : Float → Store → Float → Server Float
  start_server rate objects prev_time = record {
    in_pipe = [];
    incoming = [];
    connect_log = ConnectionLog.init fl rate (of_nat ip_turnover_time) max_user_ct;
    match_data = Matching.init objects max_user_ct;
    responses = new_list;
    prev_time = prev_time;
    matchmake_wait_ctr = of_nat 0;
  }

  unfoldable pub main_proc : Float → Store → Float → Program Float
  unfolding start_register start_server
  main_proc rate objects prev_time = record {
    register = start_register rate;
    server = start_server rate objects prev_time;
  }

  -- a round of `buffer_incoming` for the registration socket
  unfoldable pub receive : Bool → Received → Program Float → Program Float
  unfolding buffer_incoming
  receive windows r p = record p {
    register = record (p.register) { incoming = (buffer_incoming windows r p.register.incoming).1 };
  }

  -- A round of `register_clients`. What it sends into the pipe comes out on the other side.
  unfoldable pub register_round : Float → Float → Program Float → Program Float
  register_round log_time time p =
      let r = (register_next fl log_time time p.register).1 in
      record {
        register = record r { match_pipe = [] };
        server = record (p.server) { in_pipe = p.server.in_pipe ++ r.match_pipe };
      }

  -- One turn of a thread, by the program before it and the one after. A thread that has ended or waits
  -- may take more turns here than it would.
  pub data Turn (u : Unicode) : Program Float → Program Float → Type 0 where
    reg_inc : (windows : Bool) (r : Received) (p : Program Float) → Turn u p (receive windows r p)
    reg_t : (log_time time : Float) (p : Program Float) → Turn u p (register_round log_time time p)
    match_inc :
        (windows : Bool) (r : Received) (p : Program Float)
        → Turn u p (record p { server = (match_receive windows r p.server).1 })
    reg_in :
        (time : Float) (p : Program Float)
        → Turn u p (record p { server = (register_intake fl u time p.server).1 })
    matchmake_t :
        (new_time log_time : Float) (clock : ℕ → Float) (p : Program Float)
        → Turn u p
            (record p { server = (matchmake_and_respond fl u new_time log_time clock p.server).1 })

  pub data Turns (u : Unicode) : Program Float → Program Float → Type 0 where
    done : (p : Program Float) → Turns u p p
    after : {p q r : Program Float} → Turn u p q → Turns u q r → Turns u p r
