-- ===== src/Matchmaker/State.antt =====
-- What the threads of the matchmaking process share (match.py, `match_clients`).
use meet_your_match.Prelude.{List, [], ◌∷◌}
use meet_your_match.Python.{ok, raised, blocked, Py, index_error, Address}
use meet_your_match.Struct.{Bytes}
use meet_your_match.ConnectionLog.{ConnectionLog}
use meet_your_match.Member.{Client}
use meet_your_match.LockedList.{LockedList}
use meet_your_match.Matching.{MatchingData}

-- The state that the threads share, and the time bookkeeping of `matchmake_and_respond`.
pub record Server (F : Type 0) : Type 0 where
  pub in_pipe : List Client
  pub incoming : List (Bytes × Address)
  pub connect_log : ConnectionLog F
  pub match_data : MatchingData
  pub responses : LockedList (Bytes × Address)
  pub prev_time : F
  pub matchmake_wait_ctr : F

abbrev pub next_client : {F : Type 0} → Py (Server F) Client
next_client s = elim s.in_pipe [
  | [] ↦ (blocked, s)
  | client ∷ rest ↦ (ok client, record s { in_pipe = rest })
]

-- `incoming.popleft()`
abbrev pub next_message : {F : Type 0} → Py (Server F) (Bytes × Address)
next_message s = elim s.incoming [
  | [] ↦ (raised index_error, s)
  | msg ∷ rest ↦ (ok msg, record s { incoming = rest })
]
