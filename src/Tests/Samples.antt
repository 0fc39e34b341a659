-- ===== src/Tests/Samples.antt =====
-- Data for the examples: clocks in whole seconds, addresses, packets, logs and matching data.
use meet_your_match.Prelude.{
  none, if◌then◌else◌, ◌||◌, ◌==◌, ℕ, ◌+◌, ◌-◌, Bool, true, false, not, ◌&&◌, some, List, [], ◌∷◌,
  ltb, replicate, ◌≡◌, ◌≢◌, ◌<◌, refl, ap, length, drop, arith,
}
use meet_your_match.Prelude.Int.{pos}
use meet_your_match.Python.{Floats, Address}
use meet_your_match.Struct.{Bytes, to_bytes, from_bytes}
use meet_your_match.Text.{Unicode}
use meet_your_match.Packet.{new_packet}
use meet_your_match.Packet.RoundTrip.{IsDouble}
use meet_your_match.ConnectionLog.{ConnectionLog}
use meet_your_match.Member.{Client, Member}
use meet_your_match.Matching.{Session, MatchingData}
use meet_your_match.LockedList.{new_list}
use meet_your_match.Matchmaker.{Server}
use meet_your_match.Registration.{Register}
use meet_your_match.Constants.{cl_status_register}

-- whole seconds
abbrev pub seconds : Floats
seconds = record {
  Float = ℕ;
  of_nat = λ n. n;
  plus = λ a b. a + b;
  minus = λ a b. a - b;
  less = ltb;
  encode = to_bytes 8;
  decode = from_bytes;
}

-- the format `d` of 0.0 and of 1.0
abbrev bit_bytes : Bool → Bytes
bit_bytes false = replicate 8 0
bit_bytes true = 0 ∷ 0 ∷ 0 ∷ 0 ∷ 0 ∷ 0 ∷ 0xf0 ∷ 0x3f ∷ []

abbrev bit_of : Bytes → Bool
bit_of (a ∷ b ∷ c ∷ d ∷ e ∷ f ∷ g ∷ h ∷ []) = h == 0x3f
bit_of _ = false

-- a clock that shows 0.0 or 1.0
abbrev pub bits : Floats
bits = record {
  Float = Bool;
  of_nat = λ n. not (n == 0);
  plus = λ a b. not (not a && not b);
  minus = λ a b. a && not b;
  less = λ a b. not a && b;
  encode = bit_bytes;
  decode = bit_of;
}

bit_length : (b : Bool) → length (bit_bytes b) ≡ 8
bit_length false = refl
bit_length true = refl

bit_back : (b : Bool) → bit_of (bit_bytes b) ≡ b
bit_back false = refl
bit_back true = refl

pub bits-IsDouble : IsDouble bits
bits-IsDouble = record { length-encode = bit_length; decode-encode = bit_back }

-- no digits or white space beyond ASCII
abbrev pub ascii : Unicode
ascii = record { digit = λ _. none; is_space = λ _. false }

-- 10.0.0.d, at port 7777
abbrev pub at : ℕ → Address
at d = record { ip = b'1' ∷ b'0' ∷ b'.' ∷ b'0' ∷ b'.' ∷ b'0' ∷ b'.' ∷ (b'0' + d) ∷ []; port = 7777 }

-- the eighth character of the ip
abbrev host_part : Address → ℕ
host_part a = elim (drop 7 a.ip) [ [] ↦ 0 | c ∷ _ ↦ c ]

pub at-apart : (c d : ℕ) → c < d → at c ≢ at d
at-apart c d h e = omega (arith, ap host_part e)

abbrev pub client_at : ℕ → Client
client_at d = record {
  name = b'A' ∷ b'd' ∷ b'a' ∷ [];
  status = cl_status_register;
  address = at d;
  match_size = 2;
  local_address = some (at d);
}

-- 1 and 5 are hosts, and the others clients
abbrev pub member_at : ℕ → Member
member_at d = record {
  client = client_at d;
  dict = if d == 1 || d == 5 then some (record { alive_ctr = pos 20; in_match = false }) else none;
}

-- host 1 with client 2; client 3 is unmatched
abbrev pub one_session : Session
one_session = record {
  host = 1;
  clients = 2 ∷ [];
  client_max = pos 1;
  addresses = at 1 ∷ [];
  locked = false;
}

abbrev pub lobby : MatchingData
lobby = record {
  address_to_record = (at 1, 1) ∷ (at 2, 2) ∷ (at 3, 3) ∷ [];
  sessions = one_session ∷ [];
  unmatched_clients = 3 ∷ [];
  locked = false;
  max_user_ct = 60;
  objects = member_at;
  next_ref = 4;
}

-- host 1 waits, and so does client 3
abbrev pub waiting_host : Session
waiting_host = record {
  host = 1;
  clients = [];
  client_max = pos 1;
  addresses = at 1 ∷ [];
  locked = false;
}

abbrev pub waiting_room : MatchingData
waiting_room = record {
  address_to_record = (at 1, 1) ∷ (at 3, 3) ∷ [];
  sessions = waiting_host ∷ [];
  unmatched_clients = 3 ∷ [];
  locked = false;
  max_user_ct = 60;
  objects = member_at;
  next_ref = 4;
}

-- a host that takes no clients, and stands alone
abbrev pub alone : ℕ → Session
alone d = record {
  host = d;
  clients = [];
  client_max = pos 0;
  addresses = at d ∷ [];
  locked = false;
}

-- the hosts 1 and 5, and nobody else
abbrev pub host_room : MatchingData
host_room = record {
  address_to_record = (at 1, 1) ∷ (at 5, 5) ∷ [];
  sessions = alone 1 ∷ alone 5 ∷ [];
  unmatched_clients = [];
  locked = false;
  max_user_ct = 60;
  objects = member_at;
  next_ref = 6;
}

-- One client is known, with two strikes; there is room for one more.
abbrev pub small_log : ConnectionLog ℕ
small_log = record {
  ip_log = (at 1, record { time = 10; strikes = 2 }) ∷ [];
  turnover_time = 900;
  max_poll_rate = 5;
  ban_list = [];
  max_ips = 2;
}

-- the same, with room for nobody
abbrev pub full_log : ConnectionLog ℕ
full_log = record {
  ip_log = (at 1, record { time = 10; strikes = 2 }) ∷ [];
  turnover_time = 900;
  max_poll_rate = 5;
  ban_list = [];
  max_ips = 1;
}

abbrev pub new_log : {F : Type 0} → F → ConnectionLog F
new_log t = record { ip_log = []; turnover_time = t; max_poll_rate = t; ban_list = []; max_ips = 8 }

-- the matchmaking process, with a client in the pipe
abbrev pub server : Server ℕ
server = record {
  in_pipe = client_at 4 ∷ [];
  incoming = [];
  connect_log = new_log 1;
  match_data = lobby;
  responses = new_list;
  prev_time = 0;
  matchmake_wait_ctr = 0;
}

-- the registration process, with these datagrams to come
abbrev pub registry : (fl : Floats) → List (Bytes × Address) → fl.Float → Register fl.Float
registry fl incoming t = record {
  incoming = incoming;
  connect_log = new_log t;
  match_pipe = [];
  sent = [];
  return_pdata = new_packet fl;
}
