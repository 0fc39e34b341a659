-- ===== src/ConnectionLog.antt =====
-- `class ConnectionLog` (common.py): who polled when, how often too fast, and who is banned. The
-- clock's readings are arguments. The laws are in the modules below this one.
pub mod Cases
pub mod Bans
pub mod Rate
pub mod Capacity
pub mod Strikes
pub mod Limiter
use meet_your_match.Prelude.{
  ℕ, suc, ◌+◌, Bool, true, false, Option, none, some, List, [], ◌∷◌, ◌++◌, ltb, leb, length, any_of,
  if◌then◌else◌,
}
use meet_your_match.Python.{
  Result, ok, raised, Py, pure, ◌>>◌, raise, type_error, key_error, attribute_error, Text, Address,
  same_text, same_address, Dict, lookup, contains, insert, erase, Floats,
}
use meet_your_match.Classes.{Class, attribute}
use meet_your_match.Constants.{sv_error_ip_banned, sv_error_fast_poll_rate, sv_error_ip_log_maxed}

-- What a list of Python values may hold here: a text, or an `(ip, port)` tuple.
pub data Value : Type 0 where
  text : Text → Value
  address : Address → Value

-- `==` between such values: a `str` is never equal to a tuple.
unfoldable pub same_value : Value → Value → Bool
unfolding same_text same_address
same_value (Value.text s) (Value.text t) = same_text s t
same_value (Value.text s) (Value.address b) = false
same_value (Value.address a) (Value.text t) = false
same_value (Value.address a) (Value.address b) = same_address a b

-- `[time, strikes]`, an entry of `ip_log`
pub record Entry (F : Type 0) : Type 0 where
  pub time : F
  pub strikes : ℕ

pub record ConnectionLog (F : Type 0) : Type 0 where
  pub ip_log : Dict (Entry F)
  pub turnover_time : F
  pub max_poll_rate : F
  pub ban_list : List Value
  pub max_ips : ℕ

-- `item in ban_list`
unfoldable pub is_listed : Value → List Value → Bool
unfolding same_value
is_listed v = any_of (same_value v)

-- What may stand on the right of a difference: a number, or the list of an entry.
pub data Operand (F : Type 0) : Type 0 where
  number : F → Operand F
  list_of : Entry F → Operand F

module _ (fl : Floats) where
  open fl use {Float, minus, less}

  -- `__init__`
  unfoldable pub init : Float → Float → ℕ → ConnectionLog Float
  init max_poll_rate turnover_time max_ips = record {
    ip_log = [];
    turnover_time = turnover_time;
    max_poll_rate = max_poll_rate;
    ban_list = [];
    max_ips = max_ips;
  }

  -- `get_client`, where `ip_to_client` is what the attribute of this name would hold
  unfoldable pub get_client : {A : Type 0} → Dict A → Address → Py (ConnectionLog Float) (Option A)
  unfolding attribute
  get_client ip_to_client ip_address =
      attribute Class.connection_log "ip_to_client" >> pure (lookup ip_address ip_to_client)

  -- the test `cur_time - prev_time < self.max_poll_rate`
  abbrev pub is_fast : ConnectionLog Float → Float → Float → Bool
  is_fast log cur_time prev_time = less (minus cur_time prev_time) log.max_poll_rate

  -- one more strike; more than three add the ip, without its port, to the ban list
  unfoldable pub strike : Float → Address → Entry Float → ConnectionLog Float → ConnectionLog Float
  strike cur_time ip_address entry log = record log {
    ip_log = insert ip_address (record { time = cur_time; strikes = entry.strikes + 1 }) log.ip_log;
    ban_list =
        if ltb 3 (entry.strikes + 1)
        then log.ban_list ++ Value.text ip_address.ip ∷ []
        else log.ban_list;
  }

  -- a poll that is let through: its time is noted and its strikes are cleared
  unfoldable pub note : Float → Address → ConnectionLog Float → ConnectionLog Float
  note cur_time ip_address log = record log {
    ip_log = insert ip_address (record { time = cur_time; strikes = 0 }) log.ip_log;
  }

  -- `log_ip`, at the time `cur_time`; its argument `remote_status` is not used
  unfoldable pub log_ip : Float → Address → Py (ConnectionLog Float) ℕ
  unfolding is_listed strike note
  log_ip cur_time ip_address log =
      if is_listed (Value.address ip_address) log.ban_list
      then (ok sv_error_ip_banned, log)
      else elim (lookup ip_address log.ip_log) [
        | some entry ↦
            if is_fast log cur_time entry.time
            then (ok sv_error_fast_poll_rate, strike cur_time ip_address entry log)
            else (ok 0, note cur_time ip_address log)
        | none ↦
            if leb log.max_ips (length log.ip_log)
            then (ok sv_error_ip_log_maxed, log)
            else (ok 0, note cur_time ip_address log)
      ]

  -- `cur_time - value`: Python takes a number from a number, but no list.
  unfoldable pub subtract : Float → Operand Float → Py (ConnectionLog Float) Float
  subtract cur_time (Operand.number t) = pure (minus cur_time t)
  subtract cur_time (Operand.list_of entry) = raise type_error

  -- `time() - value`, where `value` is the list `[time, strikes]`
  unfoldable pub age_of : Float → Entry Float → Py (ConnectionLog Float) Float
  unfolding subtract
  age_of cur_time entry = subtract cur_time (Operand.list_of entry)

  -- the first loop of `turnover`, from the `i`-th entry on, for which the clock reads `clock i`
  unfoldable pub stale_ips :
      (ℕ → Float) → ℕ → Dict (Entry Float) → Py (ConnectionLog Float) (List Address)
  unfolding age_of
  stale_ips clock i [] log = (ok [], log)
  stale_ips clock i ((key, entry) ∷ d) log =
      let rest = stale_ips clock (suc i) d log in
      elim (age_of (clock i) entry log).0 [
        | ok age ↦ elim rest.0 [
          | ok ips ↦ (ok (if less log.turnover_time age then key ∷ ips else ips), log)
          | raised e ↦ (raised e, log)
          | Result.blocked ↦ (Result.blocked, log)
        ]
        | raised e ↦ (raised e, log)
        | Result.blocked ↦ (Result.blocked, log)
      ]

  -- the second loop: `del ip_log[ip]`
  unfoldable pub drop_ips : List Address → ConnectionLog Float → ConnectionLog Float
  drop_ips [] log = log
  drop_ips (ip ∷ ips) log = drop_ips ips (record log { ip_log = erase ip log.ip_log })

  unfoldable pub turnover : (ℕ → Float) → Py (ConnectionLog Float) (List Address)
  unfolding stale_ips drop_ips
  turnover clock log = elim (stale_ips clock 0 log.ip_log log).0 [
    | ok ips ↦ (ok ips, drop_ips ips log)
    | raised e ↦ (raised e, log)
    | Result.blocked ↦ (Result.blocked, log)
  ]

  unfoldable pub forget_client : Address → Py (ConnectionLog Float) (Unit {0})
  forget_client ip_address log =
      if contains ip_address log.ip_log
      then (ok tt, record log { ip_log = erase ip_address log.ip_log })
      else (raised key_error, log)
