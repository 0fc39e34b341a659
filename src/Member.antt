-- ===== src/Member.antt =====
-- `Client`, `MatchingClient` and `MatchingHost` (common.py).
use meet_your_match.Prelude.{ℕ, Bool, false, Option, none, some, if◌then◌else◌}
use meet_your_match.Prelude.Int.{ℤ, pos}
use meet_your_match.Python.{Py, pure, or_raise, attribute_error, ◌>>=◌, ◌>>◌, Text, Address}
use meet_your_match.Classes.{Class, has_dict, attribute, assignable, arguments}
use meet_your_match.Constants.{matchmaking_alive_time}

-- `Client`. `local_address` is a slot that `set_local_ip` may leave empty.
pub record Client : Type 0 where
  pub name : Text
  pub status : ℕ
  pub address : Address
  pub match_size : ℕ
  pub local_address : Option Address

-- The attributes that `MatchingHost.__init__` assigns. They have no slot, so they stand in the
-- `__dict__` of the object.
pub record Attributes : Type 0 where
  pub alive_ctr : ℤ
  pub in_match : Bool

-- A matching client or host: the attributes with a slot, and the `__dict__`, which an object of
-- `MatchingHost` has and one of `MatchingClient` has not. (The slots on latency, which nothing reads,
-- are left out.)
pub record Member : Type 0 where
  pub client : Client
  pub open client use *
  pub dict : Option Attributes

-- An object of the class, once `__init__` has returned.
abbrev pub as_member : Class → Client → Member
as_member class c = record {
  client = c;
  dict =
      if has_dict class
      then some (record { alive_ctr = pos matchmaking_alive_time; in_match = false })
      else none;
}

-- `MatchingClient(client)`: the arguments of `super().__init__` are looked up in order; then six
-- are given where `Client.__init__` takes two; then the slots are assigned.
unfoldable pub new_matching_client : {S : Type 0} → Client → Py S Member
unfolding attribute assignable arguments
new_matching_client c = do
  attribute Class.client "client_ct"
  local_address ← or_raise c.local_address attribute_error
  arguments 2 6
  assignable Class.matching_client "host_latencies"
  assignable Class.matching_client "lat_status"
  assignable Class.matching_client "lat_ctr"
  assignable Class.matching_client "alive_ctr"
  assignable Class.matching_client "in_match"
  pure (
      as_member Class.matching_client
        (record c { match_size = 0; local_address = some local_address }))

-- `MatchingHost(client)`
unfoldable pub new_matching_host : {S : Type 0} → Client → Py S Member
unfolding attribute assignable arguments
new_matching_host c = do
  attribute Class.client "client_ct"
  local_address ← or_raise c.local_address attribute_error
  arguments 2 6
  assignable Class.matching_host "alive_ctr"
  assignable Class.matching_host "in_match"
  pure (as_member Class.matching_host (record c { local_address = some local_address }))
