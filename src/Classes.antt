-- ===== src/Classes.antt =====
-- The attributes of the program's classes (common.py), by name: an attribute that a class lacks
-- raises an AttributeError, and so does an assignment that its `__slots__` leave no room for.
use Prim.Native.String.{String}
use text.Mathlib.Text.{◌==◌ as same_string}
use meet_your_match.Prelude.{
  ℕ, Bool, true, false, ◌||◌, List, [], ◌∷◌, ◌++◌, any_of, ◌==◌, if◌then◌else◌,
}
use meet_your_match.Python.{Py, pure, raise, attribute_error, type_error}

pub data Class : Type 0 where
  connection_log client matching_client matching_host locked_matching_data locked_list lock set :
      Class

-- `__slots__` of `Client`
abbrev client_slots : List String
client_slots =
    "name" ∷ "status" ∷ "address" ∷ "match_size" ∷ "host_latencies" ∷ "local_address" ∷ []

-- `__slots__`, with those of the base class
abbrev pub slots : Class → List String
slots Class.client = client_slots
slots Class.matching_client =
    client_slots ++ "host_latencies" ∷ "lat_status" ∷ "lat_ctr" ∷ "connect_ctr" ∷ "session" ∷ []
slots Class.matching_host = client_slots
slots _ = []

-- An object of a class that, or whose base, declares no `__slots__` takes any attribute. A lock and
-- a set are built in, and take none.
abbrev pub has_dict : Class → Bool
has_dict Class.client = false
has_dict Class.matching_client = false
has_dict Class.lock = false
has_dict Class.set = false
has_dict _ = true

abbrev client_methods : List String
client_methods =
    "__init__" ∷ "__repr__" ∷ "__str__" ∷ "set_match_size" ∷ "set_local_ip"
    ∷ "unpack_host_latency_info" ∷ []

-- what `__init__` assigns, and the methods
abbrev pub members : Class → List String
members Class.connection_log =
    "ip_log" ∷ "turnover_time" ∷ "max_poll_rate" ∷ "ban_list" ∷ "max_ips" ∷ "__init__"
    ∷ "get_client" ∷ "log_ip" ∷ "turnover" ∷ "forget_client" ∷ []
members Class.client = client_methods
members Class.matching_client = client_methods
members Class.matching_host = "alive_ctr" ∷ "in_match" ∷ client_methods
members Class.locked_matching_data =
    "address_to_record" ∷ "sessions" ∷ "unmatched_clients" ∷ "lock" ∷ "max_user_ct" ∷ "__init__"
    ∷ "__repr__" ∷ "__str__" ∷ "add_unmatched_locked" ∷ "add_host_locked" ∷ "record_exists_locked"
    ∷ "find_client_unmatched" ∷ "find_client_matched" ∷ "find_host" ∷ "drop"
    ∷ "reset_alive_ctr_unmatched_client" ∷ "reset_alive_ctr_matched_client" ∷ "reset_alive_ctr_host"
    ∷ "set_client_in_match" ∷ "set_host_in_match" ∷ "acquire_lock" ∷ "release_lock" ∷ "pack_session"
    ∷ []
members Class.locked_list =
    "list" ∷ "lock" ∷ "__init__" ∷ "__getitem__" ∷ "__contains__" ∷ "get" ∷ "find" ∷ "append"
    ∷ "remove" ∷ "clear" ∷ "acquire_lock" ∷ "release_lock" ∷ []
members Class.lock = "acquire" ∷ "release" ∷ "locked" ∷ []
members Class.set =
    "add" ∷ "clear" ∷ "copy" ∷ "difference" ∷ "difference_update" ∷ "discard" ∷ "intersection"
    ∷ "intersection_update" ∷ "isdisjoint" ∷ "issubset" ∷ "issuperset" ∷ "pop" ∷ "remove"
    ∷ "symmetric_difference" ∷ "symmetric_difference_update" ∷ "union" ∷ "update" ∷ []

unfoldable pub has_attribute : Class → String → Bool
has_attribute c name = any_of (same_string name) (slots c ++ members c)

-- `x.name`, for an `x` of the class: the lookup that comes before the use of the attribute
unfoldable pub attribute : {S : Type 0} → Class → String → Py S (Unit {0})
unfolding has_attribute
attribute c name = if has_attribute c name then pure tt else raise attribute_error

-- `x.name = …`
unfoldable pub assignable : {S : Type 0} → Class → String → Py S (Unit {0})
assignable c name =
    if has_dict c || any_of (same_string name) (slots c) then pure tt else raise attribute_error

-- A call with `given` arguments behind `self`, of a method that takes `taken`.
unfoldable pub arguments : {S : Type 0} → ℕ → ℕ → Py S (Unit {0})
arguments taken given = if taken == given then pure tt else raise type_error
