-- ===== src/Matching.antt =====
-- `LockedMatchingData` and `Session` (common.py). Clients and hosts are objects that several lists
-- share, so the lists hold references, and the objects stand in a store.
pub mod Find
pub mod Drop
pub mod Items
mod State
unfoldable pub use State.*
use meet_your_match.Prelude.{
  ℕ, zero, suc, ◌+◌, Bool, true, false, Option, none, some, List, [], ◌∷◌, ◌++◌, ltb, length,
  get_elem?, set, remove_at, index_where, any_of, ◌==◌, if◌then◌else◌,
}
use mathlib.Core.Option
use meet_your_match.Prelude.Int.{ℤ, pos, ◌-ℤ◌}
use meet_your_match.Python.{
  Result, ok, raised, blocked, Py, pure, raise, gets, modify, or_raise, ◌>>=◌, ◌>>◌, index_error,
  key_error, attribute_error, Text, Address, same_address, Dict, lookup, contains, insert, erase,
}
use meet_your_match.Classes.{Class, attribute}
use meet_your_match.Member.{Client, Member, Attributes, new_matching_client, new_matching_host}
use meet_your_match.Constants.{matchmaking_alive_time}

-- `len(self.addresses_to_record.keys()) < self.max_user_ct`
has_room : Action Bool
unfolding attribute
has_room = do
  attribute Class.locked_matching_data "addresses_to_record"
  gets (λ md. ltb (length md.address_to_record) md.max_user_ct)

unfoldable pub add_unmatched_locked : Client → Action Bool
unfolding has_room new_matching_client
add_unmatched_locked client = do
  room ← has_room
  if room
      then (do
        matching_client ← new_matching_client client
        r ← alloc matching_client
        modify (λ md. record md {
          unmatched_clients = md.unmatched_clients ++ r ∷ [];
          address_to_record = insert matching_client.address r md.address_to_record;
        })
        pure true)
      else pure false

unfoldable pub add_host_locked : Client → Action Bool
unfolding has_room new_matching_host new_session
add_host_locked client = do
  room ← has_room
  if room
      then (do
        matching_host ← new_matching_host client
        r ← alloc matching_host
        session ← new_session r
        modify (λ md. record md {
          sessions = md.sessions ++ session ∷ [];
          address_to_record = insert matching_host.address r md.address_to_record;
        })
        pure true)
      else pure false

unfoldable pub record_exists_locked : Address → Action Bool
record_exists_locked address = gets (λ md. contains address md.address_to_record)

-- Whether the client or host behind a reference has this address.
abbrev pub has_address : Store → Address → Ref → Bool
has_address objects address r = same_address (objects r).address address

-- The index, or none for -1.
unfoldable pub find_client_unmatched : Address → MatchingData → Option ℕ
find_client_unmatched address md = index_where (has_address md.objects address) md.unmatched_clients

-- the loops of `find_client_matched`, from the session `i` on
unfoldable pub find_in_sessions : Store → Address → ℕ → List Session → Option (ℕ × ℕ)
find_in_sessions objects address i [] = none
find_in_sessions objects address i (s ∷ ss) =
    let rest = find_in_sessions objects address (suc i) ss in
    elim (index_where (has_address objects address) s.clients) [
      | some j ↦ some (i, j)
      | none ↦ rest
    ]

-- The indices of the session and of the client in it, or none for -1, -1.
unfoldable pub find_client_matched : Address → MatchingData → Option (ℕ × ℕ)
unfolding find_in_sessions
find_client_matched address md = find_in_sessions md.objects address 0 md.sessions

unfoldable pub find_host : Address → MatchingData → Option ℕ
find_host address md = index_where (λ s. has_address md.objects address s.host) md.sessions

-- the first loop of `drop`: the first unmatched client with the address is popped
unfoldable pub drop_unmatched : Store → Address → List Ref → List Ref
drop_unmatched objects address rs = elim (index_where (has_address objects address) rs) [
  | some i ↦ remove_at rs i
  | none ↦ rs
]

-- the clients of a dropped host go back to the unmatched ones, while there is room
unfoldable pub requeue : ℕ → List Ref → List Ref → List Ref
requeue max_user_ct [] unmatched = unmatched
requeue max_user_ct (c ∷ cs) unmatched =
    let rest = requeue max_user_ct cs (unmatched ++ c ∷ []) in
    if ltb (length unmatched) max_user_ct then rest else unmatched

-- what the last loop of `drop` leaves: how it ended, the sessions, and the unmatched clients
abbrev pub Dropped : Type 0
Dropped = Result (Unit {0}) × List Session × List Ref

-- `session.addresses.remove(address)`: the set without the address, if it is there
abbrev pub without : Address → List Address → List Address
without a [] = []
without a (b ∷ bs) = if same_address a b then bs else b ∷ without a bs

abbrev pub is_in : Address → List Address → Bool
is_in a = any_of (same_address a)

-- A client that is popped from a session: then its address is removed from the set, or a KeyError
-- is raised.
unfoldable pub drop_client : Address → ℕ → Session → List Session → List Ref → Dropped
drop_client address j s ss unmatched =
    let popped = remove_at s.clients j in
    if is_in address s.addresses
    then (
      ok tt,
      record s { clients = popped; addresses = without address s.addresses } ∷ ss,
      unmatched,
    )
    else (raised key_error, record s { clients = popped } ∷ ss, unmatched)

unfoldable pub drop_sessions : Store → ℕ → Address → List Session → List Ref → Dropped
unfolding requeue drop_client
drop_sessions objects max_user_ct address [] unmatched = (ok tt, [], unmatched)
drop_sessions objects max_user_ct address (s ∷ ss) unmatched =
    let rest = drop_sessions objects max_user_ct address ss unmatched in
    if has_address objects address s.host
    then (ok tt, ss, requeue max_user_ct s.clients unmatched)
    else elim (index_where (has_address objects address) s.clients) [
      | some j ↦ drop_client address j s ss unmatched
      | none ↦ (rest.0, s ∷ rest.1, rest.2)
    ]

unfoldable pub drop : Address → Action (Unit {0})
unfolding drop_unmatched drop_sessions
drop address md =
    let records =
      if contains address md.address_to_record
      then erase address md.address_to_record
      else md.address_to_record in
    let unmatched = drop_unmatched md.objects address md.unmatched_clients in
    let out = drop_sessions md.objects md.max_user_ct address md.sessions unmatched in
    (out.0, record md { address_to_record = records; sessions = out.1; unmatched_clients = out.2 })

-- The `__dict__` of the object behind a reference. `alive_ctr` and `in_match` are read and assigned
-- there, and raise an AttributeError where the object has none.
abbrev pub dict_of : Ref → Action Attributes
dict_of r md = or_raise (md.objects r).dict attribute_error md

abbrev pub assigned : Member → Attributes → Member
assigned m d = record m { dict = some d }

-- an assignment to an attribute of the object behind a reference, which has no slot
abbrev pub write : (Attributes → Attributes) → Ref → Action (Unit {0})
write f r = do
  d ← dict_of r
  modify (λ md. record md { objects = update md.objects r (assigned (md.objects r) (f d)) })

abbrev pub revive : Attributes → Attributes
revive d = record d { alive_ctr = pos matchmaking_alive_time }

abbrev pub enter_match : Attributes → Attributes
enter_match d = record d { in_match = true }

-- `xs[i]`
abbrev pub item : {A : Type 0} → (MatchingData → List A) → ℕ → Action A
item f i md = or_raise (get_elem? (f md) i) index_error md

-- `self.sessions[session_i].clients[client_i]`
abbrev pub session_client : ℕ → ℕ → Action Ref
session_client session_i client_i = do
  s ← item (λ md. md.sessions) session_i
  item (λ md. s.clients) client_i

unfoldable pub reset_alive_ctr_unmatched_client : ℕ → Action (Unit {0})
reset_alive_ctr_unmatched_client index = item (λ md. md.unmatched_clients) index >>= write revive

unfoldable pub reset_alive_ctr_matched_client : ℕ → ℕ → Action (Unit {0})
reset_alive_ctr_matched_client session_i client_i =
    session_client session_i client_i >>= write revive

unfoldable pub reset_alive_ctr_host : ℕ → Action (Unit {0})
reset_alive_ctr_host session_i = item (λ md. md.sessions) session_i >>= λ s. write revive s.host

unfoldable pub set_client_in_match : ℕ → ℕ → Action (Unit {0})
set_client_in_match session_i client_i = session_client session_i client_i >>= write enter_match

unfoldable pub set_host_in_match : ℕ → Action (Unit {0})
set_host_in_match session_i = item (λ md. md.sessions) session_i >>= λ s. write enter_match s.host
