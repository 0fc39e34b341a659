-- ===== src/Matching/State.antt =====
-- What `LockedMatchingData` and `Session` (common.py) hold: the constructors, and the lock.
use meet_your_match.Prelude.{ℕ, ◌+◌, Bool, true, false, List, [], ◌∷◌, ◌==◌, if◌then◌else◌}
use meet_your_match.Prelude.Int.{ℤ, pos, ◌-ℤ◌}
use meet_your_match.Python.{ok, raised, blocked, Py, runtime_error, Address, Dict}
use meet_your_match.Member.{Member}

abbrev pub Ref : Type 0
Ref = ℕ

-- A session. `addresses` is a set, with no order that matters.
pub record Session : Type 0 where
  pub host : Ref
  pub clients : List Ref
  pub client_max : ℤ
  pub addresses : List Address
  pub locked : Bool

-- `locked` tells whether the lock is held; `objects` is the store.
pub record MatchingData : Type 0 where
  pub address_to_record : Dict Ref
  pub sessions : List Session
  pub unmatched_clients : List Ref
  pub locked : Bool
  pub max_user_ct : ℕ
  pub objects : Ref → Member
  pub next_ref : Ref

abbrev pub Action : Type 0 → Type 0
Action A = Py MatchingData A

abbrev pub Store : Type 0
Store = Ref → Member

abbrev pub update : Store → Ref → Member → Store
update f r m q = if r == q then m else f q

-- `__init__`; no reference points into the store yet
unfoldable pub init : Store → ℕ → MatchingData
init objects max_user_ct = record {
  address_to_record = [];
  sessions = [];
  unmatched_clients = [];
  locked = false;
  max_user_ct = max_user_ct;
  objects = objects;
  next_ref = 0;
}

abbrev pub alloc : Member → Action Ref
alloc m md = (
  ok md.next_ref,
  record md { objects = update md.objects md.next_ref m; next_ref = md.next_ref + 1 },
)

-- `Session(host)`
unfoldable pub new_session : Ref → Action Session
new_session host md = (
  ok (record {
    host = host;
    clients = [];
    client_max = pos (md.objects host).match_size -ℤ pos 1;
    addresses = (md.objects host).address ∷ [];
    locked = false;
  }),
  md,
)

unfoldable pub acquire_lock : Action (Unit {0})
acquire_lock md = if md.locked then (blocked, md) else (ok tt, record md { locked = true })

unfoldable pub release_lock : Action (Unit {0})
release_lock md =
    if md.locked then (ok tt, record md { locked = false }) else (raised runtime_error, md)
