-- ===== src/Matchmaker/Pairing.antt =====
-- The first two parts of `matchmake` (match.py): clients that have been silent for too long are
-- dropped, and unmatched clients are put into sessions.
pub mod Sizes
pub mod Counters
pub mod Silence
use mathlib.Core.Option
use meet_your_match.Prelude.{
  ℕ, zero, suc, ◌+◌, Bool, Option, none, some, List, [], ◌∷◌, ◌++◌, length, drop, get_elem?, set,
  index_where, remove_at, ◌==◌, if◌then◌else◌,
}
use meet_your_match.Prelude.Int.{ℤ, pos, ◌-ℤ◌, ltb_ℤ, leb_ℤ}
use meet_your_match.Python.{Py, pure, gets, modify, or_raise, ◌>>=◌, ◌>>◌, value_error, Address}
use meet_your_match.Classes.{Class, attribute}
use meet_your_match.Member.{Attributes}
use meet_your_match.Matching as Data
use meet_your_match.Matching.{Ref, Session, MatchingData, Action, dict_of, write}
use meet_your_match.Constants.{matchmake_round_time}

abbrev pub tire : Attributes → Attributes
tire d = record d { alive_ctr = d.alive_ctr -ℤ pos matchmake_round_time }

-- `if client.alive_ctr <= 0: match_data.drop(client.address)`
unfoldable pub drop_silent : Ref → Action (Unit {0})
drop_silent r = do
  d ← dict_of r
  address ← gets (λ md. (md.objects r).address)
  if leb_ℤ d.alive_ctr (pos 0) then Data.drop address else pure tt

-- one client of the first loop
unfoldable pub expire_client : Ref → Action (Unit {0})
expire_client r = do write tire r; drop_silent r

unfoldable pub expire : List Ref → Action (Unit {0})
expire [] = pure tt
expire (r ∷ rs) = do expire_client r; expire rs

-- `len(session.clients) < session.client_max`
abbrev pub is_open : Session → Bool
is_open s = ltb_ℤ (pos (length s.clients)) s.client_max

-- the first open session from `ses_start` on
unfoldable pub open_session : ℕ → List Session → Option ℕ
open_session ses_start ss =
    Option.map (λ k. ses_start + k) (index_where is_open (drop ses_start ss))

-- a write to the session at an index
abbrev pub update_session : (Session → Session) → ℕ → MatchingData → MatchingData
update_session f i md = elim (get_elem? md.sessions i) [
  | some s ↦ record md { sessions = set md.sessions i (f s) }
  | none ↦ md
]

-- `unmatched_clients.remove(client)`, by identity
abbrev pub remove_unmatched : Ref → Action (Unit {0})
remove_unmatched client = do
  i ← (λ md. or_raise (index_where (◌==◌ client) md.unmatched_clients) value_error md)
  modify (λ md. record md { unmatched_clients = remove_at md.unmatched_clients i })

-- The body of the inner loop. `session.addresses` is a set: `append` is looked up in it, and would
-- add the address.
unfoldable pub attach : ℕ → Ref → Action (Unit {0})
unfolding attribute
attach ses_i client = do
  modify (update_session (λ s. record s { clients = s.clients ++ client ∷ [] }) ses_i)
  address ← gets (λ md. (md.objects client).address)
  attribute Class.set "append"
  modify (update_session (λ s. record s { addresses = s.addresses ++ address ∷ [] }) ses_i)
  remove_unmatched client

-- the second loop, over the unmatched clients
unfoldable pub pair : ℕ → List Ref → Action (Unit {0})
pair ses_start [] = pure tt
pair ses_start (client ∷ rest) = do
  found ← gets (λ md. open_session ses_start md.sessions)
  elim found [ some ses_i ↦ attach ses_i client >> pair ses_i rest | none ↦ pair ses_start rest ]
