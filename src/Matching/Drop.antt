-- ===== src/Matching/Drop.antt =====
-- Whom `drop` (common.py) takes out of the lists, and whom it leaves.
mod Count
mod Sessions
unfoldable pub use Count.*
use meet_your_match.Prelude.{
  ℕ, ◌+◌, ◌≤◌, ◌≡◌, ◌≢◌, refl, sym, ◌⊎◌, inl, inr, ◌∙◌, ap, Bool, true, false, Option, none, some,
  List, [], ◌∷◌, arith, length, All, if◌then◌else◌, Option-cases, Bool-cases,
}
use meet_your_match.Python.{
  Result, ok, raised, key_error, Address, contains, lookup, erase, HasDistinctKeys,
  lookup-erase_self, lookup-erase_ne, erase_known, erase-HasDistinctKeys,
}
use meet_your_match.Matching.{
  Session, MatchingData, has_address, drop_unmatched, drop_sessions, drop, find_client_matched,
  find_host,
}
unfoldable pub use Sessions.{client_total}
pub use Sessions.{IsListed, IsHostOnly}
use Sessions.{drops_one, keeps_rest, ends_ok, ends_key_error}

-- How often an address stands among the unmatched clients, the hosts and the clients of sessions.
unfoldable pub total : Address → MatchingData → ℕ
total a md = occurrences md.objects a md.unmatched_clients + in_sessions md.objects a md.sessions

record_dropped :
    (a : Address) (md : MatchingData)
    → (drop a md).1.address_to_record ≡ erase a md.address_to_record
unfolding drop
record_dropped a md = erase_known a md.address_to_record

-- An address that stands in the lists at most once, in a dict without double keys, stands nowhere
-- after `drop` of it, whether or not the call raises; and the dict still has no double keys.
pub drop-removes :
    (a : Address) (md : MatchingData)
    → total a md ≤ 1
    → HasDistinctKeys md.address_to_record
    → (total a (drop a md).1 ≡ 0)
      × (lookup a (drop a md).1.address_to_record ≡ none)
      × HasDistinctKeys (drop a md).1.address_to_record
unfolding total
drop-removes a md few distinct = (
  gone,
  rw (record_dropped a md) (lookup-erase_self a md.address_to_record distinct),
  rw (record_dropped a md) (erase-HasDistinctKeys a md.address_to_record distinct),
)
  where
    unmatched : (occurrences md.objects a (drop_unmatched md.objects a md.unmatched_clients) ≡ 0)
    unmatched = (occurrences-drop_unmatched md.objects a a md.unmatched_clients).2 (omega arith)

    gone : total a (drop a md).1 ≡ 0
    gone =
        unfold drop in
        omega (
          arith,
          drops_one md.objects md.max_user_ct a md.sessions
              (drop_unmatched md.objects a md.unmatched_clients) (omega arith) unmatched,
        )

-- `drop` keeps every other address, as long as the unmatched clients and all clients of sessions
-- together are within `max_user_ct`: it stands as often as before among the unmatched clients, the
-- hosts and the clients of sessions together, and in the dict as before.
pub drop-keeps_others :
    (a b : Address) (md : MatchingData)
    → a ≢ b
    → length md.unmatched_clients + client_total md.sessions ≤ md.max_user_ct
    → (total b (drop a md).1 ≡ total b md)
      × (lookup b (drop a md).1.address_to_record ≡ lookup b md.address_to_record)
unfolding total
drop-keeps_others a b md ne room =
    (kept, rw (record_dropped a md) (lookup-erase_ne b a md.address_to_record (λ e. ne (sym e))))
  where
    open (occurrences-drop_unmatched md.objects a b md.unmatched_clients) use {«1» as same}

    kept : total b (drop a md).1 ≡ total b md
    kept =
        unfold drop in
        omega (
          arith,
          same ne,
          keeps_rest md.objects md.max_user_ct a b md.sessions
              (drop_unmatched md.objects a md.unmatched_clients) ne
              (omega (arith, (occurrences-drop_unmatched md.objects a b md.unmatched_clients).3)),
        )

-- If the address set of each session holds its host's address alone, as `Session` makes it, then
-- to drop a client that is in a session, and is no host, raises a KeyError.
pub drop_matched_raises :
    (a : Address) (md : MatchingData) (i j : ℕ)
    → All (IsHostOnly md.objects) md.sessions
    → find_host a md ≡ none
    → find_client_matched a md ≡ some (i, j)
    → (drop a md).0 ≡ raised key_error
unfolding drop find_host find_client_matched
drop_matched_raises a md i j only no_host found =
    ends_key_error md.objects md.max_user_ct a 0 i j md.sessions _ only no_host found
