-- ===== src/Tests/Sessions.antt =====
-- Examples for the matching data and for locked lists.
use meet_your_match.Prelude.{
  ℕ, ◌≡◌, refl, Bool, true, false, none, some, List, [], ◌∷◌, arith, index_where, remove_at, ◌==◌,
}
use meet_your_match.Python.{
  ok, raised, key_error, value_error, lookup, same_address, HasDistinctKeys,
}
use meet_your_match.Matching.{drop, find_client_matched, find_host}
use meet_your_match.Matching.Drop.{
  total, occurrences, in_sessions, in_session, client_total, drop-removes, drop-keeps_others,
  drop_matched_raises,
}
use meet_your_match.LockedList.{LockedList, find, remove}
use meet_your_match.LockedList.Locking.{find_and_remove}
use meet_your_match.Tests.Samples.{at, at-apart, lobby}

drop-removes_example :
    (total (at 2) (drop (at 2) lobby).1 ≡ 0)
    × (lookup (at 2) (drop (at 2) lobby).1.address_to_record ≡ none)
    × HasDistinctKeys (drop (at 2) lobby).1.address_to_record
unfolding total occurrences in_sessions in_session same_address
drop-removes_example = drop-removes (at 2) lobby (omega arith) (refl, (refl, (refl, tt)))

drop-keeps_others_example :
    (total (at 2) (drop (at 1) lobby).1 ≡ total (at 2) lobby)
    × (lookup (at 2) (drop (at 1) lobby).1.address_to_record
        ≡ lookup (at 2) lobby.address_to_record)
unfolding client_total
drop-keeps_others_example =
    drop-keeps_others (at 1) (at 2) lobby (at-apart 1 2 (omega arith)) (omega arith)

drop_matched_raises_example : (drop (at 2) lobby).0 ≡ raised key_error
unfolding find_host find_client_matched same_address
drop_matched_raises_example = drop_matched_raises (at 2) lobby 0 0 (refl, tt) refl refl

abbrev five_six : List ℕ
five_six = 5 ∷ 6 ∷ []

-- a list of two numbers, and the lock
abbrev two : Bool → LockedList ℕ
two locked = record { items = five_six; locked = locked }

find_and_remove_example :
    ((i : ℕ)
      → index_where (◌==◌ 6) five_six ≡ some i
      → (find ◌==◌ 6 (two false) ≡ (ok i, two false))
        × (remove ◌==◌ 6 (two false)
            ≡ (ok tt, record { items = remove_at five_six i; locked = false })))
    × (index_where (◌==◌ 6) five_six ≡ none
        → (find ◌==◌ 6 (two false) ≡ (raised value_error, two true))
          × (remove ◌==◌ 6 (two false) ≡ (raised value_error, two true)))
find_and_remove_example = find_and_remove five_six ◌==◌ 6

-- A dropped host leaves its client unmatched, behind those that were.
drop_host_run : (drop (at 1) lobby).1.unmatched_clients ≡ 3 ∷ 2 ∷ []
unfolding drop same_address
drop_host_run = refl

-- The lookup of a client in a session.
find_run : find_client_matched (at 2) lobby ≡ some (0, 0)
unfolding find_client_matched same_address
find_run = refl
