-- ===== src/Tests/Matchmaking.antt =====
-- Examples for matchmaking.
use meet_your_match.Prelude.{ℕ, ◌≡◌, ◌≢◌, refl, ◌⊎◌, true, false, List, [], ◌∷◌, arith, All}
use meet_your_match.Python.{Address, same_address, ok, raised, blocked, attribute_error, Exception}
use meet_your_match.Matching.{
  Session, Ref, Store, drop, drop_unmatched, drop_sessions, MatchingData, revive, enter_match,
  find_client_unmatched, find_client_matched, find_in_sessions, reset_alive_ctr_matched_client,
}
use meet_your_match.Matching.Find.{HasNone}
use meet_your_match.Constants.{
  cl_status_matching, cl_status_matching_host, cl_status_in_match, cl_status_in_match_host,
  sv_status_matching_ok, sv_status_in_group, sv_status_in_match, sv_error_not_matching,
}
use meet_your_match.Matchmaker.{
  Server, register_intake, matchmake_round, serve, matchmake_and_respond,
}
use meet_your_match.Matchmaker.Answer.{answer, answer_matching}
use meet_your_match.Matchmaker.Answer.Total.{
  Writes, NotFound, NoHost, NoClient, IsUnmatched, IsMatched, IsHost, answer_lem,
}
use meet_your_match.Matchmaker.Pairing.{expire, expire_client, drop_silent, open_session, pair}
use meet_your_match.Matchmaker.Pairing.Sizes.{IsWithin, pair-IsWithin}
use meet_your_match.Matchmaker.Intake.{register_intake_lem}
use meet_your_match.Matchmaker.Rounds.{registered_client_ends_matching}
use meet_your_match.Matchmaker.Threads.{after, done, matchmake_t, intake_ends_matching}
use meet_your_match.Matchmaker.Pairing.Counters.{silent}
use meet_your_match.Matchmaker.Pairing.Silence.{rounds, rounds-silent}
use meet_your_match.Matchmaker.Updates.{answered, AreUpdates}
use meet_your_match.Matchmaker.Updates.Round.{matchmake_round_informs}
use meet_your_match.Matchmaker.Pack.{pack_session, pack_items, pack_item, pack_bytes, pack_byte}
use meet_your_match.Text.{int, split_dots}
use meet_your_match.Utf8.{encode, encode_text}
use meet_your_match.Struct.{Bytes, pack_uint}
use meet_your_match.Tests.Samples.{
  member_at, seconds, ascii, at, client_at, lobby, waiting_room, alone, host_room, server,
}

-- the server after the intake of its client
abbrev stuck : Server ℕ
stuck = (register_intake seconds ascii 25 server).1

intake_ends_matching_example :
    (matchmake_and_respond seconds ascii 30 30 (λ _. 30) stuck).1.match_data
    ≡ record lobby { locked = true }
intake_ends_matching_example =
    intake_ends_matching seconds ascii 25 (client_at 4) [] server
      (matchmake_and_respond seconds ascii 30 30 (λ _. 30) stuck).1 refl refl
      (after (matchmake_t 30 30 (λ _. 30) stuck)
        (done (matchmake_and_respond seconds ascii 30 30 (λ _. 30) stuck).1))

register_intake_lem_example :
    (lobby.locked ≡ false
      → register_intake seconds ascii 25 server ≡ (
        raised attribute_error,
        record server { in_pipe = []; match_data = record lobby { locked = true } },
      ))
    × (lobby.locked ≡ true
        → register_intake seconds ascii 25 server ≡ (blocked, record server { in_pipe = [] }))
register_intake_lem_example = register_intake_lem seconds ascii 25 (client_at 4) [] server refl

answer_lem_example :
    let o = answer cl_status_matching_host (at 1) lobby in
    (cl_status_matching_host ≡ cl_status_matching
      → ((r : Ref) × IsUnmatched (at 1) lobby r × Writes revive sv_status_matching_ok r lobby o)
        ⊎ (HasNone lobby.objects (at 1) lobby.unmatched_clients
            × (((r : Ref) × IsMatched (at 1) lobby r × Writes revive sv_status_in_group r lobby o)
                ⊎ (NoClient (at 1) lobby
                    × (((r : Ref) × IsHost (at 1) lobby r
                          × Writes revive sv_status_matching_ok r lobby o)
                        ⊎ (NoHost (at 1) lobby × NotFound lobby o))))))
    × (cl_status_matching_host ≡ cl_status_matching_host
        → ((r : Ref) × IsHost (at 1) lobby r × Writes revive sv_status_matching_ok r lobby o)
          ⊎ (NoHost (at 1) lobby × NotFound lobby o))
    × (cl_status_matching_host ≡ cl_status_in_match
        → ((r : Ref) × IsMatched (at 1) lobby r × Writes enter_match sv_status_in_match r lobby o)
          ⊎ (NoClient (at 1) lobby × NotFound lobby o))
    × (cl_status_matching_host ≡ cl_status_in_match_host
        → ((r : Ref) × IsHost (at 1) lobby r × Writes enter_match sv_status_in_match r lobby o)
          ⊎ (NoHost (at 1) lobby × NotFound lobby o))
    × (cl_status_matching_host ≢ cl_status_matching
        → cl_status_matching_host ≢ cl_status_matching_host
        → cl_status_matching_host ≢ cl_status_in_match
        → cl_status_matching_host ≢ cl_status_in_match_host
        → o ≡ (ok sv_error_not_matching, lobby))
answer_lem_example = answer_lem cl_status_matching_host (at 1) lobby

-- The client of the session has no room for the counter.
matched_client_run : (answer cl_status_matching (at 2) lobby).0 ≡ raised attribute_error
unfolding answer answer_matching find_client_unmatched find_client_matched find_in_sessions
    reset_alive_ctr_matched_client same_address
matched_client_run = refl

pair-IsWithin_example : All IsWithin (pair 0 (3 ∷ []) waiting_room).1.sessions
pair-IsWithin_example = pair-IsWithin (3 ∷ []) waiting_room (omega arith, tt)

-- the server with a host and a client that wait for each other
abbrev due : Server ℕ
due = record server { match_data = waiting_room }

-- what the first loop leaves: client 3 ends it
abbrev ended : MatchingData
ended = (expire (1 ∷ 3 ∷ []) (record waiting_room { locked = true })).1

registered_client_ends_matching_example :
    ((e : Exception) × ((matchmake_round seconds ascii (λ _. 30) due).0 ≡ raised e))
    × ((matchmake_round seconds ascii (λ _. 30) due).1.responses ≡ due.responses)
    × ((matchmake_round seconds ascii (λ _. 30) due).1.match_data ≡ ended)
    × ((matchmake_round seconds ascii (λ _. 30) due).1.match_data.locked ≡ true)
registered_client_ends_matching_example =
    registered_client_ends_matching seconds ascii (λ _. 30) 1 3 due
      (matchmake_round seconds ascii (λ _. 30) due).1 refl refl refl
      (done (matchmake_round seconds ascii (λ _. 30) due).1)

-- A round that is not due, with nothing to answer, waits for the next.
idle_run : (matchmake_and_respond seconds ascii 2 2 (λ _. 2) due).0 ≡ ok tt
unfolding matchmake_and_respond serve
idle_run = refl

-- Six rounds leave the two hosts two of their twenty seconds; the seventh drops them.
rounds-silent_example :
    (objects : Store) × (rounds 6 host_room ≡ (ok tt, record host_room { objects = objects }))
    × All (λ r. objects r ≡ silent 6 (member_at r)) (1 ∷ 5 ∷ [])
    × ((q : Ref) → All (λ r. q ≢ r) (1 ∷ 5 ∷ []) → objects q ≡ member_at q)
rounds-silent_example =
    rounds-silent 6 (1 ∷ 5 ∷ []) host_room refl (((λ e. omega arith), tt), (tt, tt))
      ((_, refl, omega arith), ((_, refl, omega arith), tt))

silence_run : (rounds 7 host_room).1.address_to_record ≡ []
unfolding rounds expire expire_client drop_silent drop drop_unmatched drop_sessions same_address
silence_run = refl

-- the server with the two hosts
abbrev hosting : Server ℕ
hosting = record server { match_data = host_room }

-- the hosts after a round's first loop, under the lock
abbrev older_hosts : MatchingData
older_hosts = (expire (1 ∷ 5 ∷ []) (record host_room { locked = true })).1

-- the data of a session of theirs
abbrev data_of : Session → Bytes
data_of session = elim (pack_session ascii session older_hosts).0 [ ok bytes ↦ bytes | _ ↦ [] ]

matchmake_round_informs_example :
    (sent : List (Bytes × Address)) × (matchmake_round seconds ascii (λ i. i) hosting ≡ (
      ok tt,
      record (answered seconds ascii sent hosting) {
        matchmake_wait_ctr = 0;
        match_data = record older_hosts { locked = false };
      },
    ))
    × AreUpdates seconds ascii older_hosts.objects data_of (λ i. i) 0 (alone 1 ∷ alone 5 ∷ []) sent
unfolding expire expire_client drop_silent pack_session pack_items pack_item pack_bytes pack_byte
    int split_dots encode encode_text pack_uint open_session
matchmake_round_informs_example =
    matchmake_round_informs seconds ascii (λ i. i) hosting older_hosts data_of refl refl refl refl
      (refl, (refl, tt)) ((_, refl, refl), ((_, refl, refl), tt))
