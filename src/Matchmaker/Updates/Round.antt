-- ===== src/Matchmaker/Updates/Round.antt =====
-- A whole round of `matchmake` (match.py) with nobody but hosts, and no session open for a client.
use meet_your_match.Prelude.{ℕ, ◌≡◌, refl, sym, ◌∙◌, ap, true, false, none, List, All}
use meet_your_match.Python.{ok, Floats, Address, values, ◌>>◌, >>=-ok}
use meet_your_match.Struct.{Bytes}
use meet_your_match.Text.{Unicode}
use meet_your_match.Matching.{Session, MatchingData, acquire_lock, release_lock}
use meet_your_match.Matchmaker.Pack.{pack_session}
use meet_your_match.Matchmaker.Pairing.{expire, open_session, pair}
use meet_your_match.Matchmaker.Pairing.Sizes.{none_open}
use meet_your_match.Matchmaker.Queries.{acquire_free}
use meet_your_match.Matchmaker.Rounds.{expire-IsHeld}
use meet_your_match.Matchmaker.Updates.{answered, IsAlone, AreUpdates, inform_sessions_lem}
use meet_your_match.Matchmaker.{Server, Step, on_data, inform_sessions, matchmake, matchmake_round}

module _ (fl : Floats) (u : Unicode) (clock : ℕ → fl.Float) where
  open fl use {Float, of_nat}

  finish : Step fl u (Unit {0})
  finish s = inform_sessions fl u clock 0 s.match_data.sessions s

  pairing : Step fl u (Unit {0})
  pairing s = (on_data fl u (pair 0 s.match_data.unmatched_clients) >> finish) s

  release_lem :
      (s : Server Float)
      → s.match_data.locked ≡ true
      → on_data fl u release_lock s
        ≡ (ok tt, record s { match_data = record (s.match_data) { locked = false } })
  unfolding release_lock
  release_lem s held = rw held

  -- A round that is due and finds both locks free, if its first loop returns and leaves no session
  -- open, and every session is that of a host alone, of the class that has attributes, and can be
  -- packed: it returns and gives both locks back, pairs nobody, and puts behind the responses that were
  -- there, for each session in turn, one packet with the session's data, for the host.
  pub matchmake_round_informs :
      (s : Server Float) (md : MatchingData) (data_of : Session → Bytes)
      → s.match_data.locked ≡ false
      → s.responses.locked ≡ false
      → expire (values s.match_data.address_to_record) (record (s.match_data) { locked = true })
        ≡ (ok tt, md)
      → open_session 0 md.sessions ≡ none
      → All (λ x. pack_session u x md ≡ (ok (data_of x), md)) md.sessions
      → All (IsAlone md.objects) md.sessions
      → (sent : List (Bytes × Address)) × (matchmake_round fl u clock s ≡ (
        ok tt,
        record (answered fl u sent s) {
          matchmake_wait_ctr = of_nat 0;
          match_data = record md { locked = false };
        },
      ))
        × AreUpdates fl u md.objects data_of clock 0 md.sessions sent
  unfolding matchmake_round matchmake finish pairing
  matchmake_round_informs s md data_of free quiet expired full packs alone =
      let started = record s { matchmake_wait_ctr = of_nat 0 } in
      let locked = record started { match_data = record (s.match_data) { locked = true } } in
      let ready = record started { match_data = md } in
      let all_clients = values s.match_data.address_to_record in
      let held =
        ap (λ o. o.1.locked) (sym expired)
        ∙ expire-IsHeld all_clients (record (s.match_data) { locked = true }) refl in
      let (sent, informs, are) =
        inform_sessions_lem fl u clock 0 data_of md.sessions ready quiet packs alone in
      (
        sent,
        >>=-ok (on_data fl u acquire_lock) (λ _. matchmake fl u clock >> on_data fl u release_lock)
              (acquire_free fl u started free)
            ∙ >>=-ok (matchmake fl u clock) (λ _. on_data fl u release_lock)
                (>>=-ok (on_data fl u (expire all_clients)) (λ _. pairing) {s = locked} {t = ready}
                    (ap (λ o. (o.0, record started { match_data = o.1 })) expired)
                  ∙ >>=-ok (on_data fl u (pair 0 md.unmatched_clients)) (λ _. finish) {s = ready}
                      {t = ready}
                      (ap (λ o. (o.0, record started { match_data = o.1 }))
                        (none_open md.unmatched_clients md full))
                  ∙ informs)
            ∙ release_lem (answered fl u sent ready) held,
        are,
      )
