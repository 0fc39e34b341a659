-- ===== src/Printing.antt =====
-- What the server prints (common.py, the `__str__` methods and `str_line_count`, and match.py,
-- `print_matchmaking`).
pub mod Lines
use meet_your_match.Prelude.{ℕ, ◌+◌, ◌-◌, Bool, List, [], ◌∷◌, ◌++◌, map, length, if◌then◌else◌}
use meet_your_match.Python.{Text, pure, gets, ◌>>=◌, ◌>>◌}
use meet_your_match.Text.{codes}
use meet_your_match.Text.Numerals.{str_nat, str_int, hex4}
use meet_your_match.Member.{Client}
use meet_your_match.Matching.{Ref, Store, Session, MatchingData, Action, acquire_lock, release_lock}

-- `'\n'.join(texts)`
unfoldable pub join_lines : List Text → Text
join_lines [] = []
join_lines (s ∷ []) = s
join_lines (s ∷ t ∷ ts) = s ++ (codes "\n" ++ join_lines (t ∷ ts))

-- `Client.__str__`
unfoldable pub str_client : Client → Text
str_client c =
    c.address.ip
    ++ (codes ":"
        ++ (str_nat c.address.port ++ (codes " | " ++ (c.name ++ (codes " | " ++ hex4 c.status)))))

-- the client or host behind a reference
abbrev pub str_ref : Store → Ref → Text
str_ref objects r = str_client (objects r).client

-- `Session.__str__`
unfoldable pub str_session : Store → Session → Text
unfolding str_client join_lines
str_session objects session =
    codes "=============|Session|=============\n"
    ++ (codes "client ct = "
        ++ (str_nat (length session.clients)
            ++ (codes " | client max = "
                ++ (str_int session.client_max
                    ++ (codes "\n= Host =\n"
                        ++ (str_ref objects session.host
                            ++ (codes "\n= Clients =\n"
                                ++ (join_lines (map (str_ref objects) session.clients)
                                    ++ codes "\n"))))))))

-- `Session.str_line_count`
unfoldable pub str_line_count : Session → ℕ
str_line_count session = 6 + length session.clients - 1

-- `LockedMatchingData.__str__`
unfoldable pub str_matching : Action Text
unfolding str_client str_session join_lines
str_matching = do
  acquire_lock
  clients ← gets (λ md. join_lines (map (str_ref md.objects) md.unmatched_clients))
  sessions ← gets (λ md. join_lines (map (str_session md.objects) md.sessions))
  release_lock
  pure (
      codes "--------------------------\nGrouping Data:\n--------------------------\n"
      ++ (codes "= Clients =\n\n" ++ (clients ++ (codes "\n\n= Sessions =\n\n" ++ sessions))))

-- `print_matchmaking`: the texts that are printed, one by one. (The screen is cleared before.)
unfoldable pub print_matchmaking : Store → List Ref → List Session → List Text
unfolding str_client str_session
print_matchmaking objects unmatched_clients sessions =
    codes "--\nUnmatched Clients\n--"
    ∷ (map (str_ref objects) unmatched_clients
        ++ (codes "\n--\nSessions\n--" ∷ map (str_session objects) sessions))

-- what a round of `matchmake` prints at its end
unfoldable pub matchmake_prints : Bool → MatchingData → List Text
unfolding print_matchmaking
matchmake_prints verbose md =
    if verbose then print_matchmaking md.objects md.unmatched_clients md.sessions else []
