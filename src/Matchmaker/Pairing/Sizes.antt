-- ===== src/Matchmaker/Pairing/Sizes.antt =====
-- What `matchmake` (match.py) does with the unmatched clients.
use meet_your_match.Prelude.{
  ℕ, ◌+◌, ◌≡◌, refl, ap, ◌∙◌, inl, inr, true, Option, none, some, List, [], ◌∷◌, ◌++◌, arith,
  length, get_elem?, set, index_where, index_where-IsFirst, length-append, All-set, All,
  Option-cases,
}
use meet_your_match.Prelude.Int.{pos, ◌≤ℤ◌}
use meet_your_match.Python.{ok, raised, attribute_error, ◌>>◌}
use meet_your_match.Matching.{Ref, Session, MatchingData, Action}
use meet_your_match.Matchmaker.Pairing.{is_open, open_session, update_session, attach, pair}

-- The session with one more client.
abbrev pub joined : Ref → Session → Session
joined client s = record s { clients = s.clients ++ client ∷ [] }

-- A client of the loop, by the open session that is found for it.
place : ℕ → Ref → List Ref → Option ℕ → Action (Unit {0})
place ses_start client rest found = elim found [
  | some ses_i ↦ attach ses_i client >> pair ses_i rest
  | none ↦ pair ses_start rest
]

pub none_open :
    (rs : List Ref) (md : MatchingData)
    → open_session 0 md.sessions ≡ none
    → pair 0 rs md ≡ (ok tt, md)
unfolding pair place
none_open [] md h = refl
none_open (r ∷ rs) md h = ap (λ o. place 0 r rs o md) h ∙ none_open rs md h

-- The loop over the unmatched clients, from the start. If no session is open it returns and changes
-- nothing. If one is, the first client is put into the first open session, and then an
-- AttributeError is raised, since a set has no `append`: the client is still unmatched too, its
-- address is not in the set of the session, and no other client is looked at.
pub pair_lem :
    (client : Ref) (rest : List Ref) (md : MatchingData)
    → (open_session 0 md.sessions ≡ none → pair 0 (client ∷ rest) md ≡ (ok tt, md))
      × ((i : ℕ)
          → open_session 0 md.sessions ≡ some i
          → pair 0 (client ∷ rest) md
            ≡ (raised attribute_error, update_session (joined client) i md))
unfolding pair place attach
pair_lem client rest md =
    (none_open (client ∷ rest) md, λ i found. ap (λ o. place 0 client rest o md) found)

-- The session has no more clients than its maximum.
abbrev pub IsWithin : Session → Type 0
IsWithin s = pos (length s.clients) ≤ℤ s.client_max

open-joined : (client : Ref) (s : Session) → is_open s ≡ true → IsWithin (joined client s)
open-joined client s h =
    let e : length (s.clients ++ client ∷ []) ≡ length s.clients + 1 = length-append s.clients _ in
    ground (arith, e)

first_open :
    (ss : List Session) (i : ℕ)
    → open_session 0 ss ≡ some i
    → (s : Session) × (get_elem? ss i ≡ some s) × (is_open s ≡ true)
unfolding open_session
first_open ss i h = elim (Option-cases (index_where is_open ss)) [
  | inl miss ↦ absurd (ground arith)
  | inr (k, at) ↦
      let e : k ≡ i = ground arith in
      let (s, here, passes, _) = index_where-IsFirst is_open ss k at in rw (← e) (s, here, passes)
]

updated :
    (f : Session → Session) (i : ℕ) (md : MatchingData) (s : Session)
    → get_elem? md.sessions i ≡ some s
    → (update_session f i md).sessions ≡ set md.sessions i (f s)
updated f i md s at = ap (λ o. (write_at o).sessions) at
  where
    write_at : Option Session → MatchingData
    write_at o = elim o [ some t ↦ record md { sessions = set md.sessions i (f t) } | none ↦ md ]

-- No round of matchmaking puts more clients into a session than its maximum, whether the loop over
-- the unmatched clients returns or raises.
pub pair-IsWithin :
    (unmatched : List Ref) (md : MatchingData)
    → All IsWithin md.sessions
    → All IsWithin (pair 0 unmatched md).1.sessions
unfolding pair
pair-IsWithin [] md h = h
pair-IsWithin (r ∷ rs) md h = elim (Option-cases (open_session 0 md.sessions)) [
  | inl miss ↦ rw ((pair_lem r rs md).0 miss) h
  | inr (i, found) ↦
      let (s, at, opens) = first_open md.sessions i found in
      rw ((pair_lem r rs md).1 i found, updated (joined r) i md s at)
        (All-set IsWithin md.sessions i (joined r s) h (open-joined r s opens))
]
