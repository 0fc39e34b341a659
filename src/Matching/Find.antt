-- ===== src/Matching/Find.antt =====
-- What the searches of the matching data return.
use meet_your_match.Prelude.{
  ℕ, zero, suc, ◌+◌, ◌<◌, ◌≡◌, refl, inl, inr, false, none, some, List, [], ◌∷◌, arith, get_elem?,
  index_where, IsFirst, index_where-none, index_where-IsFirst, Option-cases,
}
use meet_your_match.Python.{Address}
use meet_your_match.Matching.{
  Ref, Session, MatchingData, Store, has_address, find_client_unmatched, find_in_sessions,
  find_client_matched, find_host,
}

-- No client of the list has the address.
abbrev pub HasNone : Store → Address → List Ref → Type 0
HasNone objects a rs = (k : ℕ) (r : Ref) → get_elem? rs k ≡ some r → has_address objects a r ≡ false

-- The first client with the address stands at place `j` of session `i`, and no session before it
-- has one.
abbrev pub IsFirstClient : Store → Address → List Session → ℕ → ℕ → Type 0
IsFirstClient objects a ss i j =
    (s : Session) × (get_elem? ss i ≡ some s)
    × IsFirst (has_address objects a) s.clients j
    × ((k : ℕ) (s' : Session) → k < i → get_elem? ss k ≡ some s' → HasNone objects a s'.clients)

module _ (objects : Store) (a : Address) where
  found :
      (n : ℕ) (ss : List Session) {i j : ℕ}
      → find_in_sessions objects a n ss ≡ some (i, j)
      → (k : ℕ) × (i ≡ n + k) × IsFirstClient objects a ss k j
  unfolding find_in_sessions
  found n [] h = cc
  found n (s ∷ ss) {i} {j} h = elim (Option-cases (index_where (has_address objects a) s.clients)) [
    | inr (j', here) ↦
        let e : (i ≡ n + 0) × (j ≡ j') = ground arith in
        (
          0,
          e.0,
          (
            s,
            refl,
            rw e.1 (index_where-IsFirst (has_address objects a) s.clients j' here),
            λ k s' lt g. absurd (omega arith),
          ),
        )
    | inl miss ↦
        let (k, e, rest) = found (suc n) ss (skip miss h) in
        let (s', at, first, before) = rest in
        (suc k, omega (arith, e), (s', at, first, extend miss k before))
  ]
    where
      skip :
          {i j : ℕ}
          → index_where (has_address objects a) s.clients ≡ none
          → find_in_sessions objects a n (s ∷ ss) ≡ some (i, j)
          → find_in_sessions objects a (suc n) ss ≡ some (i, j)
      skip miss g = ground arith

      extend :
          index_where (has_address objects a) s.clients ≡ none
          → (k : ℕ)
          → ((m : ℕ) (s' : Session)
              → m < k
              → get_elem? ss m ≡ some s'
              → HasNone objects a s'.clients)
          → (m : ℕ) (s' : Session) → m < suc k
          → get_elem? (s ∷ ss) m ≡ some s'
          → HasNone objects a s'.clients
      extend miss k before zero s' lt g =
          let e : s ≡ s' = ground arith in
          rw (← e) (λ m r. index_where-none (has_address objects a) s.clients m r miss)
      extend miss k before (suc m) s' lt g = before m s' (omega arith) g

  not_found :
      (n : ℕ) (ss : List Session)
      → find_in_sessions objects a n ss ≡ none
      → (k : ℕ) (s : Session) → get_elem? ss k ≡ some s
      → HasNone objects a s.clients
  unfolding find_in_sessions
  not_found n [] h k s g = cc
  not_found n (s' ∷ ss) h zero s g =
      let e : s' ≡ s = ground arith in
      rw (← e) (λ m r. index_where-none (has_address objects a) s'.clients m r (ground arith))
  not_found n (s' ∷ ss) h (suc k) s g = not_found (suc n) ss (ground arith) k s g

-- `find_client_unmatched` returns the first index of a client with the address, and -1 only if no
-- unmatched client has it.
pub find_client_unmatched_lem :
    (a : Address) (md : MatchingData)
    → ((i : ℕ)
        → find_client_unmatched a md ≡ some i
        → IsFirst (has_address md.objects a) md.unmatched_clients i)
      × (find_client_unmatched a md ≡ none → HasNone md.objects a md.unmatched_clients)
unfolding find_client_unmatched
find_client_unmatched_lem a md = (
  λ i h. index_where-IsFirst (has_address md.objects a) md.unmatched_clients i h,
  λ h k r. index_where-none (has_address md.objects a) md.unmatched_clients k r h,
)

-- `find_client_matched` returns the first place, by session and then by client, of a client with
-- the address, and -1, -1 only if no session has one.
pub find_client_matched_lem :
    (a : Address) (md : MatchingData)
    → ((i j : ℕ)
        → find_client_matched a md ≡ some (i, j)
        → IsFirstClient md.objects a md.sessions i j)
      × (find_client_matched a md ≡ none
          → (k : ℕ) (s : Session) → get_elem? md.sessions k ≡ some s
          → HasNone md.objects a s.clients)
unfolding find_client_matched
find_client_matched_lem a md = (
  λ i j h.
      let (k, e, first) = found md.objects a 0 md.sessions h in
      let e' : i ≡ k = omega (arith, e) in rw e' first,
  not_found md.objects a 0 md.sessions,
)

-- `find_host` returns the first session whose host has the address, and -1 only if none has.
pub find_host_lem :
    (a : Address) (md : MatchingData)
    → ((i : ℕ)
        → find_host a md ≡ some i
        → IsFirst (λ s. has_address md.objects a s.host) md.sessions i)
      × (find_host a md ≡ none
          → (k : ℕ) (s : Session) → get_elem? md.sessions k ≡ some s
          → has_address md.objects a s.host ≡ false)
unfolding find_host
find_host_lem a md = (
  λ i h. index_where-IsFirst (λ (s : Session). has_address md.objects a s.host) md.sessions i h,
  λ h k s. index_where-none (λ (s : Session). has_address md.objects a s.host) md.sessions k s h,
)
