-- ===== src/Matching/Drop/Sessions.antt =====
-- The loop of `drop` over the sessions.
use meet_your_match.Prelude.{
  ℕ, suc, ◌+◌, ◌≤◌, ◌≡◌, ◌≢◌, refl, true, false, none, some, List, [], ◌∷◌, arith, length, All,
  All-get_elem?, index_where, index_where-IsFirst, Option-cases, Bool-cases, inl, inr,
}
use meet_your_match.Python.{Result, ok, raised, key_error, Address, same_address, same_address_iff}
use meet_your_match.Matching.{
  Ref, Session, Store, has_address, is_in, requeue, drop_client, drop_sessions, find_in_sessions,
}
use meet_your_match.Matching.Drop.Count.{
  tick, occurrences, in_session, in_sessions, occurrences-append, occurrences-remove_first,
  occurrences-absent, requeue-le, requeue-append,
}

unfoldable pub client_total : List Session → ℕ
client_total [] = 0
client_total (s ∷ ss) = length s.clients + client_total ss

-- The set of a session holds the address of each of its clients.
abbrev pub IsListed : Store → Session → Type 0
IsListed objects s = All (λ r. is_in (objects r).address s.addresses ≡ true) s.clients

-- The set of a session holds the address of its host alone.
abbrev pub IsHostOnly : Store → Session → Type 0
IsHostOnly objects s = s.addresses ≡ (objects s.host).address ∷ []

module _ (objects : Store) (n : ℕ) (a : Address) where
  -- One round of the loop, as a rule.
  round_ind {ℓ} :
      (P : Result (Unit {0}) × List Session × List Ref → Type ℓ) (s : Session) (ss : List Session)
      (unmatched : List Ref)
      → (has_address objects a s.host ≡ true → P (ok tt, ss, requeue n s.clients unmatched))
      → ((j : ℕ)
          → has_address objects a s.host ≡ false
          → index_where (has_address objects a) s.clients ≡ some j
          → P (drop_client a j s ss unmatched))
      → (has_address objects a s.host ≡ false
          → index_where (has_address objects a) s.clients ≡ none
          → let rest = drop_sessions objects n a ss unmatched in P (rest.0, s ∷ rest.1, rest.2))
      → P (drop_sessions objects n a (s ∷ ss) unmatched)
  unfolding drop_sessions
  round_ind P s ss unmatched host client other = elim (Bool-cases (has_address objects a s.host)) [
    | inl y ↦ rw y (host y)
    | inr no_host ↦ elim (Option-cases (index_where (has_address objects a) s.clients)) [
      | inl miss ↦ rw (no_host, miss) (other no_host miss)
      | inr (j, at) ↦ rw (no_host, at) (client j no_host at)
    ]
  ]

  drop_sessions-nil :
      (unmatched : List Ref) → drop_sessions objects n a [] unmatched ≡ (ok tt, [], unmatched)
  unfolding drop_sessions
  drop_sessions-nil unmatched = refl

  abbrev count_after : Address → Result (Unit {0}) × List Session × List Ref → ℕ
  count_after b out = in_sessions objects b out.1 + occurrences objects b out.2

  client_count :
      (b : Address) (j : ℕ) (s : Session) (ss : List Session) (unmatched : List Ref)
      → index_where (has_address objects a) s.clients ≡ some j
      → count_after b (drop_client a j s ss unmatched) + tick (same_address a b)
        ≡ in_sessions objects b (s ∷ ss) + occurrences objects b unmatched
  unfolding drop_client in_sessions in_session
  client_count b j s ss unmatched at =
      ground (arith, occurrences-remove_first objects a b s.clients j at)

  pub drops_one :
      (ss : List Session) (unmatched : List Ref)
      → in_sessions objects a ss ≤ 1
      → occurrences objects a unmatched ≡ 0
      → count_after a (drop_sessions objects n a ss unmatched) ≡ 0
  unfolding in_sessions in_session
  drops_one [] unmatched few gone = rw (drop_sessions-nil unmatched) (omega arith)
  drops_one (s ∷ ss) unmatched few gone =
      round_ind (λ out. count_after a out ≡ 0) s ss unmatched
        (λ y. ground (arith, requeue-le objects a n s.clients unmatched))
        (λ j _ at. ground (arith, client_count a j s ss unmatched at, same_address_iff a a))
        (λ other miss.
          ground (arith, occurrences-absent objects a s.clients miss, drops_one ss unmatched))

  pub keeps_rest :
      (b : Address) (ss : List Session) (unmatched : List Ref)
      → a ≢ b
      → length unmatched + client_total ss ≤ n
      → count_after b (drop_sessions objects n a ss unmatched)
        ≡ in_sessions objects b ss + occurrences objects b unmatched
  unfolding in_sessions in_session client_total
  keeps_rest b [] unmatched ne room = rw (drop_sessions-nil unmatched) refl
  keeps_rest b (s ∷ ss) unmatched ne room =
      round_ind
        (λ out.
          count_after b out ≡ in_sessions objects b (s ∷ ss) + occurrences objects b unmatched)
        s ss unmatched
        (λ y. rw (requeue-append objects n s.clients unmatched (omega arith)) (
          ground (
            arith,
            occurrences-append objects b unmatched s.clients,
            same_address_iff (objects s.host).address a,
            same_address_iff (objects s.host).address b,
          )))
        (λ j _ at. ground (arith, client_count b j s ss unmatched at, same_address_iff a b))
        (λ _ _. ground (arith, keeps_rest b ss unmatched ne))

  IsListed-at :
      (s : Session) (j : ℕ)
      → IsListed objects s
      → index_where (has_address objects a) s.clients ≡ some j
      → is_in a s.addresses ≡ true
  IsListed-at s j listed at =
      let (r, g, same, _) = index_where-IsFirst (has_address objects a) s.clients j at in
      rw (← (same_address_iff (objects r).address a).0 same)
        (All-get_elem? (λ r. is_in (objects r).address s.addresses ≡ true) s.clients j r listed g)

  pub ends_ok :
      (ss : List Session) (unmatched : List Ref)
      → All (IsListed objects) ss
      → (drop_sessions objects n a ss unmatched).0 ≡ ok tt
  unfolding drop_client
  ends_ok [] unmatched listed = rw (drop_sessions-nil unmatched) refl
  ends_ok (s ∷ ss) unmatched listed =
      round_ind (λ out. out.0 ≡ ok tt) s ss unmatched (λ _. refl)
        (λ j _ at. rw (IsListed-at s j listed.0 at, drop_client) refl)
        (λ _ _. ends_ok ss unmatched listed.1)

  not_listed_at :
      (s : Session)
      → IsHostOnly objects s
      → has_address objects a s.host ≡ false
      → is_in a s.addresses ≡ false
  not_listed_at s only other = rw only (
      ground (
        arith,
        same_address_iff a (objects s.host).address,
        same_address_iff (objects s.host).address a,
      ))

  pub ends_key_error :
      (m i j : ℕ) (ss : List Session) (unmatched : List Ref)
      → All (IsHostOnly objects) ss
      → index_where (λ s. has_address objects a s.host) ss ≡ none
      → find_in_sessions objects a m ss ≡ some (i, j)
      → (drop_sessions objects n a ss unmatched).0 ≡ raised key_error
  unfolding find_in_sessions drop_client
  ends_key_error m i j [] unmatched only no_host found = cc
  ends_key_error m i j (s ∷ ss) unmatched only no_host found =
      round_ind (λ out. out.0 ≡ raised key_error) s ss unmatched (λ y. absurd (ground arith))
        (λ k other at. rw (not_listed_at s only.0 other, drop_client) refl)
        (λ _ miss. ends_key_error (suc m) i j ss unmatched only.1 (ground arith) (ground arith))
