-- ===== src/Matching/Drop/Count.antt =====
-- How often an address stands in the lists of the matching data.
use meet_your_match.Prelude.{
  ℕ, zero, suc, ◌+◌, ◌≤◌, ◌≡◌, ◌≢◌, refl, Bool, none, some, List, [], ◌∷◌, ◌++◌, arith, length,
  remove_at, index_where, Option-cases, sym, ◌∙◌, lt→ltb, length-append, length-remove_at-le, inl,
  inr, if◌then◌else◌,
}
use mathlib.Core.List.{append-nil, append_assoc}
use meet_your_match.Python.{Address, same_address, same_address_iff}
use meet_your_match.Matching.{Ref, Session, Store, has_address, requeue, drop_unmatched}

abbrev pub tick : Bool → ℕ
tick b = if b then 1 else 0

module _ (objects : Store) where
  unfoldable pub occurrences : Address → List Ref → ℕ
  occurrences a [] = 0
  occurrences a (r ∷ rs) = tick (has_address objects a r) + occurrences a rs

  unfoldable pub in_session : Address → Session → ℕ
  in_session a s = tick (has_address objects a s.host) + occurrences a s.clients

  unfoldable pub in_sessions : Address → List Session → ℕ
  in_sessions a [] = 0
  in_sessions a (s ∷ ss) = in_session a s + in_sessions a ss

  pub occurrences-append :
      (a : Address) (rs qs : List Ref)
      → occurrences a (rs ++ qs) ≡ occurrences a rs + occurrences a qs
  unfolding occurrences
  occurrences-append a [] qs = omega arith
  occurrences-append a (r ∷ rs) qs = omega (arith, occurrences-append a rs qs)

  -- Without the first client with address `a`, the address is there once less, any other as often.
  pub occurrences-remove_first :
      (a b : Address) (rs : List Ref) (i : ℕ)
      → index_where (has_address objects a) rs ≡ some i
      → occurrences b (remove_at rs i) + tick (same_address a b) ≡ occurrences b rs
  unfolding occurrences
  occurrences-remove_first a b [] i h = cc
  occurrences-remove_first a b (r ∷ rs) zero h =
      ground (arith, same_address_iff (objects r).address a)
  occurrences-remove_first a b (r ∷ rs) (suc i) h =
      ground (arith, occurrences-remove_first a b rs i)

  pub occurrences-absent :
      (a : Address) (rs : List Ref)
      → index_where (has_address objects a) rs ≡ none
      → occurrences a rs ≡ 0
  unfolding occurrences
  occurrences-absent a [] h = refl
  occurrences-absent a (r ∷ rs) h = ground (arith, occurrences-absent a rs)

  -- The unmatched clients lose one client with the address, if there is one.
  pub occurrences-drop_unmatched :
      (a b : Address) (rs : List Ref)
      → (occurrences b (drop_unmatched objects a rs) ≤ occurrences b rs)
        × (a ≢ b → occurrences b (drop_unmatched objects a rs) ≡ occurrences b rs)
        × (occurrences a rs ≤ 1 → occurrences a (drop_unmatched objects a rs) ≡ 0)
        × (length (drop_unmatched objects a rs) ≤ length rs)
  unfolding drop_unmatched
  occurrences-drop_unmatched a b rs = elim (Option-cases (index_where (has_address objects a) rs)) [
    | inl miss ↦
        rw (miss, drop_unmatched)
          (omega arith, λ _. refl, λ _. occurrences-absent a rs miss, omega arith)
    | inr (i, at) ↦
        rw (at, drop_unmatched)
          (
            omega (arith, occurrences-remove_first a b rs i at),
            λ ne. ground (arith, occurrences-remove_first a b rs i at, same_address_iff a b),
            λ few. ground (arith, occurrences-remove_first a a rs i at, same_address_iff a a),
            length-remove_at-le rs i,
          )
  ]

  pub requeue-le :
      (a : Address) (n : ℕ) (cs unmatched : List Ref)
      → occurrences a (requeue n cs unmatched) ≤ occurrences a unmatched + occurrences a cs
  unfolding requeue occurrences
  requeue-le a n [] unmatched = omega arith
  requeue-le a n (c ∷ cs) unmatched =
      ground
        (arith, requeue-le a n cs (unmatched ++ c ∷ []), occurrences-append a unmatched (c ∷ []))

  -- With room for all, the clients of a dropped host go behind the unmatched ones.
  pub requeue-append :
      (n : ℕ) (cs unmatched : List Ref)
      → length unmatched + length cs ≤ n
      → requeue n cs unmatched ≡ unmatched ++ cs
  unfolding requeue
  requeue-append n [] unmatched h = sym (append-nil unmatched)
  requeue-append n (c ∷ cs) unmatched h = rw (lt→ltb (length unmatched) n (omega arith)) (
      requeue-append n cs (unmatched ++ c ∷ []) (omega (arith, length-append unmatched (c ∷ [])))
      ∙ append_assoc unmatched (c ∷ []) cs)
