-- ===== src/Python/Dicts.antt =====
-- A dict keyed by addresses, in insertion order.
use meet_your_match.Prelude.{
  ◌+◌, ◌≡◌, refl, sym, ◌≢◌, Bool, true, false, Option, none, some, List, [], ◌∷◌, map, arith,
  length, if◌then◌else◌,
}
use meet_your_match.Python.Addresses.{
  Address, same_address, same_address_iff, same_address_refl, same_address_ne,
}

abbrev pub Dict {ℓ} : Type ℓ → Type ℓ
Dict V = List (Address × V)

module _ {ℓ} {V : Type ℓ} where
  abbrev pub lookup : Address → Dict V → Option V
  lookup k [] = none
  lookup k ((j, v) ∷ d) = if same_address k j then some v else lookup k d

  -- `k in d`
  abbrev pub contains : Address → Dict V → Bool
  contains k d = elim (lookup k d) [ none ↦ false | some _ ↦ true ]

  -- `d[k] = v`: a known key keeps its place
  abbrev pub insert : Address → V → Dict V → Dict V
  insert k v [] = (k, v) ∷ []
  insert k v ((j, w) ∷ d) = if same_address k j then (j, v) ∷ d else (j, w) ∷ insert k v d

  -- `del d[k]`, for a key that is there
  abbrev pub erase : Address → Dict V → Dict V
  erase k [] = []
  erase k ((j, w) ∷ d) = if same_address k j then d else (j, w) ∷ erase k d

  abbrev pub values : Dict V → List V
  values = map (λ e. e.1)

  -- No key stands twice.
  abbrev pub HasDistinctKeys : Dict V → Type 0
  HasDistinctKeys [] = Unit
  HasDistinctKeys ((k, _) ∷ d) = (contains k d ≡ false) × HasDistinctKeys d

  pub lookup-insert :
      (j k : Address) (v : V) (d : Dict V)
      → lookup j (insert k v d) ≡ (if same_address k j then some v else lookup j d)
  lookup-insert j k v [] = ground (arith, same_address_iff j k, same_address_iff k j)
  lookup-insert j k v ((i, w) ∷ d) = ground (
    arith,
    same_address_iff j k,
    same_address_iff k j,
    same_address_iff k i,
    same_address_iff j i,
    lookup-insert j k v d,
  )

  pub lookup-insert_self : (k : Address) (v : V) (d : Dict V) → lookup k (insert k v d) ≡ some v
  lookup-insert_self k v d = rw (lookup-insert k k v d, same_address_refl k)

  pub lookup-insert_ne :
      (j k : Address) (v : V) (d : Dict V) → j ≢ k → lookup j (insert k v d) ≡ lookup j d
  lookup-insert_ne j k v d h = rw (lookup-insert j k v d, same_address_ne k j (λ e. h (sym e)))

  pub length-insert_new :
      (k : Address) (v : V) (d : Dict V) → lookup k d ≡ none → length (insert k v d) ≡ length d + 1
  length-insert_new k v [] h = refl
  length-insert_new k v ((i, w) ∷ d) h = ground (arith, length-insert_new k v d)

  pub length-insert_known :
      (k : Address) (v w : V) (d : Dict V) → lookup k d ≡ some w → length (insert k v d) ≡ length d
  length-insert_known k v w [] h = cc
  length-insert_known k v w ((i, u) ∷ d) h = ground (arith, length-insert_known k v w d)

  erase_absent : (k : Address) (d : Dict V) → lookup k d ≡ none → erase k d ≡ d
  erase_absent k [] h = refl
  erase_absent k ((i, w) ∷ d) h = ground (arith, erase_absent k d)

  pub erase_known : (k : Address) (d : Dict V) → (if contains k d then erase k d else d) ≡ erase k d
  erase_known k d = ground (arith, erase_absent k d)

  pub lookup-erase_ne : (j k : Address) (d : Dict V) → j ≢ k → lookup j (erase k d) ≡ lookup j d
  lookup-erase_ne j k [] h = refl
  lookup-erase_ne j k ((i, w) ∷ d) h =
      ground (arith, same_address_iff j i, same_address_iff k i, lookup-erase_ne j k d h)

  pub lookup-erase_self :
      (k : Address) (d : Dict V) → HasDistinctKeys d → lookup k (erase k d) ≡ none
  lookup-erase_self k [] h = refl
  lookup-erase_self k ((i, w) ∷ d) h =
      ground (arith, same_address_iff k i, lookup-erase_self k d h.1)

  pub erase-HasDistinctKeys :
      (k : Address) (d : Dict V) → HasDistinctKeys d → HasDistinctKeys (erase k d)
  erase-HasDistinctKeys k [] h = tt
  erase-HasDistinctKeys k ((i, w) ∷ d) h =
      ground (arith, same_address_iff k i, erase-HasDistinctKeys k d h.1, lookup-erase_ne i k d)
