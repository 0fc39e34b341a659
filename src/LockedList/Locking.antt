-- ===== src/LockedList/Locking.antt =====
-- When the methods of a locked list give the lock back.
use meet_your_match.Prelude.{
  ℕ, ◌≡◌, refl, Bool, true, false, none, some, List, [], ◌∷◌, ◌++◌, get_elem?, index_where,
  remove_at,
}
use meet_your_match.Python.{ok, raised, index_error, value_error}
use meet_your_match.LockedList.{LockedList, get, append, find, remove}

module _ {A : Type 0} (xs : List A) where
  abbrev free : LockedList A
  free = record { items = xs; locked = false }

  abbrev held : LockedList A
  held = record { items = xs; locked = true }

  -- On a free list `append` puts the item at the end and gives the lock back; `get` returns the
  -- item and gives the lock back, but at an index out of range it raises with the lock held.
  append_and_get :
      (item : A) (i : ℕ)
      → (append item free ≡ (ok tt, record { items = xs ++ item ∷ []; locked = false }))
        × ((x : A) → get_elem? xs i ≡ some x → get i free ≡ (ok x, free))
        × (get_elem? xs i ≡ none → get i free ≡ (raised index_error, held))
  unfolding append get
  append_and_get item i = (refl, λ x e. rw (e, get), λ e. rw (e, get))

  module _ (same : A → A → Bool) where
    -- `find` and `remove` of an item that is not in the list raise a ValueError with the lock held;
    -- of one that is, they find or remove its first place and give the lock back.
    pub find_and_remove :
        (item : A)
        → ((i : ℕ)
            → index_where (same item) xs ≡ some i
            → (find same item free ≡ (ok i, free))
              × (remove same item free
                  ≡ (ok tt, record { items = remove_at xs i; locked = false })))
          × (index_where (same item) xs ≡ none
              → (find same item free ≡ (raised value_error, held))
                × (remove same item free ≡ (raised value_error, held)))
    unfolding find remove
    find_and_remove item =
        (λ i e. (rw (e, find), rw (e, remove)), λ e. (rw (e, find), rw (e, remove)))
