-- ===== src/LockedList.antt =====
-- `class LockedList` (common.py): a list with a lock that its methods take and give back, unless
-- they raise in between.
pub mod Locking
use meet_your_match.Prelude.{
  ℕ, suc, Bool, true, false, Option, none, some, List, [], ◌∷◌, ◌++◌, get_elem?, index_where,
  remove_at, any_of, if◌then◌else◌,
}
use meet_your_match.Python.{
  Result, ok, raised, blocked, Py, pure, raise, gets, modify, or_raise, ◌>>=◌, ◌>>◌, index_error,
  value_error, runtime_error,
}
use meet_your_match.Classes.{Class, attribute}

pub record LockedList (A : Type 0) : Type 0 where
  pub items : List A
  pub locked : Bool

abbrev pub Action : Type 0 → Type 0 → Type 0
Action A B = Py (LockedList A) B

module _ {A : Type 0} where
  -- `LockedList()`
  abbrev pub new_list : LockedList A
  new_list = record { items = []; locked = false }

  unfoldable pub acquire_lock : Action A (Unit {0})
  acquire_lock l = if l.locked then (blocked, l) else (ok tt, record l { locked = true })

  unfoldable pub release_lock : Action A (Unit {0})
  release_lock l =
      if l.locked then (ok tt, record l { locked = false }) else (raised runtime_error, l)

  -- `__getitem__`, at an index that is not negative
  unfoldable pub get_item : ℕ → Action A A
  get_item index l = or_raise (get_elem? l.items index) index_error l

  unfoldable pub get : ℕ → Action A A
  unfolding acquire_lock release_lock get_item
  get index = do acquire_lock; item ← get_item index; release_lock; pure item

  unfoldable pub append : A → Action A (Unit {0})
  unfolding acquire_lock release_lock
  append item = do
    acquire_lock
    modify (λ l. record l { items = l.items ++ item ∷ [] })
    release_lock

  -- `self.lock.aqcuire()`, as it is spelled
  unfoldable pub clear : Action A (Unit {0})
  unfolding acquire_lock release_lock attribute
  clear = do
    attribute Class.lock "aqcuire"
    acquire_lock
    modify (λ l. record l { items = [] })
    release_lock

  -- Here `same` is the `==` of the items.
  module _ (same : A → A → Bool) where
    -- `__contains__`
    unfoldable pub contains_item : A → Action A Bool
    unfolding acquire_lock release_lock
    contains_item item = do
      acquire_lock
      contains_item ← gets (λ l. any_of (same item) l.items)
      release_lock
      pure contains_item

    -- `list.index`
    abbrev index : A → Action A ℕ
    index item l = or_raise (index_where (same item) l.items) value_error l

    unfoldable pub find : A → Action A ℕ
    unfolding acquire_lock release_lock
    find item = do acquire_lock; i ← index item; release_lock; pure i

    unfoldable pub remove : A → Action A (Unit {0})
    unfolding acquire_lock release_lock
    remove item = do
      acquire_lock
      i ← index item
      modify (λ l. record l { items = remove_at l.items i })
      release_lock
