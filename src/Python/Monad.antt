-- ===== src/Python/Monad.antt =====
-- A call: it returns, raises, or waits for a lock that is held. The state comes back in each case,
-- since what was written before stays written.
use Prim.Native.Nat.{ℕ}
use mathlib.Core.Bool.{Bool, true, false}
use mathlib.Core.Option.{Option, none, some}

pub data Exception : Type 0 where
  attribute_error key_error index_error type_error value_error struct_error unicode_error :
      Exception
  runtime_error overflow_error assertion_error name_error keyboard_interrupt external_error :
      Exception
  -- `exit(code)`
  system_exit : ℕ → Exception

pub data Result (A : Type 0) : Type 0 where
  ok : A → Result A
  raised : Exception → Result A
  blocked : Result A

abbrev pub Py : Type 0 → Type 0 → Type 0
Py S A = S → Result A × S

module _ {S A : Type 0} where
  abbrev pub pure : A → Py S A
  pure a s = (ok a, s)

  abbrev pub raise : Exception → Py S A
  raise e s = (raised e, s)

  abbrev pub gets : (S → A) → Py S A
  gets f s = (ok (f s), s)

  abbrev pub or_raise : Option A → Exception → Py S A
  or_raise o e s = (elim o [ none ↦ raised e | some a ↦ ok a ], s)

abbrev pub modify : {S : Type 0} → (S → S) → Py S (Unit {0})
modify f s = (ok tt, f s)

infixl 5 ◌>>=◌ ◌>>◌
abbrev pub ◌>>=◌ : {S A B : Type 0} → Py S A → (A → Py S B) → Py S B
◌>>=◌ m f s =
    let (r, s') = m s in
    elim r [ ok a ↦ f a s' | raised e ↦ (raised e, s') | blocked ↦ (blocked, s') ]

abbrev pub ◌>>◌ : {S A B : Type 0} → Py S A → Py S B → Py S B
m >> k = m >>= λ _. k

-- A call on a part of the state.
abbrev pub on_part : {S T A : Type 0} → (S → T) → (S → T → S) → Py T A → Py S A
on_part get put m s = let (r, t) = m (get s) in (r, put s t)

-- `assert b`
abbrev pub assert : {S : Type 0} → Bool → Py S (Unit {0})
assert true s = (ok tt, s)
assert false s = (raised assertion_error, s)

-- `try: m` with `except: handler`, for a body that does not exit.
abbrev pub catching : {S A : Type 0} → Py S A → Py S A → Py S A
catching m handler s =
    let (r, s') = m s in
    elim r [ ok a ↦ (ok a, s') | raised e ↦ handler s' | blocked ↦ (blocked, s') ]
