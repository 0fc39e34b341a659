-- ===== src/Prelude/Lists.antt =====
-- Lists measured and indexed by native numbers, and the searches that the program's loops make.
use Prim.Native.Nat.{ℕ, zero, suc, ◌+◌, ◌-◌, ◌≤◌, ◌<◌, min}
use mathlib.Core.Path.{◌≡◌, refl, ap}
use mathlib.Core.List.{List, [], ◌∷◌, ◌++◌}
use mathlib.Core.Bool.{Bool, true, false, ◌||◌}
use mathlib.Core.Option
use mathlib.Core.Option.{Option, none, some}
use native.Mathlib.Omega.{arith}
use meet_your_match.Prelude.Tests.{if◌then◌else◌, Bool-cases}
use mathlib.Core.Logic.{inl, inr}

module _ {ℓ} {A : Type ℓ} where
  abbrev pub length : List A → ℕ
  length [] = 0
  length (x ∷ xs) = suc (length xs)

  abbrev pub get_elem? : List A → ℕ → Option A
  get_elem? [] i = none
  get_elem? (x ∷ xs) zero = some x
  get_elem? (x ∷ xs) (suc i) = get_elem? xs i

  abbrev pub set : List A → ℕ → A → List A
  set [] i v = []
  set (x ∷ xs) zero v = v ∷ xs
  set (x ∷ xs) (suc i) v = x ∷ set xs i v

  abbrev pub take : ℕ → List A → List A
  take zero xs = []
  take (suc n) [] = []
  take (suc n) (x ∷ xs) = x ∷ take n xs

  abbrev pub drop : ℕ → List A → List A
  drop zero xs = xs
  drop (suc n) [] = []
  drop (suc n) (x ∷ xs) = drop n xs

  abbrev pub replicate : ℕ → A → List A
  replicate zero a = []
  replicate (suc n) a = a ∷ replicate n a

  -- `xs.pop(i)`, for an index that is in range
  abbrev pub remove_at : List A → ℕ → List A
  remove_at [] i = []
  remove_at (x ∷ xs) zero = xs
  remove_at (x ∷ xs) (suc i) = x ∷ remove_at xs i

  -- the first index at which a test passes
  abbrev pub index_where : (A → Bool) → List A → Option ℕ
  index_where p [] = none
  index_where p (x ∷ xs) = if p x then some 0 else Option.map suc (index_where p xs)

  abbrev pub any_of : (A → Bool) → List A → Bool
  any_of p [] = false
  any_of p (x ∷ xs) = p x || any_of p xs

  pub length-append : (xs ys : List A) → length (xs ++ ys) ≡ length xs + length ys
  length-append [] ys = omega arith
  length-append (x ∷ xs) ys = omega (arith, length-append xs ys)

  pub length-set : (xs : List A) (i : ℕ) (v : A) → length (set xs i v) ≡ length xs
  length-set [] i v = refl
  length-set (x ∷ xs) zero v = refl
  length-set (x ∷ xs) (suc i) v = ap suc (length-set xs i v)

  pub length-replicate : (n : ℕ) (a : A) → length (replicate n a) ≡ n
  length-replicate zero a = refl
  length-replicate (suc n) a = ap suc (length-replicate n a)

  pub length-take : (n : ℕ) (xs : List A) → length (take n xs) ≡ min n (length xs)
  length-take zero xs = omega arith
  length-take (suc n) [] = omega arith
  length-take (suc n) (x ∷ xs) = omega (arith, length-take n xs)

  pub length-drop : (n : ℕ) (xs : List A) → length (drop n xs) ≡ length xs - n
  length-drop zero xs = omega arith
  length-drop (suc n) [] = omega arith
  length-drop (suc n) (x ∷ xs) = omega (arith, length-drop n xs)

  pub take-append : (xs ys : List A) → take (length xs) (xs ++ ys) ≡ xs
  take-append [] ys = refl
  take-append (x ∷ xs) ys = ap (◌∷◌ x) (take-append xs ys)

  pub drop-append : (xs ys : List A) → drop (length xs) (xs ++ ys) ≡ ys
  drop-append [] ys = refl
  drop-append (x ∷ xs) ys = drop-append xs ys

  -- Past a front part of known length.
  pub drop_past : (n k : ℕ) (xs ys : List A) → length xs ≡ n → drop (n + k) (xs ++ ys) ≡ drop k ys
  drop_past zero k [] ys h = let e : 0 + k ≡ k = omega arith in rw e
  drop_past zero k (x ∷ xs) ys h = absurd (omega arith)
  drop_past (suc n) k [] ys h = absurd (omega arith)
  drop_past (suc n) k (x ∷ xs) ys h =
      let e : suc n + k ≡ suc (n + k) = omega arith in rw e (drop_past n k xs ys (omega arith))

  pub take_front : (n : ℕ) (xs ys : List A) → length xs ≡ n → take n (xs ++ ys) ≡ xs
  take_front zero [] ys h = refl
  take_front zero (x ∷ xs) ys h = absurd (omega arith)
  take_front (suc n) [] ys h = absurd (omega arith)
  take_front (suc n) (x ∷ xs) ys h = ap (◌∷◌ x) (take_front n xs ys (omega arith))

pub length-remove_at-le {ℓ} :
    {A : Type ℓ} (xs : List A) (i : ℕ) → length (remove_at xs i) ≤ length xs
length-remove_at-le [] i = omega arith
length-remove_at-le (x ∷ xs) zero = omega arith
length-remove_at-le (x ∷ xs) (suc i) = omega (arith, length-remove_at-le xs i)

-- A predicate on each member, by recursion, so that the tactics read it.
abbrev pub All {ℓ κ} : {A : Type ℓ} → (A → Type κ) → List A → Type κ
All P [] = Unit
All P (x ∷ xs) = P x × All P xs

pub All-snoc {ℓ κ} :
    {A : Type ℓ} (P : A → Type κ) (x : A) (xs : List A) → All P xs → P x → All P (xs ++ x ∷ [])
All-snoc P x [] h last = (last, tt)
All-snoc P x (y ∷ xs) (first, h) last = (first, All-snoc P x xs h last)

-- An index at which a test passes, with none before it.
abbrev pub IsFirst {ℓ} : {A : Type ℓ} → (A → Bool) → List A → ℕ → Type ℓ
IsFirst {A} p xs i =
    (x : A) × (get_elem? xs i ≡ some x)
    × (p x ≡ true)
    × ((k : ℕ) (y : A) → k < i → get_elem? xs k ≡ some y → p y ≡ false)

module _ {ℓ} {A : Type ℓ} (p : A → Bool) where
  pub index_where-none :
      (xs : List A) (k : ℕ) (y : A)
      → index_where p xs ≡ none
      → get_elem? xs k ≡ some y
      → p y ≡ false
  index_where-none [] k y h e = cc
  index_where-none (x ∷ xs) zero y h e = ground arith
  index_where-none (x ∷ xs) (suc k) y h e = ground (arith, index_where-none xs k y)

  pub index_where-IsFirst : (xs : List A) (i : ℕ) → index_where p xs ≡ some i → IsFirst p xs i
  index_where-IsFirst [] i h = cc
  index_where-IsFirst (x ∷ xs) i h = elim (Bool-cases (p x)) [
    | inl y ↦ let e : i ≡ 0 = ground arith in rw e (x, refl, y, λ k z lt g. absurd (omega arith))
    | inr n ↦
        let (j, found, e) = later xs i n h in
        let (z, at, passes, before) = index_where-IsFirst xs j found in
        rw e (z, at, passes, first xs j n before)
  ]
    where
      later :
          (ys : List A) (k : ℕ)
          → p x ≡ false
          → (if p x then some 0 else Option.map suc (index_where p ys)) ≡ some k
          → (j : ℕ) × (index_where p ys ≡ some j) × (k ≡ suc j)
      later ys k n g = ground arith

      first :
          (ys : List A) (j : ℕ)
          → p x ≡ false
          → ((k : ℕ) (y : A) → k < j → get_elem? ys k ≡ some y → p y ≡ false)
          → (k : ℕ) (y : A) → k < suc j
          → get_elem? (x ∷ ys) k ≡ some y
          → p y ≡ false
      first ys j n before zero y lt g = ground arith
      first ys j n before (suc k) y lt g = before k y (omega arith) g

pub All-get_elem? {ℓ κ} :
    {A : Type ℓ} (P : A → Type κ) (xs : List A) (i : ℕ) (x : A)
    → All P xs
    → get_elem? xs i ≡ some x
    → P x
All-get_elem? P [] i x h e = cc
All-get_elem? P (y ∷ ys) zero x h e = let p : y ≡ x = ground arith in rw (← p) (h.0)
All-get_elem? P (y ∷ ys) (suc i) x h e = All-get_elem? P ys i x h.1 e

pub All-set {ℓ κ} :
    {A : Type ℓ} (P : A → Type κ) (xs : List A) (i : ℕ) (v : A)
    → All P xs
    → P v
    → All P (set xs i v)
All-set P [] i v h hv = h
All-set P (x ∷ xs) zero v h hv = (hv, h.1)
All-set P (x ∷ xs) (suc i) v h hv = (h.0, All-set P xs i v h.1 hv)

pub All-trivial {ℓ} : {A : Type ℓ} (xs : List A) → All (λ _. Unit {0}) xs
All-trivial [] = tt
All-trivial (x ∷ xs) = (tt, All-trivial xs)

pub All-zip {ℓ κ} :
    {A : Type ℓ} (P Q R : A → Type κ)
    → ((x : A) → P x → Q x → R x)
    → (xs : List A) → All P xs
    → All Q xs
    → All R xs
All-zip P Q R rule [] p q = tt
All-zip P Q R rule (x ∷ xs) (p, ps) (q, qs) = (rule x p q, All-zip P Q R rule xs ps qs)
