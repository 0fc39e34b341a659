-- ===== src/Python/Sequences.antt =====
-- What every outcome of a call leaves true: a rule for sequences, and for `if`.
use meet_your_match.Prelude.{◌≡◌, refl, ap, ◌⊎◌, inl, inr, Bool, true, false, if◌then◌else◌, arith}
use meet_your_match.Python.Monad.{Exception, Result, ok, raised, blocked, Py, ◌>>=◌, ◌>>◌}

-- `P` holds after the call if it held before, whether the call returns, raises or waits.
abbrev pub Preserves {κ} : {S A : Type 0} → (S → Type κ) → Py S A → Type κ
Preserves {S} P m = (s : S) → P s → P (m s).1

pub Result-cases :
    {A : Type 0} (r : Result A)
    → ((a : A) × (r ≡ ok a)) ⊎ ((e : Exception) × (r ≡ raised e)) ⊎ (r ≡ blocked)
Result-cases (ok a) = inl (a, refl)
Result-cases (raised e) = inr (inl (e, refl))
Result-cases blocked = inr (inr refl)

module _ {κ} {S A B : Type 0} (P : S → Type κ) where
  pub >>=-Preserves :
      (m : Py S A) (k : A → Py S B)
      → Preserves P m
      → ((a : A) → Preserves P (k a))
      → Preserves P (m >>= k)
  >>=-Preserves m k hm hk s h = elim (Result-cases (m s).0) [
    | inl (a, e) ↦ rw (e, ◌>>=◌) (hk a (m s).1 (hm s h))
    | inr (inl (x, e)) ↦ rw (e, ◌>>=◌) (hm s h)
    | inr (inr e) ↦ rw (e, ◌>>=◌) (hm s h)
  ]

  pub >>-Preserves :
      (m : Py S A) (k : Py S B) → Preserves P m → Preserves P k → Preserves P (m >> k)
  >>-Preserves m k hm hk = >>=-Preserves m (λ _. k) hm (λ _. hk)

pub if-Preserves {κ} :
    {S A : Type 0} (P : S → Type κ) (b : Bool) (m k : Py S A)
    → Preserves P m
    → Preserves P k
    → Preserves P (if b then m else k)
if-Preserves P true m k hm hk = hm
if-Preserves P false m k hm hk = hk

-- A call that returns goes on with what follows it.
pub >>=-ok :
    {S A B : Type 0} (m : Py S A) (k : A → Py S B) {s t : S} {a : A}
    → m s ≡ (ok a, t)
    → (m >>= k) s ≡ k a t
>>=-ok m k h =
    ap (λ o. elim o.0 [ ok a ↦ k a o.1 | raised e ↦ (raised e, o.1) | blocked ↦ (blocked, o.1) ]) h

-- A call that waits lets nothing after it run.
pub >>=-blocked :
    {S A B : Type 0} (m : Py S A) (k : A → Py S B) {s t : S}
    → m s ≡ (blocked, t)
    → (m >>= k) s ≡ (blocked, t)
>>=-blocked m k h =
    ap (λ o. elim o.0 [ ok a ↦ k a o.1 | raised e ↦ (raised e, o.1) | blocked ↦ (blocked, o.1) ]) h

-- A call that raises lets nothing after it run.
pub >>=-raised :
    {S A B : Type 0} (m : Py S A) (k : A → Py S B) {s t : S} {e : Exception}
    → m s ≡ (raised e, t)
    → (m >>= k) s ≡ (raised e, t)
>>=-raised m k h =
    ap (λ o. elim o.0 [ ok a ↦ k a o.1 | raised x ↦ (raised x, o.1) | blocked ↦ (blocked, o.1) ]) h

-- What a sequence that returns came through.
pub >>=-inv :
    {S A B : Type 0} (m : Py S A) (k : A → Py S B) {s t : S} {b : B}
    → (m >>= k) s ≡ (ok b, t)
    → (a : A) × (s' : S) × (m s ≡ (ok a, s')) × (k a s' ≡ (ok b, t))
>>=-inv m k {s} h = elim (Result-cases (m s).0) [
  | inl (a, e) ↦ (a, (m s).1, ap (λ r. (r, (m s).1)) e, rw (e, ◌>>=◌) at h)
  | inr (inl (x, e)) ↦ let g = rw (e, ◌>>=◌) at h in absurd (ground arith)
  | inr (inr e) ↦ let g = rw (e, ◌>>=◌) at h in absurd (ground arith)
]

outcome_assoc :
    {S A B C : Type 0} (o : Result A × S) (k : A → Py S B) (l : B → Py S C) (s : S)
    → (((λ _. o) >>= k) >>= l) s ≡ ((λ _. o) >>= λ a. k a >>= l) s
outcome_assoc (ok a, t) k l s = refl
outcome_assoc (raised e, t) k l s = refl
outcome_assoc (blocked, t) k l s = refl

module _ {S A B : Type 0} (m : Py S A) where
  pub >>=_assoc :
      {C : Type 0} (k : A → Py S B) (l : B → Py S C) (s : S)
      → ((m >>= k) >>= l) s ≡ (m >>= λ a. k a >>= l) s
  >>=_assoc k l s = outcome_assoc (m s) k l s

  -- Calls that go on alike end alike.
  pub >>=_cong :
      (k l : A → Py S B) (s : S) → ((a : A) (t : S) → k a t ≡ l a t) → (m >>= k) s ≡ (m >>= l) s
  >>=_cong k l s h = elim (Result-cases (m s).0) [
    | inl (a, e) ↦ rw (e, ◌>>=◌) (h a (m s).1)
    | inr (inl (x, e)) ↦ rw (e, ◌>>=◌)
    | inr (inr e) ↦ rw (e, ◌>>=◌)
  ]

pub if-elim {ℓ κ} :
    {A : Type ℓ} (P : A → Type κ) (b : Bool) {x y : A} → P x → P y → P (if b then x else y)
if-elim P true hx hy = hx
if-elim P false hx hy = hy
