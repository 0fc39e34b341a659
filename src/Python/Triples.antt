-- ===== src/Python/Triples.antt =====
-- What a call makes of a property of the state, by how it ends.
use meet_your_match.Prelude.{Bool, true, false, if◌then◌else◌}
use meet_your_match.Python.Monad.{
  Result, ok, raised, blocked, Py, ◌>>=◌, ◌>>◌, modify, pure, gets, Exception,
}

-- `Q` after a call that returns, `E` after one that raises, and `W` where it waits.
abbrev pub After {κ} :
    {S A : Type 0} → (S → Type κ) → (Exception → S → Type κ) → (S → Type κ) → Result A × S → Type κ
After Q E W (ok a, s) = Q s
After Q E W (raised e, s) = E e s
After Q E W (blocked, s) = W s

-- From `P`, a call ends in `Q` if it returns.
pub record Leads {κ} {S A : Type 0} (E : Exception → S → Type κ) (W P : S → Type κ) (m : Py S A)
    (Q : S → Type κ) : Type κ where
  pub leads : (s : S) → P s → After Q E W (m s)

module _ {κ} {S : Type 0} {E : Exception → S → Type κ} {W : S → Type κ} where
  onward :
      {A B : Type 0} (o : Result A × S) (k : A → Py S B) (Q R : S → Type κ)
      → After Q E W o
      → ((a : A) → Leads E W Q (k a) R)
      → After R E W (((λ (_ : S). o) >>= k) o.1)
  onward (ok a, s) k Q R h hk = (hk a).leads s h
  onward (raised e, s) k Q R h hk = h
  onward (blocked, s) k Q R h hk = h

  pub >>=-Leads :
      {P Q R : S → Type κ} {A B : Type 0} {m : Py S A} {k : A → Py S B}
      → Leads E W P m Q
      → ((a : A) → Leads E W Q (k a) R)
      → Leads E W P (m >>= k) R
  >>=-Leads {P} {Q} {R} {m = m} {k = k} hm hk = record {
    leads = λ s h. onward (m s) k Q R (hm.leads s h) hk;
  }

  infixr 4 ◌then◌
  pub ◌then◌ :
      {P Q R : S → Type κ} {A B : Type 0} {m : Py S A} {k : Py S B}
      → Leads E W P m Q
      → Leads E W Q k R
      → Leads E W P (m >> k) R
  hm then hk = >>=-Leads hm (λ _. hk)

  pub modify-Leads :
      {P Q : S → Type κ} (f : S → S) → ((s : S) → P s → Q (f s)) → Leads E W P (modify f) Q
  modify-Leads f h = record { leads = h }

  pub gets-Leads : {P : S → Type κ} {A : Type 0} (f : S → A) → Leads E W P (gets f) P
  gets-Leads f = record { leads = λ s h. h }

  pub pure-Leads : {P : S → Type κ} {A : Type 0} (a : A) → Leads E W P (pure {S = S} a) P
  pure-Leads a = record { leads = λ s h. h }

-- `P` holds after the call, however it ends, if it holds before.
abbrev pub Keeps {κ} : {S A : Type 0} → (S → Type κ) → Py S A → Type κ
Keeps P m = Leads (λ _. P) P P m P

ends {κ} : {S A : Type 0} (P : S → Type κ) (o : Result A × S) → After P (λ _. P) P o → P o.1
ends P (ok a, s) h = h
ends P (raised e, s) h = h
ends P (blocked, s) h = h

begins {κ} : {S A : Type 0} (P : S → Type κ) (o : Result A × S) → P o.1 → After P (λ _. P) P o
begins P (ok a, s) h = h
begins P (raised e, s) h = h
begins P (blocked, s) h = h

module _ {κ} {S : Type 0} {P : S → Type κ} where
  pub keeps : {A : Type 0} {m : Py S A} → ((s : S) → P s → P (m s).1) → Keeps P m
  keeps {m = m} h = record { leads = λ s p. begins P (m s) (h s p) }

  pub kept : {A : Type 0} {m : Py S A} → Keeps P m → (s : S) → P s → P (m s).1
  kept {m = m} h s p = ends P (m s) (h.leads s p)

  pub if-Keeps :
      {A : Type 0} (b : Bool) {m k : Py S A} → Keeps P m → Keeps P k → Keeps P (if b then m else k)
  if-Keeps true hm hk = hm
  if-Keeps false hm hk = hk
