-- ===== src/Python/Progress.antt =====
-- Calls that never wait: rules for sequences, for `if` and for `try`.
use meet_your_match.Prelude.{Option, none, some, ◌≢◌, inl, inr, Bool, true, false, if◌then◌else◌}
use meet_your_match.Python.Monad.{
  Exception, blocked, Py, pure, raise, or_raise, on_part, catching, ◌>>=◌,
}
use meet_your_match.Python.Sequences.{Result-cases}

-- Where `P` holds, the call returns or raises, and `P` holds again.
abbrev pub Runs {κ} : {S A : Type 0} → (S → Type κ) → Py S A → Type κ
Runs {S} P m = (s : S) → P s → ((m s).0 ≢ blocked) × P (m s).1

module _ {κ} {S : Type 0} (P : S → Type κ) where
  pub pure-Runs : {A : Type 0} (a : A) → Runs P (pure {S = S} a)
  pure-Runs a s h = (λ e. cc, h)

  pub >>=-Runs :
      {A B : Type 0} (m : Py S A) (k : A → Py S B)
      → Runs P m
      → ((a : A) → Runs P (k a))
      → Runs P (m >>= k)
  >>=-Runs m k hm hk s h = elim (Result-cases (m s).0) [
    | inl (a, e) ↦ rw (e, ◌>>=◌) (hk a (m s).1 (hm s h).1)
    | inr (inl (x, e)) ↦ rw (e, ◌>>=◌) (λ q. cc, (hm s h).1)
    | inr (inr e) ↦ absurd ((hm s h).0 e)
  ]

  pub catching-Runs :
      {A : Type 0} (m handler : Py S A) → Runs P m → Runs P handler → Runs P (catching m handler)
  catching-Runs m handler hm hh s h = elim (Result-cases (m s).0) [
    | inl (a, e) ↦ rw (e, catching) (λ q. cc, (hm s h).1)
    | inr (inl (x, e)) ↦ rw (e, catching) (hh (m s).1 (hm s h).1)
    | inr (inr e) ↦ absurd ((hm s h).0 e)
  ]

  pub if-Runs :
      {A : Type 0} (b : Bool) (m k : Py S A) → Runs P m → Runs P k → Runs P (if b then m else k)
  if-Runs true m k hm hk = hm
  if-Runs false m k hm hk = hk

  pub raise-Runs : {A : Type 0} (e : Exception) → Runs P (raise {S = S} {A = A} e)
  raise-Runs e s h = (λ q. cc, h)

  pub or_raise-Runs : {A : Type 0} (o : Option A) (e : Exception) → Runs P (or_raise {S = S} o e)
  or_raise-Runs none e s h = (λ q. cc, h)
  or_raise-Runs (some a) e s h = (λ q. cc, h)

-- From `P`, the call returns or raises, and `Q` holds.
abbrev pub RunsTo {κ} : {S A : Type 0} → (S → Type κ) → (S → Type κ) → Py S A → Type κ
RunsTo {S} P Q m = (s : S) → P s → ((m s).0 ≢ blocked) × Q (m s).1

pub >>=-RunsTo {κ} :
    {S A B : Type 0} (P Q R : S → Type κ) (m : Py S A) (k : A → Py S B)
    → RunsTo P Q m
    → ((s : S) → Q s → R s)
    → ((a : A) → RunsTo Q R (k a))
    → RunsTo P R (m >>= k)
>>=-RunsTo P Q R m k hm weaker hk s h = elim (Result-cases (m s).0) [
  | inl (a, e) ↦ rw (e, ◌>>=◌) (hk a (m s).1 (hm s h).1)
  | inr (inl (x, e)) ↦ rw (e, ◌>>=◌) (λ q. cc, weaker (m s).1 (hm s h).1)
  | inr (inr e) ↦ absurd ((hm s h).0 e)
]

pub if-RunsTo {κ} :
    {S A : Type 0} (P Q : S → Type κ) (b : Bool) (m k : Py S A)
    → RunsTo P Q m
    → RunsTo P Q k
    → RunsTo P Q (if b then m else k)
if-RunsTo P Q true m k hm hk = hm
if-RunsTo P Q false m k hm hk = hk

-- A call on a part of the state, which keeps `Q`.
pub on_part-Runs {κ} :
    {S T A : Type 0} (P : S → Type κ) (Q : T → Type κ) (get : S → T) (put : S → T → S) (m : Py T A)
    → Runs Q m
    → ((s : S) → P s → Q (get s))
    → ((s : S) (t : T) → P s → Q t → P (put s t))
    → Runs P (on_part get put m)
on_part-Runs P Q get put m runs into back s h =
    let (ends, kept) = runs (get s) (into s h) in (ends, back s (m (get s)).1 h kept)
