-- ===== src/Text/Decimal.antt =====
-- Reading the decimal print of a byte, and splitting a dotted address.
use meet_your_match.Prelude.{
  ℕ, zero, suc, ◌<◌, ◌≡◌, ◌≢◌, refl, ap, Bool, true, false, Option, none, some, List, [], ◌∷◌, ◌++◌,
  arith, All, Bool-cases, inl, inr, ltb, ◌==◌, if◌then◌else◌,
}
use meet_your_match.Prelude.Int.{ℤ, pos}
use meet_your_match.Python.{Text}
use meet_your_match.Text.{Unicode, decimal, join_dots, split_dots, int}

-- Whether a test passes at each number below a bound.
passes_below : (ℕ → Bool) → ℕ → Bool
passes_below test zero = true
passes_below test (suc bound) = if test bound then passes_below test bound else false

passes_below-lt :
    (test : ℕ → Bool) (bound : ℕ)
    → passes_below test bound ≡ true
    → (m : ℕ) → m < bound
    → test m ≡ true
unfolding passes_below
passes_below-lt test zero all m small = absurd (omega arith)
passes_below-lt test (suc bound) all m small = elim (Bool-cases (test bound)) [
  | inl here ↦ ground (arith, passes_below-lt test bound (ground arith) m)
  | inr fails ↦ absurd (ground arith)
]

reads : Option ℤ → ℕ → Bool
reads (some (pos m)) n = m == n
reads _ n = false

reads→eq : (o : Option ℤ) (n : ℕ) → reads o n ≡ true → o ≡ some (pos n)
unfolding reads
reads→eq (some (pos m)) n h = ground arith
reads→eq none n h = cc
reads→eq (some (ℤ.negsuc m)) n h = cc

table : (u : Unicode) → passes_below (λ n. reads (int u (decimal n)) n) 256 ≡ true
unfolding passes_below reads int decimal
table u = refl

-- `int` reads the print of a byte back.
pub int-decimal : (u : Unicode) (n : ℕ) → n < 256 → int u (decimal n) ≡ some (pos n)
int-decimal u n h =
    reads→eq (int u (decimal n)) n
      (passes_below-lt (λ m. reads (int u (decimal m)) m) 256 (table u) n h)

abbrev pub HasNoDot : Text → Type 0
HasNoDot = All (λ c. c ≢ b'.')

pub decimal-HasNoDot : (n : ℕ) → n < 256 → HasNoDot (decimal n)
unfolding decimal
decimal-HasNoDot n h = elim (Bool-cases (ltb n 10)) [
  | inl one ↦ rw one (omega arith)
  | inr more ↦ elim (Bool-cases (ltb n 100)) [
    | inl two ↦ rw (more, two) (omega arith)
    | inr three ↦ rw (more, three) (omega arith)
  ]
]

split-front : (s : Text) (t : Text) → HasNoDot s → split_dots (s ++ (b'.' ∷ t)) ≡ s ∷ split_dots t
unfolding split_dots
split-front [] t h = refl
split-front (c ∷ s) t h = ground (arith, split-front s t h.1)

split_one : (s : Text) → HasNoDot s → split_dots s ≡ s ∷ []
unfolding split_dots
split_one [] h = refl
split_one (c ∷ s) h = ground (arith, split_one s h.1)

-- Parts without dots come back from the text that joins them.
pub split_dots-join_dots :
    (s : Text) (ss : List Text) → All HasNoDot (s ∷ ss) → split_dots (join_dots (s ∷ ss)) ≡ s ∷ ss
unfolding join_dots
split_dots-join_dots s [] h = split_one s h.0
split_dots-join_dots s (t ∷ ts) h =
    rw (split-front s (join_dots (t ∷ ts)) h.0) (ap (◌∷◌ s) (split_dots-join_dots t ts h.1))
