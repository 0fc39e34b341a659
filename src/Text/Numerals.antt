-- ===== src/Text/Numerals.antt =====
-- `str(n)` for any integer, and the format `04X`.
use meet_your_match.Prelude.{
  ℕ, zero, suc, ◌+◌, ◌-◌, ◌*◌, ◌/◌, ◌%◌, ◌<◌, ◌≡◌, ap, ◌∙◌, inl, inr, List, [], ◌∷◌, ◌++◌, map,
  arith, ltb, length, replicate, ◌==◌, if◌then◌else◌, Bool-cases,
}
use meet_your_match.Prelude.Int.{ℤ, pos, negsuc}
use meet_your_match.Python.{Text}

-- The digits of `n`, the highest first, in front of others. Each digit takes one of the fuel, so
-- more than `n` is enough (`read_digits`).
unfoldable pub digits_before : ℕ → ℕ → ℕ → List ℕ → List ℕ
digits_before base zero n later = later
digits_before base (suc fuel) n later =
    let more = digits_before base fuel (n / base) (n % base ∷ later) in
    if n / base == 0 then n % base ∷ later else more

abbrev pub digits_of : ℕ → ℕ → List ℕ
digits_of base n = digits_before base (suc n) n []

-- `0` to `9`, then `A` to `F`
abbrev pub digit_char : ℕ → ℕ
digit_char d = if ltb d 10 then b'0' + d else b'A' + (d - 10)

abbrev pub str_nat : ℕ → Text
str_nat n = map digit_char (digits_of 10 n)

abbrev pub str_int : ℤ → Text
str_int (pos n) = str_nat n
str_int (negsuc n) = b'-' ∷ str_nat (suc n)

-- `f'{n:04X}'`
abbrev pub hex4 : ℕ → Text
hex4 n =
    let digits = map digit_char (digits_of 16 n) in replicate (4 - length digits) b'0' ++ digits

-- The number that decimal digits stand for, behind those of `v`.
abbrev pub read : ℕ → List ℕ → ℕ
read v [] = v
read v (d ∷ ds) = read (v * 10 + d) ds

digits_before-read :
    (fuel n : ℕ) (later : List ℕ) → n < fuel → read 0 (digits_before 10 fuel n later) ≡ read n later
unfolding digits_before
digits_before-read zero n later h = absurd (omega arith)
digits_before-read (suc fuel) n later h = elim (Bool-cases (n / 10 == 0)) [
  | inl y ↦ let last : 0 * 10 + n % 10 ≡ n = ground arith in rw y (ap (λ d. read d later) last)
  | inr m ↦
      let less : n / 10 < fuel = ground arith in
      let whole : n / 10 * 10 + n % 10 ≡ n = omega arith in
      rw m (digits_before-read fuel (n / 10) (n % 10 ∷ later) less ∙ ap (λ d. read d later) whole)
]

-- The fuel of a decimal print is enough: its digits stand for the number.
pub read-digits_of : (n : ℕ) → read 0 (digits_of 10 n) ≡ n
read-digits_of n = digits_before-read (suc n) n [] (omega arith)
