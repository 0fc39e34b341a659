-- ===== src/Text.antt =====
-- Decimal numbers and dotted addresses: `str(n)`, `'.'.join`, `s.split('.')` and `int(s)`.
pub mod Decimal
pub mod Numerals
use Prim.Native.Char.{code}
use Prim.Native.String.{String}
use mathlib.Core.List.{reverse}
use meet_your_match.Prelude.{
  ℕ, zero, suc, ◌+◌, ◌-◌, ◌*◌, ◌/◌, ◌%◌, Bool, true, false, not, ◌&&◌, ◌||◌, Option, none, some,
  List, [], ◌∷◌, ◌++◌, ltb, leb, ◌==◌, if◌then◌else◌,
}
use meet_your_match.Prelude.Int.{ℤ, pos, ◌-ℤ◌}
use meet_your_match.Python.{Text}

-- the code points of a literal
abbrev pub codes : String → Text
codes String.[] = []
codes (String.◌∷◌ c s) = code c ∷ codes s

-- Python's tables of digits and of white space, beyond ASCII.
pub record Unicode : Type 0 where
  pub digit : ℕ → Option ℕ
  pub is_space : ℕ → Bool

-- `str(n)` for an `n` below 1000, such as a byte
unfoldable pub decimal : ℕ → Text
decimal n =
    if ltb n 10
    then (b'0' + n) ∷ []
    else if ltb n 100
    then (b'0' + n / 10) ∷ (b'0' + n % 10) ∷ []
    else (b'0' + n / 100) ∷ (b'0' + n / 10 % 10) ∷ (b'0' + n % 10) ∷ []

-- `'.'.join(parts)`
unfoldable pub join_dots : List Text → Text
join_dots [] = []
join_dots (s ∷ []) = s
join_dots (s ∷ t ∷ ts) = s ++ (b'.' ∷ join_dots (t ∷ ts))

abbrev pub onto_first : ℕ → List Text → List Text
onto_first c [] = (c ∷ []) ∷ []
onto_first c (s ∷ ss) = (c ∷ s) ∷ ss

-- `s.split('.')`
unfoldable pub split_dots : Text → List Text
split_dots [] = [] ∷ []
split_dots (c ∷ cs) = let rest = split_dots cs in if c == b'.' then [] ∷ rest else onto_first c rest

module _ (u : Unicode) where
  unfoldable pub digit_value : ℕ → Option ℕ
  digit_value c =
      if ltb c 0x80 then (if leb b'0' c && leb c b'9' then some (c - b'0') else none) else u.digit c

  unfoldable pub is_space : ℕ → Bool
  is_space c = if ltb c 0x80 then leb 9 c && leb c 13 || leb 28 c && leb c 32 else u.is_space c

  unfoldable pub strip_left : Text → Text
  unfolding is_space
  strip_left [] = []
  strip_left (c ∷ cs) = let rest = strip_left cs in if is_space c then rest else c ∷ cs

  abbrev pub strip : Text → Text
  strip s = reverse (strip_left (reverse (strip_left s)))

  -- Digits, with single underscores between them; `wants` tells that a digit must come next.
  unfoldable pub digits : Bool → ℕ → Text → Option ℕ
  unfolding digit_value
  digits wants n [] = if wants then none else some n
  digits wants n (c ∷ cs) = elim (digit_value c) [
    | some d ↦ digits false (n * 10 + d) cs
    | none ↦ elim (c == b'_' && not wants) [ true ↦ digits true n cs | false ↦ none ]
  ]

  -- an optional sign, then the digits
  unfoldable pub signed : Text → Option ℤ
  unfolding digits
  signed [] = none
  signed (c ∷ cs) =
      if c == b'-'
      then elim (digits true 0 cs) [ none ↦ none | some n ↦ some (pos 0 -ℤ pos n) ]
      else elim (digits true 0 (if c == b'+' then cs else c ∷ cs)) [
        | none ↦ none
        | some n ↦ some (pos n)
      ]

  -- `int(s)`; none is a ValueError. (The interpreter's limit of 4300 digits is left out.)
  unfoldable pub int : Text → Option ℤ
  unfolding signed strip_left
  int s = signed (strip s)
