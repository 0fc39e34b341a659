-- ===== src/Utf8.antt =====
-- UTF-8 as `str.encode` and `bytes.decode` have it, in strict mode.
pub mod RoundTrip
use meet_your_match.Prelude.{
  ℕ, zero, suc, ◌+◌, ◌-◌, ◌*◌, ◌/◌, ◌%◌, ◌≡◌, refl, Bool, true, false, ◌&&◌, Option, none, some,
  List, [], ◌∷◌, ◌++◌, ltb, leb, ◌==◌, if◌then◌else◌,
}
use mathlib.Core.Option
use meet_your_match.Python.{Text, Py, or_raise, unicode_error}
use meet_your_match.Struct.{Bytes}

-- One code point; surrogates and numbers above U+10FFFF have no encoding.
unfoldable pub encode_point : ℕ → Option Bytes
encode_point c =
    if ltb c 0x80
    then some (c ∷ [])
    else if ltb c 0x800
    then some ((0xc0 + c / 0x40) ∷ (0x80 + c % 0x40) ∷ [])
    else if leb 0xd800 c && leb c 0xdfff
    then none
    else if ltb c 0x10000
    then some ((0xe0 + c / 0x1000) ∷ (0x80 + c / 0x40 % 0x40) ∷ (0x80 + c % 0x40) ∷ [])
    else if ltb c 0x110000
    then some (
        (0xf0 + c / 0x40000)
        ∷ (0x80 + c / 0x1000 % 0x40)
        ∷ (0x80 + c / 0x40 % 0x40)
        ∷ (0x80 + c % 0x40)
        ∷ [])
    else none

unfoldable pub encode_text : Text → Option Bytes
unfolding encode_point
encode_text [] = some []
encode_text (c ∷ cs) =
    let rest = encode_text cs in
    elim (encode_point c) [ none ↦ none | some bs ↦ Option.map (λ r. bs ++ r) rest ]

-- What the decoder waits for: `more` bytes, the next one between `low` and `high`, behind the bits
-- in `bits`. With no more to come it is between two code points.
pub record Pending : Type 0 where
  pub more : ℕ
  pub bits : ℕ
  pub low : ℕ
  pub high : ℕ

abbrev pub ready : Pending
ready = record { more = 0; bits = 0; low = 0x80; high = 0xbf }

abbrev pub expect : ℕ → ℕ → ℕ → ℕ → Option (Pending × List ℕ)
expect more bits low high = some (record { more = more; bits = bits; low = low; high = high }, [])

-- The first byte of a code point: the ranges leave out what is overlong, a surrogate, or too large.
unfoldable pub lead : ℕ → Option (Pending × List ℕ)
lead b =
    if ltb b 0x80
    then some (ready, b ∷ [])
    else if ltb b 0xc2
    then none
    else if ltb b 0xe0
    then expect 1 (b - 0xc0) 0x80 0xbf
    else if b == 0xe0
    then expect 2 0 0xa0 0xbf
    else if b == 0xed
    then expect 2 0xd 0x80 0x9f
    else if ltb b 0xf0
    then expect 2 (b - 0xe0) 0x80 0xbf
    else if b == 0xf0
    then expect 3 0 0x90 0xbf
    else if ltb b 0xf4
    then expect 3 (b - 0xf0) 0x80 0xbf
    else if b == 0xf4
    then expect 3 4 0x80 0x8f
    else none

-- One byte: the next state, and the code point that it ends, if any.
unfoldable pub feed : Pending → ℕ → Option (Pending × List ℕ)
unfolding lead
feed p b =
    if p.more == 0
    then lead b
    else if leb p.low b && leb b p.high
    then (let bits = p.bits * 0x40 + (b - 0x80) in
        if p.more == 1 then some (ready, bits ∷ []) else expect (p.more - 1) bits 0x80 0xbf)
    else none

unfoldable pub decode_from : Pending → Bytes → Option Text
unfolding feed
decode_from p [] = if p.more == 0 then some [] else none
decode_from p (b ∷ bs) = elim (feed p b) [
  | none ↦ none
  | some (p', out) ↦ Option.map (λ r. out ++ r) (decode_from p' bs)
]

unfoldable pub decode_text : Bytes → Option Text
unfolding decode_from
decode_text = decode_from ready

-- `s.encode()`, `bytes(s, 'utf-8')`
unfoldable pub encode : {S : Type 0} → Text → Py S Bytes
encode s = or_raise (encode_text s) unicode_error

-- `b.decode()`
unfoldable pub decode : {S : Type 0} → Bytes → Py S Text
decode bs = or_raise (decode_text bs) unicode_error
