-- ===== src/Utf8/RoundTrip.antt =====
-- Encoding and then decoding a text.
use mathlib.Core.Option
use mathlib.Core.List.{append-nil, append_assoc}
use meet_your_match.Prelude.{
  ℕ, zero, suc, ◌+◌, ◌*◌, ◌/◌, ◌%◌, ◌<◌, ◌≤◌, ◌≡◌, ◌⊎◌, ◌∙◌, refl, inl, inr, some, none, [], ◌∷◌,
  ◌++◌, arith, All, ◌==◌, if◌then◌else◌, replicate, Option-cases,
}
use meet_your_match.Python.{Text}
use meet_your_match.Struct.{Bytes}
use meet_your_match.Utf8.{
  encode_point, encode_text, Pending, ready, feed, expect, decode_from, decode_text,
}

-- A byte that does not end a code point, and one that does.
go_on :
    (p p' : Pending) (b : ℕ) (rest : Bytes)
    → feed p b ≡ some (p', [])
    → decode_from p (b ∷ rest) ≡ decode_from p' rest
unfolding decode_from
go_on p p' b rest h = rw (h, decode_from) (id_map (decode_from p' rest))
  where
    id_map : (o : Option.Option Text) → Option.map (λ r. r) o ≡ o
    id_map none = refl
    id_map (some r) = refl

emit :
    (p : Pending) (c b : ℕ) (rest : Bytes)
    → feed p b ≡ some (ready, c ∷ [])
    → decode_from p (b ∷ rest) ≡ Option.map (λ r. c ∷ r) (decode_from ready rest)
unfolding decode_from
emit p c b rest h = rw (h, decode_from) refl

-- the states between the bytes of a code point
abbrev waits : ℕ → ℕ → ℕ → ℕ → Pending
waits more bits low high = record { more = more; bits = bits; low = low; high = high }

feed_more :
    (n bits low high x bits' : ℕ)
    → low ≤ 0x80 + x
    → 0x80 + x ≤ high
    → bits * 0x40 + x ≡ bits'
    → feed (waits (suc (suc n)) bits low high) (0x80 + x) ≡ some (waits (suc n) bits' 0x80 0xbf, [])
unfolding feed
feed_more n bits low high x bits' h k e = ground arith

feed_last :
    (bits low high x c : ℕ)
    → low ≤ 0x80 + x
    → 0x80 + x ≤ high
    → bits * 0x40 + x ≡ c
    → feed (waits 1 bits low high) (0x80 + x) ≡ some (ready, c ∷ [])
unfolding feed
feed_last bits low high x c h k e = ground arith

lead_two : (x : ℕ) → 2 ≤ x → x < 0x20 → feed ready (0xc0 + x) ≡ expect 1 x 0x80 0xbf
unfolding feed
lead_two x h k = ground arith

-- the bounds of the second byte, by the first
abbrev second_low : ℕ → ℕ
second_low x = if x == 0 then 0xa0 else 0x80

abbrev second_high : ℕ → ℕ
second_high x = if x == 0xd then 0x9f else 0xbf

lead_three : (x : ℕ) → x < 0x10 → feed ready (0xe0 + x) ≡ expect 2 x (second_low x) (second_high x)
unfolding feed
lead_three x h = ground arith

abbrev second_low_four : ℕ → ℕ
second_low_four x = if x == 0 then 0x90 else 0x80

abbrev second_high_four : ℕ → ℕ
second_high_four x = if x == 4 then 0x8f else 0xbf

lead_four :
    (x : ℕ) → x < 5 → feed ready (0xf0 + x) ≡ expect 3 x (second_low_four x) (second_high_four x)
unfolding feed
lead_four x h = ground arith

-- Each form of `encode_point` is decoded to its code point.
decode_two :
    (c : ℕ) (rest : Bytes)
    → 0x80 ≤ c
    → c < 0x800
    → decode_from ready ((0xc0 + c / 0x40) ∷ (0x80 + c % 0x40) ∷ rest)
      ≡ Option.map (λ r. c ∷ r) (decode_from ready rest)
decode_two c rest h k =
    go_on ready (waits 1 (c / 0x40) 0x80 0xbf) (0xc0 + c / 0x40) _
      (lead_two (c / 0x40) (omega arith) (omega arith))
    ∙ emit (waits 1 (c / 0x40) 0x80 0xbf) c (0x80 + c % 0x40) rest
        (feed_last (c / 0x40) 0x80 0xbf (c % 0x40) c (omega arith) (omega arith) (omega arith))

decode_three :
    (c : ℕ) (rest : Bytes)
    → 0x800 ≤ c
    → c < 0x10000
    → (c < 0xd800) ⊎ (0xdfff < c)
    → decode_from ready ((0xe0 + c / 0x1000) ∷ (0x80 + c / 0x40 % 0x40) ∷ (0x80 + c % 0x40) ∷ rest)
      ≡ Option.map (λ r. c ∷ r) (decode_from ready rest)
decode_three c rest h k s =
    let x = c / 0x1000 in
    let first = waits 2 x (second_low x) (second_high x) in
    let second = waits 1 (c / 0x40) 0x80 0xbf in
    go_on ready first (0xe0 + x) _ (lead_three x (omega arith))
    ∙ go_on first second (0x80 + c / 0x40 % 0x40) _ (
        feed_more 0 x (second_low x) (second_high x) (c / 0x40 % 0x40) (c / 0x40) (ground arith)
          (ground arith) (omega arith))
    ∙ emit second c (0x80 + c % 0x40) rest
        (feed_last (c / 0x40) 0x80 0xbf (c % 0x40) c (omega arith) (omega arith) (omega arith))

decode_four :
    (c : ℕ) (rest : Bytes)
    → 0x10000 ≤ c
    → c < 0x110000
    → decode_from ready (
        (0xf0 + c / 0x40000)
        ∷ (0x80 + c / 0x1000 % 0x40)
        ∷ (0x80 + c / 0x40 % 0x40)
        ∷ (0x80 + c % 0x40)
        ∷ rest)
      ≡ Option.map (λ r. c ∷ r) (decode_from ready rest)
decode_four c rest h k =
    let x = c / 0x40000 in
    let first = waits 3 x (second_low_four x) (second_high_four x) in
    let second = waits 2 (c / 0x1000) 0x80 0xbf in
    let third = waits 1 (c / 0x40) 0x80 0xbf in
    go_on ready first (0xf0 + x) _ (lead_four x (omega arith))
    ∙ go_on first second (0x80 + c / 0x1000 % 0x40) _ (
        feed_more 1 x (second_low_four x) (second_high_four x) (c / 0x1000 % 0x40) (c / 0x1000)
          (ground arith) (ground arith) (omega arith))
    ∙ go_on second third (0x80 + c / 0x40 % 0x40) _ (
        feed_more 0 (c / 0x1000) 0x80 0xbf (c / 0x40 % 0x40) (c / 0x40) (omega arith) (omega arith)
          (omega arith))
    ∙ emit third c (0x80 + c % 0x40) rest
        (feed_last (c / 0x40) 0x80 0xbf (c % 0x40) c (omega arith) (omega arith) (omega arith))

lead_one : (c : ℕ) → c < 0x80 → feed ready c ≡ some (ready, c ∷ [])
unfolding feed
lead_one c h = ground arith

decode_point :
    (c : ℕ) (bs rest : Bytes)
    → encode_point c ≡ some bs
    → decode_from ready (bs ++ rest) ≡ Option.map (λ r. c ∷ r) (decode_from ready rest)
unfolding encode_point
decode_point c bs rest h = ground (
  arith,
  λ (small : c < 0x80). emit ready c c rest (lead_one c small),
  decode_two c rest,
  decode_three c rest,
  decode_four c rest,
)

encode_cons :
    (c : ℕ) (s : Text) (bs : Bytes)
    → encode_text (c ∷ s) ≡ some bs
    → (ps : Bytes) × (qs : Bytes) × (encode_point c ≡ some ps)
      × (encode_text s ≡ some qs)
      × (bs ≡ ps ++ qs)
unfolding encode_text
encode_cons c s bs h = elim (Option-cases (encode_point c)) [
  | inl unencodable ↦ absurd (ground arith)
  | inr (ps, e) ↦ elim (Option-cases (encode_text s)) [
    | inl unencodable ↦ absurd (ground arith)
    | inr (qs, f) ↦ (ps, qs, e, f, ground arith)
  ]
]

decode_from-encode :
    (s t : Text) (bs rest : Bytes)
    → encode_text s ≡ some bs
    → decode_from ready rest ≡ some t
    → decode_from ready (bs ++ rest) ≡ some (s ++ t)
unfolding encode_text
decode_from-encode [] t bs rest h g = let e : bs ≡ [] = ground arith in rw e g
decode_from-encode (c ∷ s) t bs rest h g =
    let (ps, qs, e, f, parts) = encode_cons c s bs h in
    rw
      (
        parts,
        append_assoc ps qs rest,
        decode_point c ps (qs ++ rest) e,
        decode_from-encode s t qs rest f g,
      )
      refl

zeros : (n : ℕ) → decode_from ready (replicate n 0) ≡ some (replicate n 0)
unfolding decode_from
zeros zero = refl
zeros (suc n) = emit ready 0 0 (replicate n 0) (lead_one 0 (omega arith)) ∙ rw (zeros n)

-- A text that can be encoded is decoded to itself, and so is the text with zeros behind it, as a
-- byte field of a fixed width holds it.
pub decode_text-encode :
    (s : Text) (bs : Bytes) (n : ℕ)
    → encode_text s ≡ some bs
    → (decode_text bs ≡ some s) × (decode_text (bs ++ replicate n 0) ≡ some (s ++ replicate n 0))
unfolding decode_text
decode_text-encode s bs n h = (
  rw (append-nil bs, append-nil s) at (decode_from-encode s [] bs [] h (zeros 0)),
  decode_from-encode s (replicate n 0) bs (replicate n 0) h (zeros n),
)

-- ASCII text is its own encoding.
pub encode_text-ascii : (s : Text) → All (λ c. c < 0x80) s → encode_text s ≡ some s
unfolding encode_text
encode_text-ascii [] h = refl
encode_text-ascii (c ∷ s) h = ground (arith, encode_text-ascii s h.1)
