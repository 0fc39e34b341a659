-- ===== src/Struct/Fields.antt =====
-- Byte fields of a fixed width.
use meet_your_match.Prelude.{
  ℕ, zero, suc, ◌+◌, ◌≤◌, ◌≡◌, refl, ap, [], ◌∷◌, ◌++◌, arith, length, take, replicate,
}
use meet_your_match.Struct.{Bytes, pack_text}

pub length-pack_text : (k : ℕ) (bs : Bytes) → length (pack_text k bs) ≡ k
unfolding pack_text
length-pack_text zero bs = refl
length-pack_text (suc k) [] = omega (arith, length-pack_text k [])
length-pack_text (suc k) (b ∷ bs) = omega (arith, length-pack_text k bs)

pack_text-nil : (k : ℕ) → pack_text k [] ≡ replicate k 0
unfolding pack_text
pack_text-nil zero = refl
pack_text-nil (suc k) = ap (◌∷◌ 0) (pack_text-nil k)

-- A text that fits stands in its field, with zeros behind it.
pub pack_text-fits :
    (k n : ℕ) (bs : Bytes) → length bs + n ≡ k → pack_text k bs ≡ bs ++ replicate n 0
unfolding pack_text
pack_text-fits zero n [] h = let e : n ≡ 0 = omega arith in rw e
pack_text-fits zero n (b ∷ bs) h = absurd (omega arith)
pack_text-fits (suc k) n [] h =
    let e : n ≡ suc k = omega arith in rw e (ap (◌∷◌ 0) (pack_text-nil k))
pack_text-fits (suc k) n (b ∷ bs) h = ap (◌∷◌ b) (pack_text-fits k n bs (omega arith))

-- A text that does not fit is cut.
pub pack_text-cut : (k : ℕ) (bs : Bytes) → k ≤ length bs → pack_text k bs ≡ take k bs
unfolding pack_text
pack_text-cut zero bs h = refl
pack_text-cut (suc k) [] h = absurd (omega arith)
pack_text-cut (suc k) (b ∷ bs) h = ap (◌∷◌ b) (pack_text-cut k bs (omega arith))
