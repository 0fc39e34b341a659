-- ===== src/CommandLine/Ips.antt =====
-- What the script (mym.py) accepts as an ip.
use meet_your_match.Prelude.{
  ℕ, ◌<◌, ◌≡◌, refl, ap, ◌∙◌, Bool, true, false, ◌&&◌, Option, none, some, List, [], ◌∷◌, arith,
  length, drop, ltb, ◌==◌, ==_iff, All, lt→ltb, if◌then◌else◌,
}
use meet_your_match.Prelude.Int.{ℤ, pos, negsuc, leb_ℤ}
use meet_your_match.Python.{
  ok, Py, pure, raise, or_raise, assert, value_error, ◌>>=◌, ◌>>◌, >>=-inv, >>=-ok, Text,
}
use meet_your_match.Struct.{Bytes}
use meet_your_match.Struct.Integers.{IsBytes}
use meet_your_match.Text.{Unicode, split_dots, int}
use meet_your_match.Matching.{MatchingData}
use meet_your_match.Matchmaker.Pack.{pack_byte, pack_bytes}
use meet_your_match.CommandLine.Loop.{script-interpret}
use meet_your_match.CommandLine.Endings.{interpret-Runs}
use meet_your_match.Constants.{default_ip}
use meet_your_match.CommandLine.{Settings, default_settings, script, ints, assert_bytes, check_ip}

-- Session packing makes four bytes of the text.
abbrev pub IsPackable : Unicode → Text → Type 0
IsPackable u ip =
    (bs : Bytes) × (length bs ≡ 4)
    × IsBytes bs
    × ((md : MatchingData) → pack_bytes u (split_dots ip) md ≡ (ok bs, md))

assert-inv : {S : Type 0} (b : Bool) (s t : S) → assert b s ≡ (ok tt, t) → b ≡ true
assert-inv true s t h = refl
assert-inv false s t h = cc

or_raise-inv :
    {A : Type 0} (o : Option A) (s t : Settings) (a : A)
    → or_raise o value_error s ≡ (ok a, t)
    → o ≡ some a
or_raise-inv (some b) s t a h = ground arith
or_raise-inv none s t a h = ground arith

-- A number that is a byte.
abbrev IsByteNumber : ℤ → Type 0
IsByteNumber n = (b : ℕ) × (n ≡ pos b) × (b < 256)

byte_of : (n : ℤ) → (leb_ℤ (pos 0) n && leb_ℤ n (pos 255)) ≡ true → IsByteNumber n
byte_of (pos b) h = (b, refl, ground arith)
byte_of (negsuc b) h = absurd (ground arith)

assert_bytes-inv :
    (ns : List ℤ) (s t : Settings) → assert_bytes ns s ≡ (ok tt, t) → All IsByteNumber ns
unfolding assert_bytes
assert_bytes-inv [] s t h = tt
assert_bytes-inv (n ∷ ns) s t h =
    let test = leb_ℤ (pos 0) n && leb_ℤ n (pos 255) in
    let (_, s1, one, more) = >>=-inv (assert test) (λ _. assert_bytes ns) h in
    (byte_of n (assert-inv test s s1 one), assert_bytes-inv ns s1 t more)

-- The numbers that the texts stand for.
abbrev AreRead : Unicode → List Text → List ℤ → Type 0
AreRead u [] [] = Unit
AreRead u (x ∷ xs) (n ∷ ns) = (int u x ≡ some n) × AreRead u xs ns
AreRead u [] (n ∷ ns) = ⊥
AreRead u (x ∷ xs) [] = ⊥

ints-inv :
    (u : Unicode) (ss : List Text) (ns : List ℤ) (s t : Settings)
    → ints u ss s ≡ (ok ns, t)
    → AreRead u ss ns
unfolding ints
ints-inv u [] [] s t h = tt
ints-inv u [] (n ∷ ns) s t h = ground arith
ints-inv u (x ∷ xs) ns s t h =
    let (n, s1, one, more) =
      >>=-inv (or_raise (int u x) value_error) (λ n. ints u xs >>= λ ns'. pure (n ∷ ns')) h in
    let (ns', s2, others, last) = >>=-inv (ints u xs) (λ ns'. pure (n ∷ ns')) more in
    let e : n ∷ ns' ≡ ns = ground arith in
    rw (← e) (or_raise-inv (int u x) s s1 n one, ints-inv u xs ns' s1 s2 others)

-- `pack_byte`, by what `int` reads.
byte_outcome : Option ℤ → Py MatchingData ℕ
byte_outcome o = elim o [
  | some (pos n) ↦ if ltb n 256 then pure n else raise value_error
  | some (negsuc n) ↦ raise value_error
  | none ↦ raise value_error
]

pack_number :
    (u : Unicode) (x : Text) (b : ℕ) (md : MatchingData)
    → int u x ≡ some (pos b)
    → b < 256
    → pack_byte u x md ≡ (ok b, md)
unfolding pack_byte byte_outcome
pack_number u x b md read small = ap (λ o. byte_outcome o md) read ∙ rw (lt→ltb b 256 small)

-- The texts of bytes are packed.
pack_bytes-read :
    (u : Unicode) (ss : List Text) (ns : List ℤ)
    → AreRead u ss ns
    → All IsByteNumber ns
    → (bs : Bytes) × (length bs ≡ length ns)
      × IsBytes bs
      × ((md : MatchingData) → pack_bytes u ss md ≡ (ok bs, md))
unfolding pack_bytes
pack_bytes-read u [] [] read bytes = ([], refl, tt, λ md. refl)
pack_bytes-read u [] (n ∷ ns) read bytes = absurd read
pack_bytes-read u (x ∷ xs) [] read bytes = absurd read
pack_bytes-read u (x ∷ xs) (n ∷ ns) (read, rest) ((b, e, small), bytes) =
    let (bs, size, are, packed) = pack_bytes-read u xs ns rest bytes in
    (
      b ∷ bs,
      omega (arith, size),
      (small, are),
      λ md.
          >>=-ok (pack_byte u x) (λ b'. pack_bytes u xs >>= λ bs'. pure (b' ∷ bs'))
            (pack_number u x b md (read ∙ ap (λ m. some m) e) small)
          ∙ >>=-ok (pack_bytes u xs) (λ bs'. pure (b ∷ bs')) (packed md),
    )

-- What the `try` accepts.
check_ip-IsPackable :
    (u : Unicode) (ip : Text) (s t : Settings) → check_ip u ip s ≡ (ok tt, t) → IsPackable u ip
unfolding check_ip
check_ip-IsPackable u ip s t h =
    let (ns, s1, read, more) =
      >>=-inv (ints u (split_dots ip)) (λ l. assert (length l == 4) >> assert_bytes l) h in
    let (_, s2, four, last) = >>=-inv (assert (length ns == 4)) (λ _. assert_bytes ns) more in
    let (bs, size, are, packed) =
      pack_bytes-read u (split_dots ip) ns (ints-inv u (split_dots ip) ns s s1 read)
        (assert_bytes-inv ns s2 t last) in
    (bs, size ∙ (==_iff (length ns) 4).0 (assert-inv (length ns == 4) s1 s2 four), are, packed)

default_ip-IsPackable : (u : Unicode) → IsPackable u default_ip
unfolding split_dots pack_bytes pack_byte int
default_ip-IsPackable u = (192 ∷ 168 ∷ 1 ∷ 1 ∷ [], refl, omega arith, λ md. refl)

-- Whatever the arguments, the ip that the script ends with, and calls `main` with if it does, is a
-- text that session packing makes four bytes of.
pub script-IsPackable :
    (u : Unicode) (argv : List Text) → IsPackable u (script u argv default_settings).1.local_ip
script-IsPackable u argv =
    rw (script-interpret u argv default_settings)
      (interpret-Runs u (IsPackable u) (check_ip-IsPackable u) (drop 1 argv) default_settings
        (default_ip-IsPackable u)).1
