-- ===== src/Struct/Integers.antt =====
-- Integers in bytes and back.
use meet_your_match.Prelude.{ℕ, zero, suc, ◌/◌, ◌^◌, ◌<◌, ◌≡◌, refl, arith, length, All}
use native.Mathlib.Nat.{pow-suc}
use meet_your_match.Struct.{Bytes, to_bytes, from_bytes}

pub length-to_bytes : (k n : ℕ) → length (to_bytes k n) ≡ k
unfolding to_bytes
length-to_bytes zero n = refl
length-to_bytes (suc k) n = omega (arith, length-to_bytes k (n / 256))

-- A number that fits its width is read back from its bytes.
pub from_bytes-to_bytes : (k n : ℕ) → n < 256 ^ k → from_bytes (to_bytes k n) ≡ n
unfolding to_bytes from_bytes
from_bytes-to_bytes zero n h = omega arith
from_bytes-to_bytes (suc k) n h =
    omega (arith, from_bytes-to_bytes k (n / 256) (omega (arith, pow-suc 256 k)))

-- A byte is below 256.
abbrev pub IsBytes : Bytes → Type 0
IsBytes = All (λ b. b < 256)

pub to_bytes-IsBytes : (k n : ℕ) → IsBytes (to_bytes k n)
unfolding to_bytes
to_bytes-IsBytes zero n = tt
to_bytes-IsBytes (suc k) n = (omega arith, to_bytes-IsBytes k (n / 256))
