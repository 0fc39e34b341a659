-- ===== src/Struct.antt =====
-- What the server uses of `struct` and of `bytes`: little-endian unsigned integers, and byte fields
-- of a fixed width. A byte is a number below 256.
pub mod Integers
pub mod Fields
use meet_your_match.Prelude.{
  ℕ, zero, suc, ◌+◌, ◌*◌, ◌/◌, ◌%◌, ◌^◌, List, [], ◌∷◌, ◌++◌, ltb, take, replicate, if◌then◌else◌,
}
use meet_your_match.Python.{Py, Exception, pure, raise}

abbrev pub Bytes : Type 0
Bytes = List ℕ

-- the low `k` bytes of `n`, the lowest first
unfoldable pub to_bytes : ℕ → ℕ → Bytes
to_bytes zero n = []
to_bytes (suc k) n = (n % 256) ∷ to_bytes k (n / 256)

unfoldable pub from_bytes : Bytes → ℕ
from_bytes [] = 0
from_bytes (b ∷ bs) = b + 256 * from_bytes bs

-- The formats `B`, `H` and `I` for `k` of 1, 2 and 4, and `int.to_bytes(n, k, 'little')`: a number
-- that does not fit raises the given exception.
unfoldable pub pack_uint : {S : Type 0} → Exception → ℕ → ℕ → Py S Bytes
unfolding to_bytes
pack_uint e k n = if ltb n (256 ^ k) then pure (to_bytes k n) else raise e

-- The format `ks`: cut to `k` bytes, or filled up with zeros.
unfoldable pub pack_text : ℕ → Bytes → Bytes
pack_text zero bs = []
pack_text (suc k) [] = 0 ∷ pack_text k []
pack_text (suc k) (b ∷ bs) = b ∷ pack_text k bs
