-- ===== src/Packet/Readable.antt =====
-- The packets of the server (common.py), which all have the default name: whatever is packed, a
-- client can read.
use Prim.Native.Nat.{bit_and}
use meet_your_match.Prelude.{ℕ, ◌<◌, ◌^◌, ◌≡◌, ◌≢◌, refl, some, inl, inr, length, arith}
use meet_your_match.Python.{ok, Py, ◌>>=◌, Result-cases, Floats, Keeps, keeps, kept}
use meet_your_match.Struct.{Bytes, to_bytes, pack_uint}
use meet_your_match.Struct.Integers.{from_bytes-to_bytes}
use meet_your_match.Utf8.{encode_text, encode}
use meet_your_match.Constants.{sv_error}
use meet_your_match.Packet.{PacketData, default_name, packet_length, unpackit, packit}
use meet_your_match.Packet.RoundTrip.{IsDouble, joined, unpack_joined, packit-state}

-- A status that says an error.
abbrev pub IsError : ℕ → Type 0
IsError c = bit_and c sv_error ≢ 0

module _ (fl : Floats) where
  open fl use {Float, encode as encode_float}

  -- It has the length of a packet, and `unpackit` returns.
  abbrev pub IsReadable : Bytes → Type 0
  IsReadable bytes =
      (length bytes ≡ packet_length)
      × ((q : PacketData Float) × (unpackit fl {S = Unit {0}} bytes tt ≡ (ok q, tt)))

  packed_fields :
      {S : Type 0} (p : PacketData Float) (name bytes : Bytes) (s t : S)
      → encode_text p.name ≡ some name
      → packit fl p s ≡ (ok bytes, t)
      → bytes ≡ joined fl p name
  unfolding packit encode pack_uint to_bytes
  packed_fields p name bytes s t encoded h = ground arith

  -- It can be read, with this status.
  abbrev pub Carries : ℕ → Bytes → Type 0
  Carries c bytes =
      (length bytes ≡ packet_length)
      × ((q : PacketData Float) × (unpackit fl {S = Unit {0}} bytes tt ≡ (ok q, tt))
          × (q.status ≡ c))

  -- It can be read, and says an error.
  abbrev pub IsRefusal : Bytes → Type 0
  IsRefusal bytes = (c : ℕ) × IsError c × Carries c bytes

  packed_status :
      {S : Type 0} (p : PacketData Float) (bytes : Bytes) (s t : S)
      → packit fl p s ≡ (ok bytes, t)
      → p.status < 256 ^ 4
  unfolding packit encode pack_uint
  packed_status p bytes s t h = ground arith

  -- Whatever of the default name is packed can be read.
  packit-Carries :
      {S : Type 0} (p : PacketData Float) (bytes : Bytes) (s t : S)
      → IsDouble fl
      → p.name ≡ default_name
      → packit fl p s ≡ (ok bytes, t)
      → Carries p.status bytes
  unfolding encode_text
  packit-Carries p bytes s t double named h =
      let encoded : encode_text p.name ≡ some default_name = rw named refl in
      let (total, read) =
        unpack_joined fl {S = Unit {0}} p default_name double encoded (omega arith) in
      let small = packed_status p bytes s t h in
      rw (packed_fields p default_name bytes s t encoded h)
        (total, (_, read tt, from_bytes-to_bytes 4 p.status small))

  pub from_Carries : (c : ℕ) (bytes : Bytes) → Carries c bytes → IsReadable bytes
  from_Carries c bytes (size, (q, read, _)) = (size, (q, read))

  -- What follows the packing need only keep `P` for bytes that carry the status.
  pub packing-Keeps {κ} :
      {S A : Type 0} {P : S → Type κ} (p : PacketData Float) {k : Bytes → Py S A}
      → IsDouble fl
      → p.name ≡ default_name
      → ((bytes : Bytes) → Carries p.status bytes → Keeps P (k bytes))
      → Keeps P (packit fl p >>= k)
  packing-Keeps {P = P} p {k} double named rest = keeps λ s h.
      elim (Result-cases (packit fl p s).0) [
        | inl (bytes, e) ↦
            rw (e, ◌>>=◌)
              (kept
                (rest bytes (
                  packit-Carries p bytes s (packit fl p s).1 double named
                    (λ i. (e i, (packit fl p s).1))))
                (packit fl p s).1 (rw (packit-state fl p s) h))
        | inr (inl (x, e)) ↦ rw (e, ◌>>=◌) (rw (packit-state fl p s) h)
        | inr (inr e) ↦ rw (e, ◌>>=◌) (rw (packit-state fl p s) h)
      ]
