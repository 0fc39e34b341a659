-- ===== src/Packet.antt =====
-- `class PacketData` (common.py): a datagram of 508 bytes.
pub mod RoundTrip
pub mod Readable
use meet_your_match.Prelude.{
  ℕ, ◌+◌, Option, none, some, List, [], ◌∷◌, ◌++◌, length, take, drop, replicate, ◌==◌,
  if◌then◌else◌,
}
use meet_your_match.Python.{Py, pure, raise, ◌>>=◌, ◌>>◌, struct_error, Text, Floats}
use meet_your_match.Struct.{Bytes, from_bytes, pack_uint, pack_text}
use meet_your_match.Utf8.{encode, decode}
use meet_your_match.Constants.{cl_status_none}

pub record PacketData (F : Type 0) : Type 0 where
  pub status : ℕ
  pub flags : ℕ
  pub time_stamp : F
  pub name : Text
  pub admin_key : Option Text
  pub client_data : Bytes

-- 'JoeSevere\0\0\0\0\0\0\0'
abbrev pub default_name : Text
default_name = b'J' ∷ b'o' ∷ b'e' ∷ b'S' ∷ b'e' ∷ b'v' ∷ b'e' ∷ b'r' ∷ b'e' ∷ replicate 7 0

-- the length that the format `<2Id16s16s460s` asks for
abbrev pub packet_length : ℕ
packet_length = 4 + 4 + 8 + 16 + 16 + 460

abbrev pub gap : Bytes
gap = replicate 16 0

module _ (fl : Floats) where
  open fl use {Float, of_nat, encode as encode_float, decode as decode_float}

  -- `__init__`
  abbrev pub new_packet : PacketData Float
  new_packet = record {
    status = cl_status_none;
    flags = 0;
    time_stamp = of_nat 0;
    name = default_name;
    admin_key = none;
    client_data = [];
  }

  -- `unpackit`: the packet that the object then holds. (If it raises, nothing reads the object.)
  unfoldable pub unpackit : {S : Type 0} → Bytes → Py S (PacketData Float)
  unfolding decode from_bytes
  unpackit bytes =
      if length bytes == packet_length
      then (do
        name ← decode (take 16 (drop 16 bytes))
        admin_key ← decode (take 16 (drop 32 bytes))
        pure (record {
          status = from_bytes (take 4 bytes);
          flags = from_bytes (take 4 (drop 4 bytes));
          time_stamp = decode_float (take 8 (drop 8 bytes));
          name = name;
          admin_key = some admin_key;
          client_data = drop 48 bytes;
        }))
      else raise struct_error

  -- `packit`: the admin key is left out, and a gap of 16 zeros stands in its place.
  unfoldable pub packit : {S : Type 0} → PacketData Float → Py S Bytes
  unfolding encode pack_uint pack_text
  packit p = do
    name ← encode p.name
    status ← pack_uint struct_error 4 p.status
    flags ← pack_uint struct_error 4 p.flags
    pure (
        status
        ++ (flags
            ++ (encode_float p.time_stamp
                ++ (pack_text 16 name ++ (pack_text 16 gap ++ pack_text 460 p.client_data)))))
