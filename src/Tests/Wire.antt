-- ===== src/Tests/Wire.antt =====
-- Examples for packets, texts and integers.
use meet_your_match.Prelude.{
  ℕ, ◌+◌, ◌*◌, ◌≤◌, ◌≡◌, refl, Bool, true, some, [], ◌∷◌, ◌++◌, arith, length, replicate,
}
use meet_your_match.Python.{ok, Text}
use meet_your_match.Struct.{Bytes, pack_text, pack_uint}
use meet_your_match.Utf8.{encode, encode_text}
use meet_your_match.Packet.{PacketData, packit, unpackit, packet_length}
use meet_your_match.Packet.RoundTrip.{Fits, unpackit-packit}
use meet_your_match.Registration.Client.{read_address}
use meet_your_match.Text.{split_dots, int}
use meet_your_match.Constants.{max_clbytes}
use meet_your_match.Matchmaker.Pack.{
  pack_byte, pack_bytes, pack_item, pack_items, trailer, session_data, pack_session,
}
use meet_your_match.Matchmaker.Pack.Sizes.{packed_count, pack_session_bounds}
use meet_your_match.Matchmaker.Pack.Reading.{AreRead, pack_session-AreRead}
use meet_your_match.Tests.Samples.{bits, bits-IsDouble, ascii, lobby, one_session}

-- ż€, two code points of two and three bytes
abbrev zeuro : Text
zeuro = 0x17c ∷ 0x20ac ∷ []

abbrev zeuro_bytes : Bytes
zeuro_bytes = 0xc5 ∷ 0xbc ∷ 0xe2 ∷ 0x82 ∷ 0xac ∷ []

abbrev packet : PacketData Bool
packet = record {
  status = 3;
  flags = 1;
  time_stamp = true;
  name = zeuro;
  admin_key = some zeuro;
  client_data = 4 ∷ 192 ∷ 168 ∷ 1 ∷ 7 ∷ 97 ∷ 30 ∷ [];
}

packet-Fits : Fits packet zeuro_bytes
unfolding encode_text
packet-Fits = record {
  status = omega arith;
  flags = omega arith;
  name_bytes = refl;
  name_length = omega arith;
  data_length = omega arith;
}

unpackit-packit_example :
    (bytes : Bytes) × ((s : ℕ) → packit bits packet s ≡ (ok bytes, s))
    × (length bytes ≡ packet_length)
    × ((s : ℕ)
        → unpackit bits bytes s ≡ (
          ok (record packet {
            name = zeuro ++ replicate 11 0;
            admin_key = some (replicate 16 0);
            client_data = packet.client_data ++ replicate 453 0;
          }),
          s,
        ))
unpackit-packit_example = unpackit-packit bits packet zeuro_bytes bits-IsDouble packet-Fits

-- the item of a member of the lobby
abbrev ada_bytes : ℕ → Bytes
ada_bytes d =
    b'A' ∷ b'd' ∷ b'a' ∷ 0 ∷ 0 ∷ 0 ∷ 0 ∷ 0 ∷ 0 ∷ 0 ∷ 0 ∷ 0 ∷ 0 ∷ 0 ∷ 0 ∷ 0 ∷ 10 ∷ 0 ∷ 0 ∷ d ∷ 97
    ∷ 30 ∷ []

abbrev lobby_bytes : Bytes
lobby_bytes = ada_bytes 1 ++ (ada_bytes 2 ++ trailer)

pack_session_bounds_example :
    (length lobby_bytes ≡ 22 * packed_count 19 (session_data lobby one_session) + 6)
    × (length lobby_bytes ≤ max_clbytes)
unfolding pack_session pack_items pack_item pack_bytes pack_byte split_dots int encode encode_text
    pack_text pack_uint
pack_session_bounds_example = pack_session_bounds ascii one_session lobby lobby lobby_bytes refl

abbrev ada : Bytes
ada = b'A' ∷ b'd' ∷ b'a' ∷ []

pack_session-AreRead_example :
    (bytes : Bytes) × (pack_session ascii one_session lobby ≡ (ok bytes, lobby))
    × AreRead 19 (session_data lobby one_session) bytes
unfolding encode_text read_address
pack_session-AreRead_example = pack_session-AreRead ascii one_session lobby (
  (ada, 10 ∷ 0 ∷ 0 ∷ 1 ∷ 97 ∷ 30 ∷ [], (omega arith, refl, refl)),
  ((ada, 10 ∷ 0 ∷ 0 ∷ 2 ∷ 97 ∷ 30 ∷ [], (omega arith, refl, refl)), tt),
)
