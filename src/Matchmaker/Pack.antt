-- ===== src/Matchmaker/Pack.antt =====
-- `pack_session` (common.py): a session's names and addresses, in the data of a packet.
pub mod Layout
pub mod Sizes
pub mod Reading
use meet_your_match.Prelude.{
  ℕ, zero, suc, ◌+◌, ◌-◌, Option, none, some, List, [], ◌∷◌, ◌++◌, map, ltb, if◌then◌else◌,
}
use meet_your_match.Prelude.Int.{ℤ, pos, negsuc}
use meet_your_match.Python.{
  Result, ok, raised, Py, pure, raise, gets, ◌>>=◌, ◌>>◌, value_error, overflow_error, Text,
  Address,
}
use meet_your_match.Struct.{Bytes, pack_uint, pack_text}
use meet_your_match.Utf8.{encode}
use meet_your_match.Text.{Unicode, split_dots, int}
use meet_your_match.Member.{Member}
use meet_your_match.Matching.{Session, MatchingData}
use meet_your_match.Constants.{max_group_pack}

module _ (u : Unicode) {S : Type 0} where
  -- `int(addr_item)`, as a byte: a ValueError if it is no number, or none of a byte
  unfoldable pub pack_byte : Text → Py S ℕ
  pack_byte s = elim (int u s) [
    | some (pos n) ↦ if ltb n 256 then pure n else raise value_error
    | some (negsuc n) ↦ raise value_error
    | none ↦ raise value_error
  ]

  -- `bytes([int(addr_item) for addr_item in …])`
  unfoldable pub pack_bytes : List Text → Py S Bytes
  pack_bytes [] = pure []
  pack_bytes (s ∷ ss) = do b ← pack_byte s; bs ← pack_bytes ss; pure (b ∷ bs)

  -- one item: the name in 16 bytes, the ip and port in 6
  unfoldable pub pack_item : Text × Address → Py S Bytes
  pack_item (name, address) = do
    ip ← pack_bytes (split_dots address.ip)
    port ← pack_uint overflow_error 2 address.port
    encoded ← encode name
    pure (pack_text 16 encoded ++ pack_text 6 (ip ++ port))

  -- the loop, with `room` items left before the overflow
  unfoldable pub pack_items : ℕ → List (Text × Address) → Py S Bytes
  pack_items zero items = pure []
  pack_items (suc room) [] = pure []
  pack_items (suc room) (item ∷ items) = do
    packed ← pack_item item
    rest ← pack_items room items
    pure (packed ++ rest)

-- b'000009'
abbrev pub trailer : Bytes
trailer = b'0' ∷ b'0' ∷ b'0' ∷ b'0' ∷ b'0' ∷ b'9' ∷ []

-- the host, then the clients
abbrev pub session_data : MatchingData → Session → List (Text × Address)
session_data md session =
    map (λ r. ((md.objects r).name, (md.objects r).address)) (session.host ∷ session.clients)

-- `pack_session`: the new `pdata.client_data`
unfoldable pub pack_session : Unicode → Session → Py MatchingData Bytes
pack_session u session = do
  items ← gets (λ md. session_data md session)
  byte_str ← pack_items u (max_group_pack - 1) items
  pure (byte_str ++ trailer)
