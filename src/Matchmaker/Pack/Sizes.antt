-- ===== src/Matchmaker/Pack/Sizes.antt =====
-- How long the packed data of a session are.
use meet_your_match.Prelude.{
  ℕ, zero, suc, ◌+◌, ◌*◌, ◌≤◌, ◌≡◌, refl, sym, ap, ◌∙◌, List, [], ◌∷◌, ◌++◌, arith, length,
  length-append,
}
use meet_your_match.Python.{ok, Py, pure, overflow_error, Text, Address, ◌>>=◌, >>=-inv}
use meet_your_match.Struct.{Bytes, pack_uint, pack_text}
use meet_your_match.Struct.Fields.{length-pack_text}
use meet_your_match.Utf8.{encode}
use meet_your_match.Text.{Unicode, split_dots}
use meet_your_match.Matching.{Session, MatchingData}
use meet_your_match.Constants.{max_clbytes}
use meet_your_match.Matchmaker.Pack.{
  pack_bytes, pack_item, pack_items, trailer, session_data, pack_session,
}

length-field : (name ip : Bytes) → length (pack_text 16 name ++ pack_text 6 ip) ≡ 22
length-field name ip = omega (
  arith,
  length-append (pack_text 16 name) (pack_text 6 ip),
  length-pack_text 16 name,
  length-pack_text 6 ip,
)

-- the items that there is room for
abbrev pub packed_count : ℕ → List (Text × Address) → ℕ
packed_count zero items = 0
packed_count (suc room) [] = 0
packed_count (suc room) (item ∷ items) = suc (packed_count room items)

packed_count-le : (room : ℕ) (items : List (Text × Address)) → packed_count room items ≤ room
packed_count-le zero items = omega arith
packed_count-le (suc room) [] = omega arith
packed_count-le (suc room) (item ∷ items) = omega (arith, packed_count-le room items)

module _ (u : Unicode) {S : Type 0} where
  -- What the parts of an item give, in the order of `pack_item`.
  encoded : Text → Bytes → Bytes → Py S Bytes
  encoded name ip port = do
    bytes ← encode name
    pure (pack_text 16 bytes ++ pack_text 6 (ip ++ port))

  with_port : Text → Address → Bytes → Py S Bytes
  with_port name address ip = do
    port ← pack_uint overflow_error 2 address.port
    encoded name ip port

  length-pack_item :
      (item : Text × Address) (s t : S) (bs : Bytes)
      → pack_item u item s ≡ (ok bs, t)
      → length bs ≡ 22
  unfolding pack_item encoded with_port
  length-pack_item (name, address) s t bs h =
      let (ip, s1, _, rest) =
        >>=-inv (pack_bytes u (split_dots address.ip)) (with_port name address) h in
      let (port, s2, _, rest') =
        >>=-inv (pack_uint overflow_error 2 address.port) (encoded name ip) rest in
      let (bytes, s3, _, last) =
        >>=-inv (encode name) (λ b. pure (pack_text 16 b ++ pack_text 6 (ip ++ port))) rest' in
      let e : pack_text 16 bytes ++ pack_text 6 (ip ++ port) ≡ bs = ground arith in
      ap length (sym e) ∙ length-field bytes (ip ++ port)

  length-pack_items :
      (room : ℕ) (items : List (Text × Address)) (s t : S) (bs : Bytes)
      → pack_items u room items s ≡ (ok bs, t)
      → length bs ≡ 22 * packed_count room items
  unfolding pack_items
  length-pack_items zero items s t bs h = let e : [] ≡ bs = ground arith in rw (← e) refl
  length-pack_items (suc room) [] s t bs h = let e : [] ≡ bs = ground arith in rw (← e) refl
  length-pack_items (suc room) (item ∷ items) s t bs h =
      let (one, s1, first, more) =
        >>=-inv (pack_item u item) (λ p. pack_items u room items >>= λ r. pure (p ++ r)) h in
      let (rest, s2, others, last) =
        >>=-inv (pack_items u room items) (λ r. pure (one ++ r)) more in
      let e : one ++ rest ≡ bs = ground arith in
      rw (← e) (
        omega (
          arith,
          length-append one rest,
          length-pack_item item s s1 one first,
          length-pack_items room items s1 s2 rest others,
        ))

-- Whenever `pack_session` returns, its data are 22 bytes for each of the first 19 members, and 6
-- more, which never exceeds the 460 bytes that a packet has for them.
pub pack_session_bounds :
    (u : Unicode) (session : Session) (md t : MatchingData) (bs : Bytes)
    → pack_session u session md ≡ (ok bs, t)
    → (length bs ≡ 22 * packed_count 19 (session_data md session) + 6) × (length bs ≤ max_clbytes)
unfolding pack_session
pack_session_bounds u session md t bs h =
    let items = session_data md session in
    let (byte_str, s1, packed, last) =
      >>=-inv (pack_items u 19 items) (λ r. pure (r ++ trailer)) h in
    let e : byte_str ++ trailer ≡ bs = ground arith in
    let size = ap length (sym e) ∙ length-append byte_str trailer in
    let total = length-pack_items u 19 items md s1 byte_str packed in
    (omega (arith, size, total), omega (arith, size, total, packed_count-le 19 items))
