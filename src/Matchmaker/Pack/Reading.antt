-- ===== src/Matchmaker/Pack/Reading.antt =====
-- Reading the members of a session in the data that `pack_session` (common.py) makes.
use meet_your_match.Prelude.{
  ℕ, zero, suc, ◌*◌, ◌<◌, ◌≡◌, refl, ap, ◌∙◌, some, List, [], ◌∷◌, ◌++◌, arith, length, take, drop,
  get_elem?, drop_past, take_front, length-append, All,
}
use mathlib.Core.List.{append_assoc}
use meet_your_match.Python.{ok, pure, Text, Address, ◌>>=◌, >>=-ok}
use meet_your_match.Struct.{Bytes, pack_text}
use meet_your_match.Struct.Integers.{IsBytes}
use meet_your_match.Struct.Fields.{length-pack_text}
use meet_your_match.Utf8.{encode_text}
use meet_your_match.Text.{Unicode}
use meet_your_match.Registration.Client.{read_address}
use meet_your_match.Matching.{Session, MatchingData}
use meet_your_match.Matchmaker.Pack.{pack_item, pack_items, trailer, session_data, pack_session}
use meet_your_match.Matchmaker.Pack.Layout.{pack_item-read_address}

-- The name is encoded to `name`, and the address is one that `set_local_ip` reads from `bs`.
abbrev IsReadFrom : Text × Address → Bytes → Bytes → Type 0
IsReadFrom (text, address) name bs =
    IsBytes bs × (read_address bs ≡ some address) × (encode_text text ≡ some name)

-- A member whose address `set_local_ip` can have read, and whose name has an encoding.
abbrev pub IsMember : Text × Address → Type 0
IsMember item = (name : Bytes) × (bs : Bytes) × IsReadFrom item name bs

-- The name and the address are at the front of these bytes.
abbrev pub IsAtFront : Text × Address → Bytes → Type 0
IsAtFront (text, address) bytes =
    (name : Bytes) × (encode_text text ≡ some name)
    × (take 16 bytes ≡ pack_text 16 name)
    × (read_address (take 6 (drop 16 bytes)) ≡ some address)

-- Each of the first `room` members is read at its place.
abbrev pub AreRead : ℕ → List (Text × Address) → Bytes → Type 0
AreRead room items bytes =
    (i : ℕ) (item : Text × Address)
    → i < room
    → get_elem? items i ≡ some item
    → IsAtFront item (drop (22 * i) bytes)

read_address-length : (bs : Bytes) (a : Address) → read_address bs ≡ some a → length bs ≡ 6
unfolding read_address
read_address-length (a ∷ b ∷ c ∷ d ∷ e ∷ f ∷ []) address h = refl
read_address-length [] address h = cc
read_address-length (a ∷ []) address h = cc
read_address-length (a ∷ b ∷ []) address h = cc
read_address-length (a ∷ b ∷ c ∷ []) address h = cc
read_address-length (a ∷ b ∷ c ∷ d ∷ []) address h = cc
read_address-length (a ∷ b ∷ c ∷ d ∷ e ∷ []) address h = cc
read_address-length (a ∷ b ∷ c ∷ d ∷ e ∷ f ∷ g ∷ bs) address h = cc

first-IsAtFront :
    (name bs rest : Bytes) (item : Text × Address)
    → IsReadFrom item name bs
    → IsAtFront item ((pack_text 16 name ++ bs) ++ rest)
first-IsAtFront name bs rest (text, address) (_, read, encoded) =
    let field = pack_text 16 name in
    let six = read_address-length bs address read in
    let split : (field ++ bs) ++ rest ≡ field ++ (bs ++ rest) = append_assoc field bs rest in
    (
      name,
      encoded,
      rw split (take_front 16 field (bs ++ rest) (length-pack_text 16 name)),
      rw
          (
            split,
            drop_past 16 0 field (bs ++ rest) (length-pack_text 16 name),
            take_front 6 bs rest six,
          )
          read,
    )

AreRead-cons :
    (room : ℕ) (item : Text × Address) (items : List (Text × Address)) (one rest : Bytes)
    → length one ≡ 22
    → IsAtFront item (one ++ rest)
    → AreRead room items rest
    → AreRead (suc room) (item ∷ items) (one ++ rest)
AreRead-cons room item items one rest size front others zero item' lt at =
    let same : item ≡ item' = cc in rw same at front
AreRead-cons room item items one rest size front others (suc i) item' lt at =
    let next : drop (22 * suc i) (one ++ rest) ≡ drop (22 * i) rest =
      ap (λ n. drop n (one ++ rest)) (omega arith) ∙ drop_past 22 (22 * i) one rest size in
    rw next (others i item' (omega arith) at)

module _ (u : Unicode) {S : Type 0} (s : S) (end : Bytes) where
  pack_items-AreRead :
      (room : ℕ) (items : List (Text × Address))
      → All IsMember items
      → (bytes : Bytes) × (pack_items u room items s ≡ (ok bytes, s))
        × AreRead room items (bytes ++ end)
  unfolding pack_items
  pack_items-AreRead zero items h = ([], refl, λ i item lt at. absurd (omega arith))
  pack_items-AreRead (suc room) [] h = ([], refl, λ i item lt at. cc)
  pack_items-AreRead (suc room) ((text, address) ∷ items) ((name, bs, from), others) =
      let (rest, packed, read) = pack_items-AreRead room items others in
      let (bytes, same, encoded) = from in
      let one = pack_text 16 name ++ bs in
      let size : length one ≡ 22 = omega (
        arith,
        length-append (pack_text 16 name) bs,
        length-pack_text 16 name,
        read_address-length bs address same,
      ) in
      (
        one ++ rest,
        >>=-ok (pack_item u (text, address)) (λ p. pack_items u room items >>= λ r. pure (p ++ r))
              (pack_item-read_address u s name bs text address bytes same encoded)
            ∙ >>=-ok (pack_items u room items) (λ r. pure (one ++ r)) packed,
        λ i item lt at. rw (append_assoc one rest end) (
            AreRead-cons room (text, address) items one (rest ++ end) size
              (first-IsAtFront name bs (rest ++ end) (text, address) from) read i item lt at),
      )

-- If the addresses of the members are such that `set_local_ip` can read them, and their names have
-- an encoding, `pack_session` returns, changes nothing, and in its data a client reads the host and
-- then the clients in their order, the first 19 of them: at 22 bytes for each, the name cut or
-- filled up to 16 bytes, and the address as it was.
pub pack_session-AreRead :
    (u : Unicode) (session : Session) (md : MatchingData)
    → All IsMember (session_data md session)
    → (bytes : Bytes) × (pack_session u session md ≡ (ok bytes, md))
      × AreRead 19 (session_data md session) bytes
unfolding pack_session
pack_session-AreRead u session md members =
    let items = session_data md session in
    let (bytes, packed, read) = pack_items-AreRead u md trailer 19 items members in
    (bytes ++ trailer, >>=-ok (pack_items u 19 items) (λ r. pure (r ++ trailer)) packed, read)
