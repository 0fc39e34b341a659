-- ===== src/Packet/RoundTrip.antt =====
-- Packing and then unpacking a packet (common.py), and datagrams that are none.
use meet_your_match.Prelude.{
  ℕ, ◌+◌, ◌-◌, ◌^◌, ◌≤◌, ◌<◌, ◌≡◌, ◌≢◌, ◌∙◌, refl, ap, some, ◌++◌, arith, length, take, drop,
  replicate, length-append, drop_past, take_front, lt→ltb,
}
use meet_your_match.Python.{Result, ok, raised, struct_error, Text, Floats}
use meet_your_match.Struct.{Bytes, to_bytes, from_bytes, pack_uint, pack_text}
use meet_your_match.Struct.Integers.{length-to_bytes, from_bytes-to_bytes}
use meet_your_match.Struct.Fields.{length-pack_text, pack_text-fits}
use meet_your_match.Utf8.{encode_text, decode_text, encode}
use meet_your_match.Utf8.RoundTrip.{decode_text-encode}
use meet_your_match.Packet.{PacketData, packet_length, gap, unpackit, packit}

-- What the server relies on of the format `d`: eight bytes that give the number back.
pub record IsDouble (fl : Floats) : Type 0 where
  pub length-encode : (x : fl.Float) → length (fl.encode x) ≡ 8
  pub decode-encode : (x : fl.Float) → fl.decode (fl.encode x) ≡ x

-- A packet that fits its format: the name is at most 16 bytes, the data at most 460.
pub record Fits {F : Type 0} (p : PacketData F) (name : Bytes) : Type 0 where
  pub status : p.status < 2 ^ 32
  pub flags : p.flags < 2 ^ 32
  pub name_bytes : encode_text p.name ≡ some name
  pub name_length : length name ≤ 16
  pub data_length : length p.client_data ≤ 460

-- The six fields of a packet, one behind the other, and where each stands.
abbrev join : Bytes → Bytes → Bytes → Bytes → Bytes → Bytes → Bytes
join a b c d e f = a ++ (b ++ (c ++ (d ++ (e ++ f))))

module _ (a b c d e f : Bytes) (la : length a ≡ 4) (lb : length b ≡ 4) (lc : length c ≡ 8)
    (ld : length d ≡ 16) (le : length e ≡ 16) where
  length-join : length f ≡ 460 → length (join a b c d e f) ≡ packet_length
  length-join lf = omega (
    arith,
    length-append a (b ++ (c ++ (d ++ (e ++ f)))),
    length-append b (c ++ (d ++ (e ++ f))),
    length-append c (d ++ (e ++ f)),
    length-append d (e ++ f),
    length-append e f,
  )

  at_flags : take 4 (drop 4 (join a b c d e f)) ≡ b
  at_flags = ap (take 4) (drop_past 4 0 a _ la) ∙ take_front 4 b _ lb

  at_time : take 8 (drop 8 (join a b c d e f)) ≡ c
  at_time = ap (take 8) (drop_past 4 4 a _ la ∙ drop_past 4 0 b _ lb) ∙ take_front 8 c _ lc

  at_name : take 16 (drop 16 (join a b c d e f)) ≡ d
  at_name =
      ap (take 16) (drop_past 4 12 a _ la ∙ drop_past 4 8 b _ lb ∙ drop_past 8 0 c _ lc)
      ∙ take_front 16 d _ ld

  at_key : take 16 (drop 32 (join a b c d e f)) ≡ e
  at_key =
      ap (take 16) (
        drop_past 4 28 a _ la
        ∙ drop_past 4 24 b _ lb
        ∙ drop_past 8 16 c _ lc
        ∙ drop_past 16 0 d _ ld)
      ∙ take_front 16 e _ le

  at_data : drop 48 (join a b c d e f) ≡ f
  at_data =
      drop_past 4 44 a _ la
      ∙ drop_past 4 40 b _ lb
      ∙ drop_past 8 32 c _ lc
      ∙ drop_past 16 16 d _ ld
      ∙ drop_past 16 0 e _ le

fills : (k n : ℕ) → n ≤ k → n + (k - n) ≡ k
fills k n h = omega arith

-- What the name field and the gap are decoded to.
name_text :
    (s : Text) (bs : Bytes)
    → encode_text s ≡ some bs
    → length bs ≤ 16
    → decode_text (pack_text 16 bs) ≡ some (s ++ replicate (16 - length bs) 0)
name_text s bs h short =
    rw (pack_text-fits 16 (16 - length bs) bs (fills 16 (length bs) short))
      (decode_text-encode s bs (16 - length bs) h).1

key_text : decode_text (pack_text 16 gap) ≡ some gap
unfolding decode_text pack_text
key_text = refl

-- The bytes that a packet is packed into, with this name.
abbrev pub joined : (fl : Floats) → PacketData fl.Float → Bytes → Bytes
joined fl p name =
    join (to_bytes 4 p.status) (to_bytes 4 p.flags) (fl.encode p.time_stamp) (pack_text 16 name)
      (pack_text 16 gap) (pack_text 460 p.client_data)

module _ (fl : Floats) {S : Type 0} where
  unpack_fields :
      (x a b c d e f : Bytes) {name key : Text} (s : S)
      → length x ≡ packet_length
      → take 4 x ≡ a
      → take 4 (drop 4 x) ≡ b
      → take 8 (drop 8 x) ≡ c
      → take 16 (drop 16 x) ≡ d
      → take 16 (drop 32 x) ≡ e
      → drop 48 x ≡ f
      → decode_text d ≡ some name
      → decode_text e ≡ some key
      → unpackit fl x s ≡ (
        ok (record {
          status = from_bytes a;
          flags = from_bytes b;
          time_stamp = fl.decode c;
          name = name;
          admin_key = some key;
          client_data = f;
        }),
        s,
      )
  unfolding unpackit
  unpack_fields x a b c d e f s total pa pb pc pd pe pf hd he =
      rw (total, pd, hd, pe, he, pa, pb, pc, pf)

  pack_fields :
      (p : PacketData fl.Float) (name : Bytes) (s : S)
      → Fits p name
      → packit fl p s ≡ (ok (joined fl p name), s)
  unfolding packit to_bytes
  pack_fields p name s h =
      rw (h.name_bytes, lt→ltb p.status (256 ^ 4) h.status, lt→ltb p.flags (256 ^ 4) h.flags)

  pub unpack_joined :
      (p : PacketData fl.Float) (name : Bytes)
      → IsDouble fl
      → encode_text p.name ≡ some name
      → length name ≤ 16
      → (length (joined fl p name) ≡ packet_length)
        × ((s : S)
            → unpackit fl (joined fl p name) s ≡ (
              ok (record {
                status = from_bytes (to_bytes 4 p.status);
                flags = from_bytes (to_bytes 4 p.flags);
                time_stamp = fl.decode (fl.encode p.time_stamp);
                name = p.name ++ replicate (16 - length name) 0;
                admin_key = some (replicate 16 0);
                client_data = pack_text 460 p.client_data;
              }),
              s,
            ))
  unpack_joined p name double encoded short =
      let a = to_bytes 4 p.status in
      let b = to_bytes 4 p.flags in
      let c = fl.encode p.time_stamp in
      let d = pack_text 16 name in
      let e = pack_text 16 gap in
      let f = pack_text 460 p.client_data in
      let la = length-to_bytes 4 p.status in
      let lb = length-to_bytes 4 p.flags in
      let lc = double.length-encode p.time_stamp in
      let ld = length-pack_text 16 name in
      let le = length-pack_text 16 gap in
      let total = length-join a b c d e f la lb lc ld le (length-pack_text 460 p.client_data) in
      (
        total,
        λ s.
            unpack_fields (join a b c d e f) a b c d e f s total (take_front 4 a _ la)
              (at_flags a b c d e f la lb lc ld le) (at_time a b c d e f la lb lc ld le)
              (at_name a b c d e f la lb lc ld le) (at_key a b c d e f la lb lc ld le)
              (at_data a b c d e f la lb lc ld le) (name_text p.name name encoded short) key_text,
      )

  -- Every packet that fits its format is packed, in 508 bytes, and read back: the name and the
  -- data come back with zeros behind them, and the admin key as 16 zeros.
  pub unpackit-packit :
      (p : PacketData fl.Float) (name : Bytes)
      → IsDouble fl
      → Fits p name
      → (bytes : Bytes) × ((s : S) → packit fl p s ≡ (ok bytes, s))
        × (length bytes ≡ packet_length)
        × ((s : S)
            → unpackit fl bytes s ≡ (
              ok (record p {
                name = p.name ++ replicate (16 - length name) 0;
                admin_key = some (replicate 16 0);
                client_data = p.client_data ++ replicate (460 - length p.client_data) 0;
              }),
              s,
            ))
  unpackit-packit p name double h =
      let (total, read) = unpack_joined p name double h.name_bytes h.name_length in
      (joined fl p name, λ s. pack_fields p name s h, total, λ s. read s ∙ fields s)
    where
      fields :
          (s : S)
          → ◌≡◌ {A = Result (PacketData fl.Float) × S}
              (
                ok (record {
                  status = from_bytes (to_bytes 4 p.status);
                  flags = from_bytes (to_bytes 4 p.flags);
                  time_stamp = fl.decode (fl.encode p.time_stamp);
                  name = p.name ++ replicate (16 - length name) 0;
                  admin_key = some (replicate 16 0);
                  client_data = pack_text 460 p.client_data;
                }),
                s,
              )
              (
                ok (record p {
                  name = p.name ++ replicate (16 - length name) 0;
                  admin_key = some (replicate 16 0);
                  client_data = p.client_data ++ replicate (460 - length p.client_data) 0;
                }),
                s,
              )
      fields s = rw (
        from_bytes-to_bytes 4 p.status h.status,
        from_bytes-to_bytes 4 p.flags h.flags,
        double.decode-encode p.time_stamp,
        pack_text-fits 460 (460 - length p.client_data) p.client_data
            (fills 460 (length p.client_data) h.data_length),
      )

  -- A datagram of any other length raises a `struct.error`.
  pub unpackit-length :
      (bytes : Bytes) (s : S)
      → length bytes ≢ packet_length
      → unpackit fl bytes s ≡ (raised struct_error, s)
  unfolding unpackit
  unpackit-length bytes s h = ground arith

-- Reading a packet changes no state.
pub unpackit-state :
    (fl : Floats) {S : Type 0} (bytes : Bytes) (s : S) → (unpackit fl bytes s).1 ≡ s
unfolding unpackit
unpackit-state fl bytes s = ground arith

pub packit-state :
    (fl : Floats) {S : Type 0} (p : PacketData fl.Float) (s : S) → (packit fl p s).1 ≡ s
unfolding packit encode pack_uint
packit-state fl p s = ground arith
