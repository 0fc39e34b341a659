-- ===== src/Matchmaker/Pack/Layout.antt =====
-- The items of `pack_session` (common.py) against `set_local_ip` (common.py), which reads addresses.
use meet_your_match.Prelude.{
  ℕ, ◌<◌, ◌≡◌, refl, ap, ◌∙◌, Option, none, some, [], ◌∷◌, ◌++◌, map, arith, lt→ltb, ltb,
  if◌then◌else◌,
}
use meet_your_match.Prelude.Int.{ℤ, pos, negsuc}
use meet_your_match.Python.{
  ok, Py, pure, raise, value_error, overflow_error, Text, Address, ◌>>=◌, >>=-ok,
}
use meet_your_match.Struct.{Bytes, to_bytes, from_bytes, pack_uint, pack_text}
use meet_your_match.Struct.Integers.{IsBytes}
use meet_your_match.Utf8.{encode_text, encode}
use meet_your_match.Text.{Unicode, decimal, join_dots, split_dots}
use meet_your_match.Text.Decimal.{int-decimal, split_dots-join_dots, decimal-HasNoDot}
use meet_your_match.Registration.Client.{read_address}
use meet_your_match.Matchmaker.Pack.{pack_byte, pack_bytes, pack_item}

module _ (u : Unicode) {S : Type 0} (s : S) where
  pack_byte-decimal : (n : ℕ) → n < 256 → pack_byte u (decimal n) s ≡ (ok n, s)
  unfolding pack_byte
  pack_byte-decimal n h = ap (λ o. read o s) (int-decimal u n h) ∙ rw (lt→ltb n 256 h)
    where
      read : Option ℤ → Py S ℕ
      read o = elim o [
        | some (pos n) ↦ if ltb n 256 then pure n else raise value_error
        | some (negsuc n) ↦ raise value_error
        | none ↦ raise value_error
      ]

  pack_bytes-decimal : (bs : Bytes) → IsBytes bs → pack_bytes u (map decimal bs) s ≡ (ok bs, s)
  unfolding pack_bytes
  pack_bytes-decimal [] h = refl
  pack_bytes-decimal (b ∷ bs) h =
      >>=-ok (pack_byte u (decimal b))
        (λ b'. pack_bytes u (map decimal bs) >>= λ bs'. pure (b' ∷ bs')) (pack_byte-decimal b h.0)
      ∙ >>=-ok (pack_bytes u (map decimal bs)) (λ bs'. pure (b ∷ bs')) (pack_bytes-decimal bs h.1)

  pack_port :
      (low high : ℕ)
      → low < 256
      → high < 256
      → pack_uint overflow_error 2 (from_bytes (low ∷ high ∷ [])) s ≡ (ok (low ∷ high ∷ []), s)
  unfolding pack_uint to_bytes from_bytes
  pack_port low high hl hh = ground arith

  -- The rest of `pack_item`, once the ip is packed, and once the port is.
  with_port : Text → Bytes → Bytes → Py S Bytes
  with_port text ip port = do
    encoded ← encode text
    pure (pack_text 16 encoded ++ pack_text 6 (ip ++ port))

  with_ip : Text → ℕ → Bytes → Py S Bytes
  with_ip text port ip = do packed ← pack_uint overflow_error 2 port; with_port text ip packed

  pack_ip :
      (a b c d : ℕ)
      → IsBytes (a ∷ b ∷ c ∷ d ∷ [])
      → pack_bytes u (split_dots (join_dots (map decimal (a ∷ b ∷ c ∷ d ∷ [])))) s
        ≡ (ok (a ∷ b ∷ c ∷ d ∷ []), s)
  pack_ip a b c d (ha, (hb, (hc, (hd, h)))) =
      rw
        (split_dots-join_dots (decimal a) (map decimal (b ∷ c ∷ d ∷ [])) (
          decimal-HasNoDot a ha,
          (decimal-HasNoDot b hb, (decimal-HasNoDot c hc, (decimal-HasNoDot d hd, tt))),
        ))
        (pack_bytes-decimal (a ∷ b ∷ c ∷ d ∷ []) (ha, (hb, (hc, (hd, tt)))))

  pack_quad :
      (name : Bytes) (text : Text) (a b c d low high : ℕ)
      → IsBytes (a ∷ b ∷ c ∷ d ∷ low ∷ high ∷ [])
      → encode_text text ≡ some name
      → pack_item u
          (
            text,
            record {
              ip = join_dots (map decimal (a ∷ b ∷ c ∷ d ∷ []));
              port = from_bytes (low ∷ high ∷ []);
            },
          )
          s
        ≡ (ok (pack_text 16 name ++ (a ∷ b ∷ c ∷ d ∷ low ∷ high ∷ [])), s)
  unfolding pack_item pack_text encode with_ip with_port
  pack_quad name text a b c d low high (ha, (hb, (hc, (hd, (hl, (hh, h)))))) encoded =
      let port = from_bytes (low ∷ high ∷ []) in
      >>=-ok (pack_bytes u (split_dots (join_dots (map decimal (a ∷ b ∷ c ∷ d ∷ [])))))
        (with_ip text port) (pack_ip a b c d (ha, (hb, (hc, (hd, tt)))))
      ∙ >>=-ok (pack_uint overflow_error 2 port) (with_port text (a ∷ b ∷ c ∷ d ∷ []))
          (pack_port low high hl hh)
      ∙ rw encoded

  -- An address that `set_local_ip` reads from six bytes is packed by `pack_session` into the same six
  -- bytes, behind the name in its field of 16.
  pub pack_item-read_address :
      (name bs : Bytes) (text : Text) (address : Address)
      → IsBytes bs
      → read_address bs ≡ some address
      → encode_text text ≡ some name
      → pack_item u (text, address) s ≡ (ok (pack_text 16 name ++ bs), s)
  unfolding read_address
  pack_item-read_address name (a ∷ b ∷ c ∷ d ∷ low ∷ high ∷ []) text address h read encoded =
      let same : address ≡ record {
        ip = join_dots (map decimal (a ∷ b ∷ c ∷ d ∷ []));
        port = from_bytes (low ∷ high ∷ []);
      } =
        ground arith in
      rw same (pack_quad name text a b c d low high h encoded)
  pack_item-read_address name [] text address h read encoded = cc
  pack_item-read_address name (a ∷ []) text address h read encoded = cc
  pack_item-read_address name (a ∷ b ∷ []) text address h read encoded = cc
  pack_item-read_address name (a ∷ b ∷ c ∷ []) text address h read encoded = cc
  pack_item-read_address name (a ∷ b ∷ c ∷ d ∷ []) text address h read encoded = cc
  pack_item-read_address name (a ∷ b ∷ c ∷ d ∷ e ∷ []) text address h read encoded = cc
  pack_item-read_address name (a ∷ b ∷ c ∷ d ∷ e ∷ f ∷ g ∷ bs) text address h read encoded = cc
