-- ===== src/Matchmaker/Running.antt =====
-- Whether the parts of a round of matchmaking that take no lock can wait (match.py, common.py).
pub mod Thread
use Prim.Native.Nat.{bit_and}
use mathlib.Core.Option
use meet_your_match.Prelude.{
  ℕ, ◌≡◌, ◌≢◌, refl, ap, ◌∙◌, inl, inr, true, false, not, Option, none, some, List, [], ◌∷◌, ◌++◌,
  map, arith, length, ltb, index_where, Option-cases, Bool-cases, ◌^◌, ◌-◌, zero, suc, ◌==◌,
  if◌then◌else◌,
}
use meet_your_match.Prelude.Int.{ℤ, pos, leb_ℤ}
use meet_your_match.Python.{
  Result, ok, raised, blocked, Py, Text, Exception, attribute_error, modify, unicode_error,
  overflow_error, pure, raise, gets, Address, Floats, same_address, ◌>>=◌, ◌>>◌, >>=-ok, Runs,
  pure-Runs, raise-Runs, or_raise-Runs, on_part-Runs, if-Runs, >>=-Runs, if-elim, values,
}
use meet_your_match.Utf8.{encode, encode_text}
use meet_your_match.Struct.{Bytes, pack_uint, pack_text, to_bytes}
use meet_your_match.Text.{Unicode, split_dots}
use meet_your_match.Constants.{max_group_pack}
use meet_your_match.Packet.{PacketData, unpackit, packit}
use meet_your_match.Matching.{
  write, dict_of, update, assigned, Ref, Store, Session, MatchingData, has_address, drop_client,
  drop_sessions, acquire_lock, release_lock,
}
use meet_your_match.Matching as Data
use meet_your_match.Member.{Attributes}
use meet_your_match.Matchmaker.Pack.{
  trailer, session_data, pack_byte, pack_bytes, pack_item, pack_items, pack_session,
}
use meet_your_match.Matchmaker.Pairing.{
  tire, drop_silent, expire_client, expire, pair, open_session,
}
use meet_your_match.Matchmaker.Pairing.Sizes.{none_open, pair_lem}

-- However the loop over the sessions ends, it does not wait.
drop_sessions-ends :
    (objects : Store) (n : ℕ) (a : Address) (ss : List Session) (unmatched : List Ref)
    → (drop_sessions objects n a ss unmatched).0 ≢ blocked
unfolding drop_sessions drop_client
drop_sessions-ends objects n a [] unmatched = λ q. cc
drop_sessions-ends objects n a (s ∷ ss) unmatched =
    λ q. ground (arith, drop_sessions-ends objects n a ss unmatched)

drop-Runs : (a : Address) → Runs (λ (md : MatchingData). Unit {0}) (Data.drop a)
unfolding Data.drop
drop-Runs a md h = (drop_sessions-ends md.objects md.max_user_ct a md.sessions _, tt)

pub dict_of-Runs : (r : Ref) → Runs (λ (md : MatchingData). Unit {0}) (dict_of r)
dict_of-Runs r md h =
    or_raise-Runs (λ (d : MatchingData). Unit {0}) (md.objects r).dict attribute_error md tt

write-Runs :
    (f : Attributes → Attributes) (r : Ref) → Runs (λ (md : MatchingData). Unit {0}) (write f r)
write-Runs f r =
    >>=-Runs (λ (md : MatchingData). Unit {0}) (dict_of r)
      (λ d.
        modify (λ md. record md { objects = update md.objects r (assigned (md.objects r) (f d)) }))
      (dict_of-Runs r) (λ d md h. (λ q. cc, tt))

drop_silent-Runs : (r : Ref) → Runs (λ (md : MatchingData). Unit {0}) (drop_silent r)
unfolding drop_silent
drop_silent-Runs r =
    >>=-Runs (λ (md : MatchingData). Unit {0}) (dict_of r)
      (λ d md. (if leb_ℤ d.alive_ctr (pos 0) then Data.drop (md.objects r).address else pure tt) md)
      (dict_of-Runs r)
      (λ d md.
        if-Runs (λ (d : MatchingData). Unit {0}) (leb_ℤ d.alive_ctr (pos 0))
          (Data.drop (md.objects r).address) (pure tt) (drop-Runs (md.objects r).address)
          (λ d g. (λ q. cc, tt)) md)

pub expire_client-Runs : (r : Ref) → Runs (λ (md : MatchingData). Unit {0}) (expire_client r)
unfolding expire_client
expire_client-Runs r =
    >>=-Runs (λ (md : MatchingData). Unit {0}) (write tire r) (λ _. drop_silent r)
      (write-Runs tire r) (λ _. drop_silent-Runs r)

pub expire-Runs : (rs : List Ref) → Runs (λ (md : MatchingData). Unit {0}) (expire rs)
unfolding expire
expire-Runs [] = λ md h. (λ q. cc, tt)
expire-Runs (r ∷ rs) =
    >>=-Runs (λ (md : MatchingData). Unit {0}) (expire_client r) (λ _. expire rs)
      (expire_client-Runs r) (λ _. expire-Runs rs)

pub pair-Runs : (rs : List Ref) → Runs (λ (md : MatchingData). Unit {0}) (pair 0 rs)
unfolding pair
pair-Runs [] md h = (λ q. cc, tt)
pair-Runs (r ∷ rs) md h = elim (Option-cases (open_session 0 md.sessions)) [
  | inl closed ↦ rw ((pair_lem r rs md).0 closed) (λ q. cc, tt)
  | inr (i, found) ↦ rw ((pair_lem r rs md).1 i found) (λ q. cc, tt)
]

module _ {S : Type 0} (P : S → Type 0) (u : Unicode) where
  pack_byte-Runs : (s : Text) → Runs P (pack_byte u s)
  unfolding pack_byte
  pack_byte-Runs s t h = ground arith

  pack_bytes-Runs : (ss : List Text) → Runs P (pack_bytes u ss)
  unfolding pack_bytes
  pack_bytes-Runs [] = pure-Runs P []
  pack_bytes-Runs (s ∷ ss) =
      >>=-Runs P (pack_byte u s) (λ b. pack_bytes u ss >>= λ bs. pure (b ∷ bs)) (pack_byte-Runs s)
        (λ b.
          >>=-Runs P (pack_bytes u ss) (λ bs. pure (b ∷ bs)) (pack_bytes-Runs ss)
            (λ bs. pure-Runs P (b ∷ bs)))

  pack_uint-Runs : (e : Exception) (k n : ℕ) → Runs P (pack_uint e k n)
  unfolding pack_uint
  pack_uint-Runs e k n =
      if-Runs P (ltb n (256 ^ k)) (pure (to_bytes k n)) (raise e) (pure-Runs P (to_bytes k n))
        (raise-Runs P e)

  encode-Runs : (s : Text) → Runs P (encode s)
  unfolding encode
  encode-Runs s = or_raise-Runs P (encode_text s) unicode_error

  pack_item-Runs : (item : Text × Address) → Runs P (pack_item u item)
  unfolding pack_item
  pack_item-Runs (name, a) =
      >>=-Runs P (pack_bytes u (split_dots a.ip)) with_ip (pack_bytes-Runs (split_dots a.ip)) (λ ip.
        >>=-Runs P (pack_uint overflow_error 2 a.port) (with_port ip)
          (pack_uint-Runs overflow_error 2 a.port)
          (λ port.
            >>=-Runs P (encode name) (packed ip port) (encode-Runs name)
              (λ n. pure-Runs P (pack_text 16 n ++ pack_text 6 (ip ++ port)))))
    where
      packed : Bytes → Bytes → Bytes → Py S Bytes
      packed ip port n = pure (pack_text 16 n ++ pack_text 6 (ip ++ port))

      with_port : Bytes → Bytes → Py S Bytes
      with_port ip port = encode name >>= packed ip port

      with_ip : Bytes → Py S Bytes
      with_ip ip = pack_uint overflow_error 2 a.port >>= with_port ip

  pack_items-Runs : (room : ℕ) (items : List (Text × Address)) → Runs P (pack_items u room items)
  unfolding pack_items
  pack_items-Runs zero items = pure-Runs P []
  pack_items-Runs (suc room) [] = pure-Runs P []
  pack_items-Runs (suc room) (item ∷ items) =
      >>=-Runs P (pack_item u item)
        (λ packed. pack_items u room items >>= λ rest. pure (packed ++ rest)) (pack_item-Runs item)
        (λ packed.
          >>=-Runs P (pack_items u room items) (λ rest. pure (packed ++ rest))
            (pack_items-Runs room items) (λ rest. pure-Runs P (packed ++ rest)))

pub pack_session-Runs :
    (u : Unicode) (session : Session)
    → Runs (λ (md : MatchingData). Unit {0}) (pack_session u session)
unfolding pack_session
pack_session-Runs u session md h =
    >>=-Runs (λ (d : MatchingData). Unit {0})
      (pack_items u (max_group_pack - 1) (session_data md session)) (λ bs. pure (bs ++ trailer))
      (pack_items-Runs (λ _. Unit {0}) u (max_group_pack - 1) (session_data md session))
      (λ bs. pure-Runs (λ _. Unit {0}) (bs ++ trailer)) md tt

module _ (fl : Floats) {S : Type 0} (P : S → Type 0) where
  pub packit-Runs : (p : PacketData fl.Float) → Runs P (packit fl p)
  unfolding packit encode pack_uint
  packit-Runs p s h = ground arith

  pub unpackit-Runs : (bytes : Bytes) → Runs P (unpackit fl bytes)
  unfolding unpackit
  unpackit-Runs bytes s h = ground arith
