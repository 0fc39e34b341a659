-- ===== src/Registration/Client.antt =====
-- `Client.__init__`, `set_local_ip` and `set_match_size` (common.py).
use meet_your_match.Prelude.{
  Bool, ◌&&◌, Option, none, some, [], ◌∷◌, map, leb, take, drop, get_elem?,
}
use meet_your_match.Python.{Py, pure, or_raise, ◌>>=◌, ◌>>◌, index_error, Address}
use meet_your_match.Struct.{Bytes, from_bytes}
use meet_your_match.Text.{decimal, join_dots}
use meet_your_match.Packet.{PacketData}
use meet_your_match.Classes.{Class, assignable}
use meet_your_match.Member.{Client}
use meet_your_match.Constants.{max_match_size}

-- `unpack('4BH', data)`, in the byte order of the machine, which is little-endian; none if the
-- length is not 6. The four bytes become a dotted ip.
unfoldable pub read_address : Bytes → Option Address
unfolding from_bytes decimal join_dots
read_address (a ∷ b ∷ c ∷ d ∷ low ∷ high ∷ []) = some (record {
  ip = join_dots (map decimal (a ∷ b ∷ c ∷ d ∷ []));
  port = from_bytes (low ∷ high ∷ []);
})
read_address _ = none

-- `set_local_ip`: it catches every exception, and then leaves the slot empty.
unfoldable pub set_local_ip : {F : Type 0} → PacketData F → Option Address
unfolding read_address
set_local_ip pdata = read_address (take 6 (drop 1 pdata.client_data))

-- `Client(pdata, address)`
unfoldable pub new_client : {F : Type 0} → PacketData F → Address → Client
unfolding set_local_ip
new_client pdata address = record {
  name = pdata.name;
  status = pdata.status;
  address = address;
  match_size = 0;
  local_address = set_local_ip pdata;
}

-- `set_match_size`: the first byte of the data, which is assigned to `self.client_ct`
unfoldable pub set_match_size : {F S : Type 0} → PacketData F → Py S Bool
unfolding assignable
set_match_size pdata = do
  client_ct ← or_raise (get_elem? pdata.client_data 0) index_error
  assignable Class.client "client_ct"
  pure (leb 1 client_ct && leb client_ct max_match_size)
