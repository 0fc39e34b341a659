-- ===== src/Registration/Latencies.antt =====
-- `Client.unpack_host_latency_info` (common.py), which the server does not call.
use meet_your_match.Prelude.{
  ℕ, zero, suc, ◌+◌, Option, none, some, take, drop, length, get_elem?, ◌==◌, if◌then◌else◌,
}
use meet_your_match.Python.{
  Py, pure, raise, or_raise, catching, ◌>>=◌, ◌>>◌, index_error, struct_error, attribute_error,
  Address, Dict, insert, Floats,
}
use meet_your_match.Struct.{Bytes}
use meet_your_match.Packet.{PacketData}
use meet_your_match.Registration.Client.{read_address}

module _ (fl : Floats) where
  open fl use {Float, decode}

  -- The slot `host_latencies`, which a client may have left empty.
  abbrev pub Slot : Type 0
  Slot = Option (Dict Float)

  -- `self.host_latencies[address_tup] = latency`
  unfoldable pub note_latency : Address → Float → Py Slot (Unit {0})
  note_latency address_tup latency none = raise attribute_error none
  note_latency address_tup latency (some latencies) =
      pure tt (some (insert address_tup latency latencies))

  -- `unpack('4BHd', …)`: an address in 6 bytes, two bytes that align what follows, and a float in 8.
  unfoldable pub read_latency : Bytes → Py Slot (Address × Float)
  unfolding read_address
  read_latency bytes =
      if length bytes == 16
      then (do
        address_tup ← or_raise (read_address (take 6 bytes)) struct_error
        pure (address_tup, decode (drop 8 bytes)))
      else raise struct_error

  -- the loop, `count` times, from the byte `i` on
  unfoldable pub read_latencies : ℕ → ℕ → Bytes → Py Slot (Unit {0})
  unfolding read_latency note_latency
  read_latencies zero i client_data = pure tt
  read_latencies (suc count) i client_data = do
    (address_tup, latency) ← read_latency (take 16 (drop i client_data))
    note_latency address_tup latency
    read_latencies count (i + 16) client_data

  -- Every exception is caught; what was noted before it stays.
  unfoldable pub unpack_host_latency_info : PacketData Float → Py Slot (Unit {0})
  unfolding read_latencies
  unpack_host_latency_info pdata =
      catching
        (do
          address_ct ← or_raise (get_elem? pdata.client_data 0) index_error
          read_latencies address_ct 1 pdata.client_data)
        (pure tt)
