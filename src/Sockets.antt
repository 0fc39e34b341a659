-- ===== src/Sockets.antt =====
-- `buffer_incoming` (common.py): one round of its loop, by what `sock.recvfrom` does.
use meet_your_match.Prelude.{Bool, List, [], ◌∷◌, ◌++◌, if◌then◌else◌}
use meet_your_match.Python.{Py, pure, raise, modify, name_error, Address}
use meet_your_match.Struct.{Bytes}

-- A datagram comes, or the call raises an OSError (on Windows, `WindowsError` is a name for it) or
-- another exception.
pub data Received : Type 0 where
  datagram : Bytes × Address → Received
  os_error other_error : Received

-- After an exception Python looks `WindowsError` up, a name that only `windows` has; there, either
-- exception is passed over.
unfoldable pub buffer_incoming : Bool → Received → Py (List (Bytes × Address)) (Unit {0})
buffer_incoming windows (datagram msg) = modify (λ incoming. incoming ++ msg ∷ [])
buffer_incoming windows os_error = if windows then pure tt else raise name_error
buffer_incoming windows other_error = if windows then pure tt else raise name_error
