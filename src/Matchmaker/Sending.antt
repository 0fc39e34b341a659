-- ===== src/Matchmaker/Sending.antt =====
-- What the threads of the matchmaking process (match.py) put among the responses.
use meet_your_match.Prelude.{All, All-snoc, Bool-cases, inl, inr}
use meet_your_match.Python.{Floats, Address, Keeps, keeps}
use meet_your_match.Struct.{Bytes}
use meet_your_match.Text.{Unicode}
use meet_your_match.Packet.RoundTrip.{IsDouble}
use meet_your_match.Packet.Readable.{IsReadable}
use meet_your_match.LockedList
use meet_your_match.Matching.{acquire_lock, release_lock}
use meet_your_match.Matchmaker.{Server, respond_with}

-- A datagram is put behind the responses, if the call returns.
pub respond_with-All :
    (fl : Floats) (u : Unicode) (Good : Bytes → Type 0) (packed : Bytes) (a : Address)
    → Good packed
    → Keeps
        (λ (s : Server fl.Float). All (λ (bytes, b). Good bytes) s.responses.items)
        (respond_with fl u packed a)
unfolding LockedList.append LockedList.acquire_lock LockedList.release_lock
respond_with-All fl u Good packed a good = keeps λ s h. elim (Bool-cases s.responses.locked) [
  | inl e ↦ rw e h
  | inr e ↦ rw e (All-snoc (λ (bytes, b). Good bytes) (packed, a) s.responses.items h good)
]

module _ (fl : Floats) (u : Unicode) (double : IsDouble fl) where
  open fl use {Float, of_nat, plus, minus, less}

  -- Whatever stands among the responses can be read.
  abbrev pub AreReadable : Server Float → Type 0
  AreReadable s = All (λ (bytes, a). IsReadable fl bytes) s.responses.items
