-- ===== src/Matchmaker/Updates.antt =====
-- The last part of `matchmake` (match.py): the clients of each session hear of their group.
pub mod Round
use mathlib.Core.List.{append-nil, append_assoc}
use meet_your_match.Prelude.{
  ℕ, suc, ◌≡◌, refl, sym, ◌∙◌, ap, false, some, none, List, [], ◌∷◌, ◌++◌, map, All, arith,
}
use meet_your_match.Member.{Attributes}
use meet_your_match.Python.{
  ok, raised, attribute_error, >>=-raised, Py, pure, Floats, Address, ◌>>=◌, ◌>>◌, >>=-ok,
}
use meet_your_match.Struct.{Bytes, pack_uint}
use meet_your_match.Utf8.{encode, encode_text}
use meet_your_match.Text.{Unicode}
use meet_your_match.Packet.{PacketData, new_packet, packit}
use meet_your_match.LockedList
use meet_your_match.LockedList.{LockedList}
use meet_your_match.Matching.{Ref, Store, Session, MatchingData}
use meet_your_match.Constants.{sv_status_group_update}
use meet_your_match.Matchmaker.Pack.{pack_session}
use meet_your_match.Matchmaker.{
  Server, Step, on_data, respond_with, look_in_match, inform_clients, inform_session,
  inform_sessions,
}

-- A host with nobody else in its session.
abbrev pub IsAlone : Store → Session → Type 0
IsAlone objects s = (d : Attributes) × ((objects s.host).dict ≡ some d) × (s.clients ≡ [])

-- A host, in whose session a client stands first.
abbrev pub IsGroup : Store → Session → Ref → List Ref → Type 0
IsGroup objects s c cs =
    (d : Attributes) × ((objects s.host).dict ≡ some d)
    × (s.clients ≡ c ∷ cs)
    × ((objects c).dict ≡ none)

module _ (fl : Floats) (u : Unicode) where
  open fl use {Float}

  -- the group update with these data
  abbrev pub group_update : Float → Bytes → PacketData Float
  group_update time client_data = record (new_packet fl) {
    status = sv_status_group_update;
    time_stamp = time;
    client_data = client_data;
  }

  -- The server with more responses.
  abbrev pub answered : List (Bytes × Address) → Server Float → Server Float
  answered sent s = record s {
    responses = record { items = s.responses.items ++ sent; locked = false };
  }

  packit_update :
      (time : Float) (client_data : Bytes) (s : Server Float)
      → (packed : Bytes) × (packit fl (group_update time client_data) tt ≡ (ok packed, tt))
        × (packit fl (group_update time client_data) s ≡ (ok packed, s))
  unfolding packit encode encode_text pack_uint
  packit_update time client_data s = (_, refl, refl)

  pub respond_with_lem :
      (packed : Bytes) (a : Address) (s : Server Float)
      → s.responses.locked ≡ false
      → respond_with fl u packed a s ≡ (ok tt, answered ((packed, a) ∷ []) s)
  unfolding LockedList.append LockedList.acquire_lock LockedList.release_lock
  respond_with_lem packed a s free = rw free

  answered-nil : (s : Server Float) → s.responses.locked ≡ false → answered [] s ≡ s
  answered-nil s free =
      ap (λ (l : LockedList (Bytes × Address)). record s { responses = l })
        (λ i. record { items = append-nil s.responses.items i; locked = sym free i })

  answered-append :
      (first second : List (Bytes × Address)) (s : Server Float)
      → answered second (answered first s) ≡ answered (first ++ second) s
  answered-append first second s =
      ap {A = List (Bytes × Address)}
        (λ l. record s { responses = record { items = l; locked = false } })
        (append_assoc s.responses.items first second)

  look_in_match_lem :
      (r : Ref) (s : Server Float) {d : Attributes}
      → (s.match_data.objects r).dict ≡ some d
      → look_in_match fl u r s ≡ (ok tt, s)
  look_in_match_lem r s has = rw (has, ◌>>=◌) refl

  look_in_match_raises :
      (r : Ref) (s : Server Float)
      → (s.match_data.objects r).dict ≡ none
      → look_in_match fl u r s ≡ (raised attribute_error, s)
  look_in_match_raises r s lacks = rw (lacks, ◌>>=◌) refl

  -- A client is sent its packet, and then an AttributeError is raised.
  inform_clients-raises :
      (packed : Bytes) (c : Ref) (cs : List Ref) (s : Server Float)
      → s.responses.locked ≡ false
      → (s.match_data.objects c).dict ≡ none
      → inform_clients fl u packed (c ∷ cs) s
        ≡ (raised attribute_error, answered ((packed, (s.match_data.objects c).address) ∷ []) s)
  unfolding inform_clients
  inform_clients-raises packed c cs s free lacks =
      let a = (s.match_data.objects c).address in
      >>=-ok (respond_with fl u packed a)
        (λ _. look_in_match fl u c >> inform_clients fl u packed cs)
        (respond_with_lem packed a s free)
      ∙ >>=-raised (look_in_match fl u c) (λ _. inform_clients fl u packed cs)
          {s = answered ((packed, a) ∷ []) s} {t = answered ((packed, a) ∷ []) s}
          (look_in_match_raises c (answered ((packed, a) ∷ []) s) lacks)

  module _ (time : Float) (session : Session) (client_data : Bytes) (s : Server Float)
      (free : s.responses.locked ≡ false)
      (packs : pack_session u session s.match_data ≡ (ok client_data, s.match_data)) where
    host : Address
    host = (s.match_data.objects session.host).address

    -- The session's packet is put behind the responses for the host; then the clients follow.
    told_host :
        {d : Attributes}
        → (s.match_data.objects session.host).dict ≡ some d
        → (packed : Bytes) × (packit fl (group_update time client_data) tt ≡ (ok packed, tt))
          × (inform_session fl u time session s
              ≡ inform_clients fl u packed session.clients (answered ((packed, host) ∷ []) s))
    unfolding inform_session host
    told_host has =
        let (packed, is, here) = packit_update time client_data s in
        (
          packed,
          is,
          >>=-ok (on_data fl u (pack_session u session)) with_data
                (ap (λ o. (o.0, record s { match_data = o.1 })) packs)
              ∙ >>=-ok (packit fl (group_update time client_data)) looks here
              ∙ >>=-ok (look_in_match fl u session.host) (λ _. tell packed) {s = s} {t = s}
                  (look_in_match_lem session.host s has)
              ∙ >>=-ok (respond_with fl u packed host)
                  (λ _. inform_clients fl u packed session.clients)
                  (respond_with_lem packed host s free),
        )
      where
        tell : Bytes → Step fl u (Unit {0})
        tell packed t =
            (respond_with fl u packed (t.match_data.objects session.host).address
                >> inform_clients fl u packed session.clients)
              t

        looks : Bytes → Step fl u (Unit {0})
        looks packed = look_in_match fl u session.host >> tell packed

        with_data : Bytes → Step fl u (Unit {0})
        with_data bytes = packit fl (group_update time bytes) >>= looks

    -- A host alone is sent one packet, with these data.
    inform_session_lem :
        IsAlone s.match_data.objects session
        → (packed : Bytes) × (packit fl (group_update time client_data) tt ≡ (ok packed, tt))
          × (inform_session fl u time session s ≡ (ok tt, answered ((packed, host) ∷ []) s))
    unfolding inform_clients
    inform_session_lem (d, has, alone) =
        let (packed, is, told) = told_host has in
        (
          packed,
          is,
          told ∙ ap (λ cs. inform_clients fl u packed cs (answered ((packed, host) ∷ []) s)) alone,
        )

    -- With a client in the session, the host and the first client are sent the packet.
    inform_session-raises :
        (c : Ref) (cs : List Ref)
        → IsGroup s.match_data.objects session c cs
        → (packed : Bytes) × (packit fl (group_update time client_data) tt ≡ (ok packed, tt))
          × (inform_session fl u time session s ≡ (
            raised attribute_error,
            answered ((packed, host) ∷ (packed, (s.match_data.objects c).address) ∷ []) s,
          ))
    inform_session-raises c cs (d, has, group, lacks) =
        let (packed, is, told) = told_host has in
        (
          packed,
          is,
          told
              ∙ ap (λ cs. inform_clients fl u packed cs (answered ((packed, host) ∷ []) s)) group
              ∙ inform_clients-raises packed c cs (answered ((packed, host) ∷ []) s) refl lacks
              ∙ ap (λ t. (raised attribute_error, t))
                  (answered-append ((packed, host) ∷ [])
                    ((packed, (s.match_data.objects c).address) ∷ []) s),
        )

  -- What is sent for sessions of a host alone, from the `i`-th on: for each in turn, one packet with
  -- its data and the reading of the clock, to its host.
  abbrev pub AreUpdates :
      Store → (Session → Bytes) → (ℕ → Float) → ℕ → List Session → List (Bytes × Address) → Type 0
  AreUpdates objects data_of clock i [] sent = sent ≡ []
  AreUpdates objects data_of clock i (s ∷ ss) sent =
      (packed : Bytes) × (rest : List (Bytes × Address)) × (packit fl
          (group_update (clock i) (data_of s)) tt
        ≡ (ok packed, tt))
      × (sent ≡ (packed, (objects s.host).address) ∷ rest)
      × AreUpdates objects data_of clock (suc i) ss rest

  -- If the lock of the responses is free, and every session is that of a host alone and can be packed,
  -- the last part of a round of `matchmake` returns; behind the responses that were there before it
  -- puts, for each session in turn, one packet with the session's data, for the host. Nothing else
  -- changes.
  pub inform_sessions_lem :
      (clock : ℕ → Float) (i : ℕ) (data_of : Session → Bytes) (ss : List Session) (s : Server Float)
      → s.responses.locked ≡ false
      → All (λ x. pack_session u x s.match_data ≡ (ok (data_of x), s.match_data)) ss
      → All (IsAlone s.match_data.objects) ss
      → (sent : List (Bytes × Address)) × (inform_sessions fl u clock i ss s
          ≡ (ok tt, answered sent s))
        × AreUpdates s.match_data.objects data_of clock i ss sent
  unfolding inform_sessions host
  inform_sessions_lem clock i data_of [] s free packs alone =
      ([], ap (λ t. (ok tt, t)) (sym (answered-nil s free)), refl)
  inform_sessions_lem clock i data_of (x ∷ ss) s free (first, packs) (one, alone) =
      let (packed, is, run) = inform_session_lem (clock i) x (data_of x) s free first one in
      let now = (packed, (s.match_data.objects x.host).address) ∷ [] in
      let (rest, more, are) =
        inform_sessions_lem clock (suc i) data_of ss (answered now s) refl packs alone in
      (
        now ++ rest,
        >>=-ok (inform_session fl u (clock i) x) (λ _. inform_sessions fl u clock (suc i) ss) run
            ∙ more
            ∙ ap (λ t. (ok tt, t)) (answered-append now rest s),
        (packed, rest, is, refl, are),
      )

  -- What is sent where a client stands first in the session behind those of hosts alone: the packets
  -- for these hosts, and one packet with the session's data for its host and that client.
  abbrev pub AreUpdatesUpTo :
      Store
      → (Session → Bytes)
      → (ℕ → Float)
      → ℕ
      → List Session
      → Session
      → Ref
      → List (Bytes × Address)
      → Type 0
  AreUpdatesUpTo objects data_of clock i [] x c sent =
      (packed : Bytes) × (packit fl (group_update (clock i) (data_of x)) tt ≡ (ok packed, tt))
      × (sent ≡ (packed, (objects x.host).address) ∷ (packed, (objects c).address) ∷ [])
  AreUpdatesUpTo objects data_of clock i (s ∷ ss) x c sent =
      (packed : Bytes) × (rest : List (Bytes × Address)) × (packit fl
          (group_update (clock i) (data_of s)) tt
        ≡ (ok packed, tt))
      × (sent ≡ (packed, (objects s.host).address) ∷ rest)
      × AreUpdatesUpTo objects data_of clock (suc i) ss x c rest

  -- A client in a session ends the last part of a round with an AttributeError, once it has been sent
  -- its packet.
  pub inform_sessions-raises :
      (clock : ℕ → Float) (i : ℕ) (data_of : Session → Bytes) (before : List Session) (x : Session)
      (c : Ref) (cs : List Ref) (rest : List Session) (s : Server Float)
      → s.responses.locked ≡ false
      → All (λ x. pack_session u x s.match_data ≡ (ok (data_of x), s.match_data)) before
      → All (IsAlone s.match_data.objects) before
      → pack_session u x s.match_data ≡ (ok (data_of x), s.match_data)
      → IsGroup s.match_data.objects x c cs
      → (sent : List (Bytes × Address)) × (inform_sessions fl u clock i (before ++ x ∷ rest) s
          ≡ (raised attribute_error, answered sent s))
        × AreUpdatesUpTo s.match_data.objects data_of clock i before x c sent
  unfolding inform_sessions host
  inform_sessions-raises clock i data_of [] x c cs rest s free packs alone own group =
      let (packed, is, run) = inform_session-raises (clock i) x (data_of x) s free own c cs group in
      (
        _,
        >>=-raised (inform_session fl u (clock i) x) (λ _. inform_sessions fl u clock (suc i) rest)
            run,
        (packed, is, refl),
      )
  inform_sessions-raises clock i data_of (y ∷ before) x c cs rest s free (first, packs) (one, alone)
        own group =
      let (packed, is, run) = inform_session_lem (clock i) y (data_of y) s free first one in
      let now = (packed, (s.match_data.objects y.host).address) ∷ [] in
      let (sent, more, are) =
        inform_sessions-raises clock (suc i) data_of before x c cs rest (answered now s) refl packs
          alone own group in
      (
        now ++ sent,
        >>=-ok (inform_session fl u (clock i) y)
              (λ _. inform_sessions fl u clock (suc i) (before ++ x ∷ rest)) run
            ∙ more
            ∙ ap (λ t. (raised attribute_error, t)) (answered-append now sent s),
        (packed, sent, is, refl, are),
      )
