-- ===== src/Matchmaker/Replies.antt =====
-- What `query_respond` (match.py) puts among the responses, and what a client reads in it.
use meet_your_match.Prelude.{
  ℕ, ◌^◌, ◌<◌, ◌≡◌, ◌≢◌, ◌∙◌, refl, ap, ◌⊎◌, inl, inr, true, false, List, [], ◌∷◌, ◌++◌, arith,
  length,
}
use meet_your_match.Python.{ok, raised, attribute_error, Address, Floats, ◌>>=◌, >>=-ok, >>=-raised}
use meet_your_match.Struct.{Bytes}
use meet_your_match.Text.{Unicode}
use meet_your_match.Packet.{PacketData, new_packet, unpackit, packit, packet_length}
use meet_your_match.Packet.RoundTrip.{IsDouble, Fits, unpackit-packit}
use meet_your_match.Utf8.{encode_text}
use meet_your_match.ConnectionLog.{log_ip}
use meet_your_match.ConnectionLog.Rate.{IsVerdict, log_ip-IsVerdict}
use meet_your_match.Matching.{MatchingData}
use meet_your_match.LockedList.{LockedList}
use meet_your_match.Registration.{accepts_port}
use meet_your_match.Matchmaker.{
  Server, Step, next_message, respond_with, send_status, poll, status_for, query, query_respond,
}
use meet_your_match.Matchmaker.Answer.{answer}
use meet_your_match.Matchmaker.Queries.{locked_answer-free}
use meet_your_match.Matchmaker.Updates.{respond_with_lem}

-- With one response more.
abbrev pub behind : Bytes × Address → LockedList (Bytes × Address) → LockedList (Bytes × Address)
behind msg l = record { items = l.items ++ msg ∷ []; locked = false }

-- One datagram, for this address, was put behind the responses; whoever reads it finds this status.
abbrev pub Answers : (fl : Floats) → Address → ℕ → Server fl.Float → Server fl.Float → Type 0
Answers fl a c s s' =
    (bytes : Bytes) × (q : PacketData fl.Float) × (s'.responses ≡ behind (bytes, a) s.responses)
    × (length bytes ≡ packet_length)
    × ((t : Server fl.Float) → unpackit fl bytes t ≡ (ok q, t))
    × (q.status ≡ c)

-- The log's error is the answer, and the matching data stay; or else the answer is what the
-- matching data say under the lock, and they are as it left them.
abbrev pub Says : Address → ℕ → ℕ → ℕ → MatchingData → MatchingData → Type 0
Says a status c k md md' =
    ((c ≢ 0) × (k ≡ c) × (md' ≡ md))
    ⊎ ((c ≡ 0)
        × ((answer status a (record md { locked = true })).0 ≡ ok k)
        × (md' ≡ record ((answer status a (record md { locked = true })).1) { locked = false }))

-- The log has no error, and the answer raises an AttributeError.
abbrev pub Fails : Address → ℕ → ℕ → MatchingData → Type 0
Fails a status c md =
    (c ≡ 0)
    × (answer status a (record md { locked = true })
        ≡ (raised attribute_error, record md { locked = true }))

module _ (fl : Floats) (u : Unicode) (double : IsDouble fl) where
  open fl use {Float}

  abbrev packet : Float → ℕ → PacketData Float
  packet time c = record (new_packet fl) { status = c; time_stamp = time }

  packet-Fits : (time : Float) (c : ℕ) → c < 2 ^ 32 → Fits (packet time c) ((new_packet fl).name)
  unfolding encode_text
  packet-Fits time c small = record {
    status = small;
    flags = omega arith;
    name_bytes = refl;
    name_length = omega arith;
    data_length = omega arith;
  }

  send_status-Answers :
      (time : Float) (a : Address) (c : ℕ) (s : Server Float)
      → c < 2 ^ 32
      → s.responses.locked ≡ false
      → ((send_status fl u time a c s).0 ≡ ok tt)
        × Answers fl a c s (send_status fl u time a c s).1
        × ((send_status fl u time a c s).1.match_data ≡ s.match_data)
  unfolding send_status
  send_status-Answers time a c s small free =
      let (bytes, packed, size, read) =
        unpackit-packit fl (packet time c) (new_packet fl).name double (packet-Fits time c small) in
      let step =
        >>=-ok (packit fl (packet time c)) (λ b. respond_with fl u b a) (packed s)
        ∙ respond_with_lem fl u bytes a s free in
      rw step (refl, (bytes, _, refl, size, read, refl), refl)

  -- The status is found, and the matching data and the responses are as it says.
  abbrev Found : Address → ℕ → ℕ → Server Float → Type 0
  Found a status c s =
      (k : ℕ) × (s' : Server Float) × (status_for fl u c a status s ≡ (ok k, s'))
      × (k < 2 ^ 32)
      × (s'.responses ≡ s.responses)
      × Says a status c k s.match_data s'.match_data

  status_for-Says :
      (a : Address) (status c : ℕ) (s : Server Float)
      → IsVerdict c
      → s.match_data.locked ≡ false
      → Found a status c s
        ⊎ (Fails a status c s.match_data
            × (status_for fl u c a status s ≡ (
              raised attribute_error,
              record s { match_data = record (s.match_data) { locked = true } },
            )))
  unfolding status_for
  status_for-Says a status c s (inl (zero, none)) free =
      elim (locked_answer-free fl u a status s free) [
        | inl (k, objects, e, small, said) ↦
            let s' : Server Float = record s {
              match_data = record (s.match_data) { locked = false; objects = objects };
            } in
            inl (k, s', rw none e, small, refl, inr (zero, rw said refl, rw said refl))
        | inr (e, said) ↦ inr ((zero, said), rw none e)
      ]
  status_for-Says a status c s (inr (which, some)) free =
      inl (c, s, ground arith, ground arith, refl, inl (ground arith, refl, refl))

  -- The status, and the answer that carries it.
  abbrev answering : Float → Address → ℕ → ℕ → Step fl u (Unit {0})
  answering time a status c = status_for fl u c a status >>= send_status fl u time a

  taken :
      (log_time time : Float) (s : Server Float) (msg : Bytes × Address)
      (rest : List (Bytes × Address))
      → s.incoming ≡ msg ∷ rest
      → query_respond fl u log_time time s
        ≡ query fl u log_time time msg (record s { incoming = rest })
  unfolding query_respond
  taken log_time time s msg rest queue = >>=-ok next_message (query fl u log_time time) (rw queue)

  query_passes :
      (log_time time : Float) (s : Server Float) (bytes : Bytes) (a : Address)
      (p : PacketData Float) (c : ℕ)
      → accepts_port a.port ≡ true
      → unpackit fl bytes s ≡ (ok p, s)
      → (log_ip fl log_time a s.connect_log).0 ≡ ok c
      → query fl u log_time time (bytes, a) s
        ≡ answering time a p.status c
            (record s { connect_log = (log_ip fl log_time a s.connect_log).1 })
  unfolding query
  query_passes log_time time s bytes a p c port good logged = rw port (
      >>=-ok (unpackit fl bytes) (λ q. poll fl u log_time a >>= answering time a q.status) good
      ∙ >>=-ok (poll fl u log_time a) (answering time a p.status)
          (ap (λ r. (r, record s { connect_log = (log_ip fl log_time a s.connect_log).1 })) logged))

  -- A query that is well-formed, from an accepted port, when both locks are free. Either the call
  -- returns, and puts exactly one datagram behind the responses, for the sender, which carries the
  -- error of the log if there is one, and else what the matching data say; the matching data are then
  -- as the answer left them, with the lock free. Or the log has no error and the answer raises an
  -- AttributeError: then the call raises it too, nothing is put behind the responses, and the
  -- matching data are as they were, but their lock is held.
  pub query_is_answered :
      (log_time time : Float) (s : Server Float) (bytes : Bytes) (a : Address)
      (rest : List (Bytes × Address)) (p : PacketData Float) (c : ℕ)
      → s.incoming ≡ (bytes, a) ∷ rest
      → s.match_data.locked ≡ false
      → s.responses.locked ≡ false
      → accepts_port a.port ≡ true
      → unpackit fl bytes (record s { incoming = rest }) ≡ (ok p, record s { incoming = rest })
      → (log_ip fl log_time a s.connect_log).0 ≡ ok c
      → ((k : ℕ) × ((query_respond fl u log_time time s).0 ≡ ok tt)
          × Answers fl a k s (query_respond fl u log_time time s).1
          × Says a p.status c k s.match_data (query_respond fl u log_time time s).1.match_data)
        ⊎ (Fails a p.status c s.match_data
            × ((query_respond fl u log_time time s).0 ≡ raised attribute_error)
            × ((query_respond fl u log_time time s).1.responses ≡ s.responses)
            × ((query_respond fl u log_time time s).1.match_data
                ≡ record (s.match_data) { locked = true }))
  query_is_answered log_time time s bytes a rest p c queue free open' port good logged =
      let u' = record s { incoming = rest } in
      let v = record u' { connect_log = (log_ip fl log_time a s.connect_log).1 } in
      let passes =
        taken log_time time s (bytes, a) rest queue
        ∙ query_passes log_time time u' bytes a p c port good logged in
      elim (status_for-Says a p.status c v (log_ip-IsVerdict fl log_time a s.connect_log c logged)
        free) [
          | inl (k, w, found, small, same, says) ↦
              let (returned, (datagram, q, sent, size, read, told), kept) =
                send_status-Answers time a k w small
                  (ap (λ (l : LockedList (Bytes × Address)). l.locked) same ∙ open') in
              rw
                (
                  passes,
                  >>=-ok (status_for fl u c a p.status) (send_status fl u time a) {s = v} {t = w}
                      found,
                )
                (inl (
                  k,
                  returned,
                  (datagram, q, sent ∙ ap (behind (datagram, a)) same, size, read, told),
                  rw kept says,
                ))
          | inr (fails, failed) ↦
              rw
                (
                  passes,
                  >>=-raised (status_for fl u c a p.status) (send_status fl u time a) {s = v}
                      failed,
                )
                (inr (fails, refl, refl, refl))
        ]
