-- ===== src/Matchmaker/Queries.antt =====
-- The lock in `query_respond` (match.py).
use Prim.Native.Nat.{bit_and}
use meet_your_match.Prelude.{
  List, ℕ, ◌^◌, ◌<◌, ◌≡◌, ◌∙◌, ◌⊎◌, inl, inr, ap, true, false, not, arith, ◌==◌,
}
use meet_your_match.Python.{
  ok, raised, attribute_error, blocked, Floats, Address, pure, ◌>>=◌, ◌>>◌, >>=-ok, >>=-raised,
  Preserves, >>=-Preserves, if-Preserves,
}
use meet_your_match.Text.{Unicode}
use meet_your_match.Member.{Client}
use meet_your_match.ConnectionLog.{ConnectionLog}
use meet_your_match.Packet.{PacketData, new_packet, unpackit, packit}
use meet_your_match.Packet.RoundTrip.{unpackit-state, packit-state}
use meet_your_match.Matching.{MatchingData, Store, acquire_lock, release_lock}
use meet_your_match.Constants.{sv_error}
use meet_your_match.Matchmaker.Answer.{answer}
use meet_your_match.Matchmaker.Answer.Total.{answer-Answers}
use meet_your_match.Registration.{accepts_port}
use meet_your_match.Matchmaker.{
  Server, Step, on_data, next_message, respond_with, send_status, poll, locked_answer, status_for,
  query, query_respond,
}

module _ (fl : Floats) (u : Unicode) where
  open fl use {Float}

  -- The matching data are `md`.
  abbrev pub HasData : MatchingData → Server Float → Type 0
  HasData md s = s.match_data ≡ md

  abbrev pub IsFree : Server Float → Type 0
  IsFree s = s.match_data.locked ≡ false

  -- A property of the pipe, of the matching data and of the log.
  module _ {κ} (P : List Client → MatchingData → ConnectionLog Float → Type κ) where
    abbrev pub On : Server Float → Type κ
    On s = P s.in_pipe s.match_data s.connect_log

    send_status-On : (time : Float) (a : Address) (c : ℕ) → Preserves On (send_status fl u time a c)
    unfolding send_status
    send_status-On time a c =
        >>=-Preserves On (packit fl packet) (λ packed. respond_with fl u packed a)
          (λ s h. rw (packit-state fl packet s) h) (λ packed s h. h)
      where
        packet : PacketData Float
        packet = record (new_packet fl) { status = c; time_stamp = time }

    found : Float → Address → PacketData Float → ℕ → Step fl u (Unit {0})
    found time a p error = status_for fl u error a p.status >>= send_status fl u time a

    polled : Float → Float → Address → PacketData Float → Step fl u (Unit {0})
    polled log_time time a p = poll fl u log_time a >>= found time a p

    next_message-On : Preserves On next_message
    next_message-On s h = ground arith

    -- What polls of the log and answers keep, `query_respond` keeps.
    pub query_respond-On :
        ((t : Float) (a : Address) → Preserves On (poll fl u t a))
        → ((error : ℕ) (a : Address) (status : ℕ) → Preserves On (status_for fl u error a status))
        → (log_time time : Float) → Preserves On (query_respond fl u log_time time)
    unfolding query_respond query found polled
    query_respond-On polls asked log_time time =
        >>=-Preserves On next_message (query fl u log_time time) next_message-On (λ (bytes, a).
          if-Preserves On (not (accepts_port a.port)) (pure tt)
            (unpackit fl bytes >>= polled log_time time a) (λ s h. h)
            (>>=-Preserves On (unpackit fl bytes) (polled log_time time a)
              (λ s h. rw (unpackit-state fl bytes s) h)
              (λ p.
                >>=-Preserves On (poll fl u log_time a) (found time a p) (polls log_time a) (λ c.
                  >>=-Preserves On (status_for fl u c a p.status) (send_status fl u time a)
                    (asked c a p.status) (send_status-On time a)))))

  pub acquire_free :
      (s : Server Float)
      → IsFree s
      → on_data fl u acquire_lock s
        ≡ (ok tt, record s { match_data = record (s.match_data) { locked = true } })
  unfolding acquire_lock
  acquire_free s free = rw free

  -- What is returned is the answer; it changes objects at most, and the lock is given back.
  abbrev pub Returns : Address → ℕ → Server Float → Type 0
  Returns a status s =
      (c : ℕ) × (objects : Store) × (locked_answer fl u a status s ≡ (
        ok c,
        record s { match_data = record (s.match_data) { locked = false; objects = objects } },
      ))
      × (c < 2 ^ 32)
      × (answer status a (record (s.match_data) { locked = true })
          ≡ (ok c, record (s.match_data) { locked = true; objects = objects }))

  -- The answer raises an AttributeError, and the lock stays held.
  abbrev pub Raises : Address → ℕ → Server Float → Type 0
  Raises a status s =
      (locked_answer fl u a status s ≡ (
        raised attribute_error,
        record s { match_data = record (s.match_data) { locked = true } },
      ))
      × (answer status a (record (s.match_data) { locked = true })
          ≡ (raised attribute_error, record (s.match_data) { locked = true }))

  pub locked_answer-free :
      (a : Address) (status : ℕ) (s : Server Float)
      → IsFree s
      → Returns a status s ⊎ Raises a status s
  unfolding locked_answer release_lock
  locked_answer-free a status s free =
      let taken = >>=-ok (on_data fl u acquire_lock) (λ _. rest) (acquire_free s free) in
      elim (answer-Answers status a (record (s.match_data) { locked = true })) [
        | inl (c, objects, e, small) ↦ inl (
          c,
          objects,
          taken
              ∙ >>=-ok (on_data fl u (answer status a)) back
                  (ap (λ o. (o.0, record s { match_data = o.1 })) e),
          small,
          e,
        )
        | inr e ↦ inr (
          taken
              ∙ >>=-raised (on_data fl u (answer status a)) back
                  (ap (λ o. (o.0, record s { match_data = o.1 })) e),
          e,
        )
      ]
    where
      back : ℕ → Step fl u ℕ
      back c = on_data fl u release_lock >> pure c

      rest : Step fl u ℕ
      rest = on_data fl u (answer status a) >>= back

  pub acquire_held :
      (s : Server Float) → s.match_data.locked ≡ true → on_data fl u acquire_lock s ≡ (blocked, s)
  unfolding acquire_lock
  acquire_held s held = rw held

  locked_answer-held :
      (a : Address) (status : ℕ) (s : Server Float)
      → s.match_data.locked ≡ true
      → locked_answer fl u a status s ≡ (blocked, s)
  unfolding locked_answer acquire_lock
  locked_answer-held a status s held = rw held

  status_for-held :
      (md : MatchingData)
      → md.locked ≡ true
      → (error : ℕ) (a : Address) (status : ℕ)
      → Preserves (HasData md) (status_for fl u error a status)
  unfolding status_for
  status_for-held md held error a status =
      if-Preserves (HasData md) (not (bit_and error sv_error == 0)) (pure error)
        (locked_answer fl u a status) (λ s h. h)
        (λ s h. rw (locked_answer-held a status s (ap (λ m. m.locked) h ∙ held)) h)

  pub query_respond-held :
      (md : MatchingData)
      → md.locked ≡ true
      → (log_time time : Float) → Preserves (HasData md) (query_respond fl u log_time time)
  query_respond-held md held =
      query_respond-On (λ _ d _. d ≡ md) (λ _ _ _ h. h) (status_for-held md held)
