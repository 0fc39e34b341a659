-- ===== src/Program/Answering.antt =====
-- What clients are answered by the matchmaking process, from the start of the program on (mym.py and
-- match.py).
use meet_your_match.Prelude.{
  ℕ, sym, ◌≡◌, ◌≢◌, refl, ap, ◌∙◌, ◌⊎◌, inl, inr, true, List, ◌∷◌, arith, length, ltb,
}
use meet_your_match.Python.{Result, ok, raised, attribute_error, Address, Floats}
use meet_your_match.Struct.{Bytes}
use meet_your_match.Text.{Unicode}
use meet_your_match.Packet.{PacketData, unpackit}
use meet_your_match.Packet.Readable.{IsError}
use meet_your_match.Packet.RoundTrip.{IsDouble}
use meet_your_match.ConnectionLog.{log_ip}
use meet_your_match.ConnectionLog.Rate.{IsVerdict, log_ip-IsVerdict}
use meet_your_match.Constants.{
  sv_error_matching_not_found, sv_error_not_matching, matchmake_round_time,
}
use meet_your_match.Matching.{MatchingData, Store, init}
use meet_your_match.Registration.{accepts_port}
use meet_your_match.Matchmaker.{Server, query_respond, serve, matchmake_and_respond}
use meet_your_match.Matchmaker.Answer.{answer}
use meet_your_match.Matchmaker.Replies.{Answers, Says, Fails, query_is_answered}
use meet_your_match.Program.{Program, Turns, main_proc, start_register, start_server}
use meet_your_match.Program.Idle.{nobody, answer-nobody}
use meet_your_match.Program.Live.{Turns-IsLive}

-- Of the matching data: the sender is not found, or is not matching.
abbrev pub IsUnknown : ℕ → Type 0
IsUnknown k = (k ≡ sv_error_matching_not_found) ⊎ (k ≡ sv_error_not_matching)

-- With nobody in the data, every answer is one of these errors.
answer-IsUnknown :
    (status : ℕ) (a : Address) (md : MatchingData) (k : ℕ)
    → md ≡ nobody md
    → (answer status a (record md { locked = true })).0 ≡ ok k
    → IsUnknown k
answer-IsUnknown status a md k empty said =
    let asked = sym said ∙ ap (λ m. (answer status a (record m { locked = true })).0) empty in
    elim (answer-nobody status a md) [
      | inl e ↦ inl (code_of (asked ∙ ap (λ o. o.0) e))
      | inr e ↦ inr (code_of (asked ∙ ap (λ o. o.0) e))
    ]
  where
    code_of : {n : ℕ} → ◌≡◌ {A = Result ℕ} (ok k) (ok n) → k ≡ n
    code_of h = cc

pub answer-IsError :
    (status : ℕ) (a : Address) (md : MatchingData) (k : ℕ)
    → md ≡ nobody md
    → (answer status a (record md { locked = true })).0 ≡ ok k
    → IsError k
answer-IsError status a md k empty said = elim (answer-IsUnknown status a md k empty said) [
  | inl same ↦ rw same (λ z. omega (arith, z))
  | inr same ↦ rw same (λ z. omega (arith, z))
]

module _ (fl : Floats) (u : Unicode) (double : IsDouble fl) where
  open fl use {Float, of_nat, plus, minus, less}

  -- The wait that a round finds, once it is counted.
  abbrev pub waited : Float → Server Float → Float
  waited new_time s = plus s.matchmake_wait_ctr (minus new_time s.prev_time)

  -- A round that is not due, with a datagram to answer.
  round-answers :
      (new_time log_time : Float) (clock : ℕ → Float) (s : Server Float) (msg : Bytes × Address)
      (rest : List (Bytes × Address))
      → s.incoming ≡ msg ∷ rest
      → less (waited new_time s) (of_nat matchmake_round_time) ≡ true
      → matchmake_and_respond fl u new_time log_time clock s
        ≡ query_respond fl u log_time
            (clock 0)
            (record s { prev_time = new_time; matchmake_wait_ctr = waited new_time s })
  unfolding matchmake_and_respond serve
  round-answers new_time log_time clock s msg rest queue early =
      let some_left : ltb 0 (length s.incoming) ≡ true = rw queue (ground arith) in
      rw (early, some_left) refl

  -- The status that a client that nobody knows is told: the error of the log if there is one, and
  -- else that it is not found, or is not matching.
  abbrev pub Refused : ℕ → ℕ → Type 0
  Refused c k = ((c ≢ 0) × (k ≡ c) × IsError k) ⊎ ((c ≡ 0) × IsUnknown k)

  said-Refused :
      (a : Address) (status c k : ℕ) (md md' : MatchingData)
      → IsVerdict c
      → md ≡ nobody md
      → Says a status c k md md'
      → Refused c k
  said-Refused a status c k md md' (inl (zero, _)) empty (inl (nonzero, same, _)) =
      absurd (nonzero zero)
  said-Refused a status c k md md' (inr (_, some)) empty (inl (nonzero, same, _)) =
      inl (nonzero, same, rw same some)
  said-Refused a status c k md md' verdict empty (inr (zero, said, _)) =
      inr (zero, answer-IsUnknown status a md k empty said)

  -- With nobody in the data, no answer fails.
  never-Fails :
      (a : Address) (status c : ℕ) (md : MatchingData) → md ≡ nobody md → ¬ Fails a status c md
  never-Fails a status c md empty (_, said) =
      let fails : (answer status a (record (nobody md) { locked = true })).0
          ≡ raised attribute_error =
        sym (ap (λ m. (answer status a (record m { locked = true })).0) empty)
        ∙ ap (λ o. o.0) said in
      elim (answer-nobody status a md) [
        | inl e ↦ returns (sym (ap (λ o. o.0) e) ∙ fails)
        | inr e ↦ returns (sym (ap (λ o. o.0) e) ∙ fails)
      ]
    where
      returns : {n : ℕ} → ◌≢◌ {A = Result ℕ} (ok n) (raised attribute_error)
      returns h = cc

  -- From the start of the program on, a well-formed query from an accepted port that is next in the
  -- queue, in a round in which no matchmaking is due: the round returns, and puts exactly one datagram
  -- behind the responses, for the sender. Its status is the error of the log if there is one, which is
  -- then an error of the server, and else that the sender is not found, or that it is not matching.
  pub matchmake_and_respond-Refused :
      (rate : Float) (objects : Store) (prev_time : Float) (p : Program Float)
      → Turns fl u (main_proc fl rate objects prev_time) p
      → (new_time log_time : Float) (clock : ℕ → Float) (bytes : Bytes) (a : Address)
        (rest : List (Bytes × Address)) (packet : PacketData Float) (c : ℕ)
      → p.server.incoming ≡ (bytes, a) ∷ rest
      → less (waited new_time p.server) (of_nat matchmake_round_time) ≡ true
      → accepts_port a.port ≡ true
      → ((s : Server Float) → unpackit fl bytes s ≡ (ok packet, s))
      → (log_ip fl log_time a p.server.connect_log).0 ≡ ok c
      → (k : ℕ) × ((matchmake_and_respond fl u new_time log_time clock p.server).0 ≡ ok tt)
        × Answers fl a k p.server (matchmake_and_respond fl u new_time log_time clock p.server).1
        × Refused c k
  unfolding main_proc start_register start_server init
  matchmake_and_respond-Refused rate objects prev_time p turns new_time log_time clock bytes a rest
        packet c queue early port good logged =
      let ((_, (_, empty)), free) = Turns-IsLive fl u turns ((refl, (refl, refl)), refl) in
      let s = record (p.server) {
        prev_time = new_time;
        matchmake_wait_ctr = waited new_time p.server;
      } in
      let verdict = log_ip-IsVerdict fl log_time a p.server.connect_log c logged in
      rw (round-answers new_time log_time clock p.server (bytes, a) rest queue early)
        (elim (query_is_answered fl u double log_time (clock 0) s bytes a rest packet c queue
          (ap (λ m. m.locked) empty) free port (good (record s { incoming = rest })) logged) [
            | inl (k, returned, sent, says) ↦ (
              k,
              returned,
              sent,
              said-Refused a packet.status c k p.server.match_data _ verdict empty says,
            )
            | inr (fails, _, _, _) ↦
                absurd (never-Fails a packet.status c p.server.match_data empty fails)
          ])
