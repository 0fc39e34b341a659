-- ===== src/Matchmaker/Rounds.antt =====
-- Rounds of `matchmake` (match.py) that find a client registered.
use meet_your_match.Prelude.{
  ℕ, zero, suc, ◌≡◌, ◌≢◌, inl, inr, refl, sym, ◌∙◌, ap, true, false, Option, none, some, List, [],
  ◌∷◌, if◌then◌else◌, get_elem?, Option-cases,
}
use meet_your_match.Prelude.Int.{pos, leb_ℤ}
use meet_your_match.Python.{
  raised, attribute_error, Exception, Floats, Address, values, pure, gets, modify, ◌>>=◌, ◌>>◌,
  >>=-ok, >>=-raised, Preserves, >>=-Preserves, if-Preserves, Result-cases,
}
use meet_your_match.Text.{Unicode}
use meet_your_match.Member.{Attributes, Member}
use meet_your_match.Matching as Data
use meet_your_match.Matching.{
  Ref, MatchingData, Action, dict_of, update, assigned, write, acquire_lock, release_lock,
}
use meet_your_match.Matchmaker.{Server, Step, on_data, matchmake, matchmake_round, inform_sessions}
use meet_your_match.Matchmaker.Pairing.{tire, drop_silent, expire_client, expire, pair}
use meet_your_match.Matchmaker.Pairing.Counters.{update_other, write_host}
use meet_your_match.Matchmaker.Queries.{acquire_free}
use meet_your_match.Matchmaker.Running.{expire_client-Runs}
use meet_your_match.Matchmaker.Threads.{Turns, Turns-held}

abbrev IsHeld : MatchingData → Type 0
IsHeld md = md.locked ≡ true

drop-IsHeld : (a : Address) → Preserves IsHeld (Data.drop a)
unfolding Data.drop
drop-IsHeld a md h = h

-- The rest of `drop_silent`, once the attributes are read.
abbrev dropping : Ref → Attributes → Action (Unit {0})
dropping r d md =
    (if leb_ℤ d.alive_ctr (pos 0) then Data.drop (md.objects r).address else pure tt) md

drop_silent-IsHeld : (r : Ref) → Preserves IsHeld (drop_silent r)
unfolding drop_silent
drop_silent-IsHeld r =
    >>=-Preserves IsHeld (dict_of r) (dropping r) (λ md h. h)
      (λ d md h.
        if-Preserves IsHeld (leb_ℤ d.alive_ctr (pos 0)) (Data.drop (md.objects r).address) (pure tt)
          (drop-IsHeld (md.objects r).address) (λ md' g. g) md h)

writing : (Attributes → Attributes) → Ref → Attributes → Action (Unit {0})
writing f r d =
    modify (λ md. record md { objects = update md.objects r (assigned (md.objects r) (f d)) })

write-IsHeld : (f : Attributes → Attributes) (r : Ref) → Preserves IsHeld (write f r)
unfolding writing
write-IsHeld f r = >>=-Preserves IsHeld (dict_of r) (writing f r) (λ md h. h) (λ d md h. h)

expire_client-IsHeld : (r : Ref) → Preserves IsHeld (expire_client r)
unfolding expire_client
expire_client-IsHeld r =
    >>=-Preserves IsHeld (write tire r) (λ _. drop_silent r) (write-IsHeld tire r)
      (λ _. drop_silent-IsHeld r)

pub expire-IsHeld : (rs : List Ref) → Preserves IsHeld (expire rs)
unfolding expire
expire-IsHeld [] = λ md h. h
expire-IsHeld (r ∷ rs) =
    >>=-Preserves IsHeld (expire_client r) (λ _. expire rs) (expire_client-IsHeld r)
      (λ _. expire-IsHeld rs)

-- The object behind the reference has no `__dict__`: it is a `MatchingClient`.
abbrev pub Lacks : Ref → MatchingData → Type 0
Lacks r md = (md.objects r).dict ≡ none

drop-Lacks : (r : Ref) (a : Address) → Preserves (Lacks r) (Data.drop a)
unfolding Data.drop
drop-Lacks r a md h = h

drop_silent-Lacks : (r q : Ref) → Preserves (Lacks r) (drop_silent q)
unfolding drop_silent
drop_silent-Lacks r q =
    >>=-Preserves (Lacks r) (dict_of q) (dropping q) (λ md h. h)
      (λ d md h.
        if-Preserves (Lacks r) (leb_ℤ d.alive_ctr (pos 0)) (Data.drop (md.objects q).address)
          (pure tt) (drop-Lacks r (md.objects q).address) (λ md' g. g) md h)

write-Lacks : (r q : Ref) (f : Attributes → Attributes) → Preserves (Lacks r) (write f q)
write-Lacks r q f md h = elim (Option-cases (md.objects q).dict) [
  | inl lacks ↦ rw (lacks, ◌>>=◌) h
  | inr (d, has) ↦
      let apart : q ≢ r = λ e. lacking (sym has ∙ ap (λ x. (md.objects x).dict) e ∙ h) in
      ap (λ o. (o.1.objects r).dict) (write_host f q md has)
      ∙ ap (λ (m : Member). m.dict)
          (update_other md.objects q r (assigned (md.objects q) (f d)) apart)
      ∙ h
]
  where
    lacking : {d : Attributes} → ◌≢◌ {A = Option Attributes} (some d) none
    lacking e = cc

expire_client-Lacks : (r q : Ref) → Preserves (Lacks r) (expire_client q)
unfolding expire_client
expire_client-Lacks r q =
    >>=-Preserves (Lacks r) (write tire q) (λ _. drop_silent q) (write-Lacks r q tire)
      (λ _. drop_silent-Lacks r q)

expire_client-raises :
    (r : Ref) (md : MatchingData) → Lacks r md → expire_client r md ≡ (raised attribute_error, md)
unfolding expire_client
expire_client-raises r md lacks =
    >>=-raised (write tire r) (λ _. drop_silent r) {s = md} {t = md} (rw (lacks, ◌>>=◌) refl)

-- A client among those that are registered ends the first loop with an exception.
expire-raises :
    (rs : List Ref) (i : ℕ) (r : Ref) (md : MatchingData)
    → get_elem? rs i ≡ some r
    → Lacks r md
    → (e : Exception) × ((expire rs md).0 ≡ raised e)
unfolding expire
expire-raises [] i r md at lacks = cc
expire-raises (q ∷ rs) zero r md at lacks =
    let e : q ≡ r = cc in
    let gone = expire_client-raises q md (rw e lacks) in
    (
      attribute_error,
      ap (λ o. o.0) (>>=-raised (expire_client q) (λ _. expire rs) {s = md} {t = md} gone),
    )
expire-raises (q ∷ rs) (suc i) r md at lacks =
    let md' = (expire_client q md).1 in
    elim (Result-cases (expire_client q md).0) [
      | inl (_, went) ↦
          let (e, raises) = expire-raises rs i r md' at (expire_client-Lacks r q md lacks) in
          (e, rw (went, ◌>>=◌) raises)
      | inr (inl (e, went)) ↦ (e, rw (went, ◌>>=◌) refl)
      | inr (inr went) ↦ absurd ((expire_client-Runs q md tt).0 went)
    ]

module _ (fl : Floats) (u : Unicode) where
  open fl use {Float, of_nat}

  module _ (clock : ℕ → Float) where
    paired : Step fl u (Unit {0})
    paired = do
      unmatched_copy ← gets (λ s. s.match_data.unmatched_clients)
      on_data fl u (pair 0 unmatched_copy)
      sessions_copy ← gets (λ s. s.match_data.sessions)
      inform_sessions fl u clock 0 sessions_copy

    matchmake_round-raises :
        (e : Exception) (s : Server Float) (md : MatchingData)
        → s.match_data.locked ≡ false
        → expire (values s.match_data.address_to_record) (record (s.match_data) { locked = true })
          ≡ (raised e, md)
        → matchmake_round fl u clock s
          ≡ (raised e, record s { matchmake_wait_ctr = of_nat 0; match_data = md })
    unfolding matchmake_round matchmake paired
    matchmake_round-raises e s md free expired =
        let started = record s { matchmake_wait_ctr = of_nat 0 } in
        let locked = record started { match_data = record (s.match_data) { locked = true } } in
        let ready = record started { match_data = md } in
        let all_clients = values s.match_data.address_to_record in
        >>=-ok (on_data fl u acquire_lock) (λ _. matchmake fl u clock >> on_data fl u release_lock)
          (acquire_free fl u started free)
        ∙ >>=-raised (matchmake fl u clock) (λ _. on_data fl u release_lock)
            (>>=-raised (on_data fl u (expire all_clients)) (λ _. paired) {s = locked} {t = ready}
              (ap (λ o. (o.0, record started { match_data = o.1 })) expired))

    -- A round that is due and finds the lock free, with a registered client anywhere among those that
    -- are registered, raises an exception in its first loop: nobody is paired, nothing is put behind
    -- the responses, and no run of the threads changes the matching data again, whose lock is held.
    pub registered_client_ends_matching :
        (i : ℕ) (r : Ref) (s t : Server Float)
        → s.match_data.locked ≡ false
        → get_elem? (values s.match_data.address_to_record) i ≡ some r
        → Lacks r s.match_data
        → Turns fl u (matchmake_round fl u clock s).1 t
        → let expired =
            expire
              (values s.match_data.address_to_record)
              (record (s.match_data) { locked = true }) in
          ((e : Exception) × ((matchmake_round fl u clock s).0 ≡ raised e))
          × ((matchmake_round fl u clock s).1.responses ≡ s.responses)
          × (t.match_data ≡ expired.1)
          × (t.match_data.locked ≡ true)
    registered_client_ends_matching i r s t free at lacks turns =
        let start = record (s.match_data) { locked = true } in
        let all_clients = values s.match_data.address_to_record in
        let (e, fails) = expire-raises all_clients i r start at lacks in
        let md = (expire all_clients start).1 in
        let raises = matchmake_round-raises e s md free (ap (λ x. (x, md)) fails) in
        let held = expire-IsHeld all_clients start refl in
        let same = Turns-held fl u md held turns (ap (λ o. o.1.match_data) raises) in
        (
          (e, ap (λ o. o.0) raises),
          ap (λ o. o.1.responses) raises,
          same,
          ap (λ m. m.locked) same ∙ held,
        )
