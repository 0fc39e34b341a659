-- ===== src/Matchmaker/Answer/Total.antt =====
-- Every answer of `query_respond` (match.py), with what it writes.
use meet_your_match.Prelude.{
  ℕ, ◌^◌, ◌<◌, ◌≡◌, ◌≢◌, refl, ◌∙◌, ◌⊎◌, inl, inr, Bool, true, false, some, none, arith, get_elem?,
  IsFirst, ◌==◌, Option-cases, if◌then◌else◌,
}
use meet_your_match.Python.{
  Result, ok, raised, attribute_error, pure, ◌>>=◌, ◌>>◌, >>=-ok, >>=-raised, Address,
}
use meet_your_match.Member.{Attributes}
use meet_your_match.Matching.{
  Ref, Session, MatchingData, Action, Store, has_address, write, update, assigned, revive,
  enter_match, find_client_unmatched, find_client_matched, find_host,
  reset_alive_ctr_unmatched_client, reset_alive_ctr_matched_client, reset_alive_ctr_host,
  set_client_in_match, set_host_in_match,
}
use meet_your_match.Matching.Find.{
  HasNone, IsFirstClient, find_client_unmatched_lem, find_client_matched_lem, find_host_lem,
}
use meet_your_match.Matching.Items.{unmatched_write, host_write, client_write}
use meet_your_match.Constants.{
  cl_status_matching, cl_status_matching_host, cl_status_in_match, cl_status_in_match_host,
  sv_status_matching_ok, sv_status_in_group, sv_status_in_match, sv_error_matching_not_found,
  sv_error_not_matching,
}
use meet_your_match.Matchmaker.Answer.{answer_host, answer_matching, answer_in_match, answer}

abbrev Outcome : Type 0
Outcome = Result ℕ × MatchingData

-- The answer to whom is found behind the reference: a host is answered with `c`, and the one change
-- is that of `f` to its attributes; a client, which has no room for them, raises an AttributeError,
-- and nothing changes.
abbrev pub Writes : (Attributes → Attributes) → ℕ → Ref → MatchingData → Outcome → Type 0
Writes f c r md o =
    ((d : Attributes)
      → (md.objects r).dict ≡ some d
      → o ≡ (ok c, record md { objects = update md.objects r (assigned (md.objects r) (f d)) }))
    × ((md.objects r).dict ≡ none → o ≡ (raised attribute_error, md))

-- The first of the unmatched clients with the address.
abbrev pub IsUnmatched : Address → MatchingData → Ref → Type 0
IsUnmatched a md r =
    (i : ℕ) × (get_elem? md.unmatched_clients i ≡ some r)
    × IsFirst (has_address md.objects a) md.unmatched_clients i

-- The first client with the address in the first session that has one.
abbrev pub IsMatched : Address → MatchingData → Ref → Type 0
IsMatched a md r =
    (i : ℕ) × (j : ℕ) × (s : Session) × (get_elem? md.sessions i ≡ some s)
    × (get_elem? s.clients j ≡ some r)
    × IsFirstClient md.objects a md.sessions i j

-- The host of the first session whose host has the address.
abbrev pub IsHost : Address → MatchingData → Ref → Type 0
IsHost a md r =
    (i : ℕ) × (s : Session) × (get_elem? md.sessions i ≡ some s)
    × (s.host ≡ r)
    × IsFirst (λ s. has_address md.objects a s.host) md.sessions i

abbrev pub NoHost : Address → MatchingData → Type 0
NoHost a md =
    (k : ℕ) (s : Session)
    → get_elem? md.sessions k ≡ some s
    → has_address md.objects a s.host ≡ false

abbrev pub NoClient : Address → MatchingData → Type 0
NoClient a md =
    (k : ℕ) (s : Session) → get_elem? md.sessions k ≡ some s → HasNone md.objects a s.clients

-- The answer is that nothing was found, and nothing changes.
abbrev pub NotFound : MatchingData → Outcome → Type 0
NotFound md o = o ≡ (ok sv_error_matching_not_found, md)

-- An answer behind a write.
after_write :
    (f : Attributes → Attributes) (c : ℕ) (r : Ref) (act : Action (Unit {0})) (md : MatchingData)
    → act md ≡ write f r md
    → Writes f c r md ((act >> pure c) md)
after_write f c r act md same = (
  λ d has.
      >>=-ok act (λ _. pure c) {s = md}
        {t = record md { objects = update md.objects r (assigned (md.objects r) (f d)) }}
        (same ∙ rw (has, ◌>>=◌) refl),
  λ lacks. >>=-raised act (λ _. pure c) {s = md} {t = md} (same ∙ rw (lacks, ◌>>=◌) refl),
)

module _ (a : Address) (md : MatchingData) where
  host_found :
      (act : ℕ → Action (Unit {0})) (f : Attributes → Attributes) (c : ℕ)
      → ((i : ℕ) (s : Session) → get_elem? md.sessions i ≡ some s → act i md ≡ write f s.host md)
      → ((r : Ref) × IsHost a md r × Writes f c r md (answer_host act c a md))
        ⊎ (NoHost a md × NotFound md (answer_host act c a md))
  unfolding answer_host
  host_found act f c acts = elim (Option-cases (find_host a md)) [
    | inl miss ↦ inr ((find_host_lem a md).1 miss, rw (miss, answer_host))
    | inr (i, hit) ↦
        let first = (find_host_lem a md).0 i hit in
        let (s, at, _, _) = first in
        inl (
          s.host,
          (i, s, at, refl, first),
          rw (hit, answer_host) (after_write f c s.host (act i) md (acts i s at)),
        )
  ]

  abbrev Sought : Outcome → Type 0
  Sought o =
      ((r : Ref) × IsUnmatched a md r × Writes revive sv_status_matching_ok r md o)
      ⊎ (HasNone md.objects a md.unmatched_clients
          × (((r : Ref) × IsMatched a md r × Writes revive sv_status_in_group r md o)
              ⊎ (NoClient a md
                  × (((r : Ref) × IsHost a md r × Writes revive sv_status_matching_ok r md o)
                      ⊎ (NoHost a md × NotFound md o)))))

  matching_found : Sought (answer_matching a md)
  unfolding answer_matching reset_alive_ctr_unmatched_client reset_alive_ctr_matched_client
      reset_alive_ctr_host
  matching_found = elim (Option-cases (find_client_unmatched a md)) [
    | inr (i, hit) ↦
        let first = (find_client_unmatched_lem a md).0 i hit in
        let (r, at, _, _) = first in
        inl (
          r,
          (i, at, first),
          rw (hit, answer_matching)
              (after_write revive sv_status_matching_ok r (reset_alive_ctr_unmatched_client i) md
                (unmatched_write i revive md at)),
        )
    | inl miss ↦ inr (
      (find_client_unmatched_lem a md).1 miss,
      elim (Option-cases (find_client_matched a md)) [
        | inr ((i, j), hit) ↦
            let first = (find_client_matched_lem a md).0 i j hit in
            let (s, at, client, _) = first in
            let (r, in_s, _, _) = client in
            inl (
              r,
              (i, j, s, at, in_s, first),
              rw (miss, hit, answer_matching)
                  (after_write revive sv_status_in_group r (reset_alive_ctr_matched_client i j) md
                    (client_write i j revive md at in_s)),
            )
        | inl miss' ↦ inr (
          (find_client_matched_lem a md).1 miss',
          rw (miss, miss', answer_matching)
              (host_found reset_alive_ctr_host revive sv_status_matching_ok
                (λ i s at. host_write i revive md at)),
        )
      ],
    )
  ]

  in_match_found :
      ((r : Ref) × IsMatched a md r
        × Writes enter_match sv_status_in_match r md (answer_in_match a md))
      ⊎ (NoClient a md × NotFound md (answer_in_match a md))
  unfolding answer_in_match set_client_in_match
  in_match_found = elim (Option-cases (find_client_matched a md)) [
    | inl miss ↦ inr ((find_client_matched_lem a md).1 miss, rw (miss, answer_in_match))
    | inr ((i, j), hit) ↦
        let first = (find_client_matched_lem a md).0 i j hit in
        let (s, at, client, _) = first in
        let (r, in_s, _, _) = client in
        inl (
          r,
          (i, j, s, at, in_s, first),
          rw (hit, answer_in_match)
              (after_write enter_match sv_status_in_match r (set_client_in_match i j) md
                (client_write i j enter_match md at in_s)),
        )
  ]

-- What an answer to each status does. A client that reports that it is matching is looked for among
-- the unmatched clients, then among the clients of sessions, then among the hosts, and the first that
-- is found counts: a client raises an AttributeError, since it has no room for the counter, and a
-- host is kept alive and answered. A matching host is looked for among the hosts, and kept alive. A
-- client in its match is looked for among the clients of sessions, and raises an AttributeError; a
-- host in its match is marked as such. (An object is told apart by whether it has a `__dict__`.) If
-- nobody is found the answer says so and nothing changes; any other status is answered as not
-- matching, and changes nothing. No answer waits, or takes or gives the lock.
pub answer_lem :
    (status : ℕ) (a : Address) (md : MatchingData)
    → let o = answer status a md in
      (status ≡ cl_status_matching
        → ((r : Ref) × IsUnmatched a md r × Writes revive sv_status_matching_ok r md o)
          ⊎ (HasNone md.objects a md.unmatched_clients
              × (((r : Ref) × IsMatched a md r × Writes revive sv_status_in_group r md o)
                  ⊎ (NoClient a md
                      × (((r : Ref) × IsHost a md r × Writes revive sv_status_matching_ok r md o)
                          ⊎ (NoHost a md × NotFound md o))))))
      × (status ≡ cl_status_matching_host
          → ((r : Ref) × IsHost a md r × Writes revive sv_status_matching_ok r md o)
            ⊎ (NoHost a md × NotFound md o))
      × (status ≡ cl_status_in_match
          → ((r : Ref) × IsMatched a md r × Writes enter_match sv_status_in_match r md o)
            ⊎ (NoClient a md × NotFound md o))
      × (status ≡ cl_status_in_match_host
          → ((r : Ref) × IsHost a md r × Writes enter_match sv_status_in_match r md o)
            ⊎ (NoHost a md × NotFound md o))
      × (status ≢ cl_status_matching
          → status ≢ cl_status_matching_host
          → status ≢ cl_status_in_match
          → status ≢ cl_status_in_match_host
          → o ≡ (ok sv_error_not_matching, md))
unfolding answer reset_alive_ctr_host set_host_in_match
answer_lem status a md = (
  λ e. rw e (matching_found a md),
  λ e. rw e (
      host_found a md reset_alive_ctr_host revive sv_status_matching_ok
        (λ i s at. host_write i revive md at)),
  λ e. rw e (in_match_found a md),
  λ e. rw e (
      host_found a md set_host_in_match enter_match sv_status_in_match
        (λ i s at. host_write i enter_match md at)),
  λ e f g h. ground arith,
)

-- The answer is some code, which a packet can carry, and changes objects at most; or it raises an
-- AttributeError, and changes nothing.
abbrev pub Answers : MatchingData → Outcome → Type 0
Answers md o =
    ((c : ℕ) × (objects : Store) × (o ≡ (ok c, record md { objects = objects })) × (c < 2 ^ 32))
    ⊎ (o ≡ (raised attribute_error, md))

from_Writes :
    (f : Attributes → Attributes) (c : ℕ) (r : Ref) (md : MatchingData) {o : Outcome}
    → c < 2 ^ 32
    → Writes f c r md o
    → Answers md o
from_Writes f c r md small (host, client) = elim (Option-cases (md.objects r).dict) [
  | inl lacks ↦ inr (client lacks)
  | inr (d, has) ↦ inl (c, update md.objects r (assigned (md.objects r) (f d)), host d has, small)
]

from_NotFound : (md : MatchingData) {o : Outcome} → NotFound md o → Answers md o
from_NotFound md e = inl (sv_error_matching_not_found, md.objects, e, omega arith)

if-Answers :
    (b : Bool) (m k : Action ℕ) (md : MatchingData)
    → Answers md (m md)
    → Answers md (k md)
    → Answers md ((if b then m else k) md)
if-Answers true m k md hm hk = hm
if-Answers false m k md hm hk = hk

pub answer-Answers :
    (status : ℕ) (a : Address) (md : MatchingData) → Answers md (answer status a md)
unfolding answer reset_alive_ctr_host set_host_in_match
answer-Answers status a md =
    if-Answers (status == cl_status_matching) (answer_matching a) _ md
      (elim (matching_found a md) [
        | inl (r, _, w) ↦ from_Writes revive sv_status_matching_ok r md (omega arith) w
        | inr (_, inl (r, _, w)) ↦ from_Writes revive sv_status_in_group r md (omega arith) w
        | inr (_, inr (_, inl (r, _, w))) ↦
            from_Writes revive sv_status_matching_ok r md (omega arith) w
        | inr (_, inr (_, inr (_, n))) ↦ from_NotFound md n
      ])
      (if-Answers (status == cl_status_matching_host)
        (answer_host reset_alive_ctr_host sv_status_matching_ok a) _ md
        (host reset_alive_ctr_host revive sv_status_matching_ok
          (λ i s at. host_write i revive md at) (omega arith))
        (if-Answers (status == cl_status_in_match) (answer_in_match a) _ md
          (elim (in_match_found a md) [
            | inl (r, _, w) ↦ from_Writes enter_match sv_status_in_match r md (omega arith) w
            | inr (_, n) ↦ from_NotFound md n
          ])
          (if-Answers (status == cl_status_in_match_host)
            (answer_host set_host_in_match sv_status_in_match a) (pure sv_error_not_matching) md
            (host set_host_in_match enter_match sv_status_in_match
              (λ i s at. host_write i enter_match md at) (omega arith))
            (inl (sv_error_not_matching, md.objects, refl, omega arith)))))
  where
    host :
        (act : ℕ → Action (Unit {0})) (f : Attributes → Attributes) (c : ℕ)
        → ((i : ℕ) (s : Session) → get_elem? md.sessions i ≡ some s → act i md ≡ write f s.host md)
        → c < 2 ^ 32
        → Answers md (answer_host act c a md)
    host act f c acts small = elim (host_found a md act f c acts) [
      | inl (r, _, w) ↦ from_Writes f c r md small w
      | inr (_, n) ↦ from_NotFound md n
    ]
