-- ===== src/Main/Children.antt =====
-- The threads and the child processes that the loop of `main` leaves (mym.py).
use meet_your_match.Prelude.{
  ℕ, ◌+◌, ◌*◌, ◌≤◌, ◌≡◌, ◌⊎◌, inl, inr, refl, true, false, Bool, List, [], ◌∷◌, ◌++◌, length, arith,
}
use meet_your_match.Python.{
  attribute_error, key_error, index_error, type_error, value_error, struct_error, unicode_error,
  runtime_error, overflow_error, assertion_error, name_error, Result, ok, raised, blocked, Py, pure,
  ◌>>=◌, ◌>>◌, keyboard_interrupt, external_error, system_exit, Text, After, Leads, >>=-Leads,
  ◌then◌, modify-Leads, pure-Leads, Exception,
}
use meet_your_match.Constants.{registration_port, matchmaking_port, session_port}
use meet_your_match.Main.{
  Event, succeeds, fails, interrupts, Machine, Step, called, slept, sleep, bind, kill_children,
  main_proc, announce, handle, attempt, attempts, main,
}
use meet_your_match.Main.Body.{Within, Never, Stops, body-Never}

abbrev Rests : ℕ → Exception → Machine → Type 0
Rests T e s = Within 0 T s

module _ (T : ℕ) where
  -- Between the rounds there is no child process.
  abbrev Between : {A : Type 0} → (Machine → Type 0) → Py Machine A → (Machine → Type 0) → Type 0
  Between P m Q = Leads (Rests T) (Within 2 T) P m Q

  slept-Within :
      (es : List Event) (s : Machine)
      → Within 0 T s
      → After
          (Within 0 T)
          (Rests T)
          (Within 2 T)
          (let (r, rest) = slept es in (r, record s { events = rest }))
  slept-Within [] s (h, h') = (omega arith, h')
  slept-Within (succeeds ∷ es) s h = h
  slept-Within (fails ∷ es) s h = h
  slept-Within (interrupts ∷ es) s h = h

  sleep-Within : Between (Within 0 T) sleep (Within 0 T)
  sleep-Within = record { leads = λ s h. slept-Within s.events s h }

  kill-Within : Between (Within 2 T) kill_children (Within 0 T)
  kill-Within = modify-Leads (λ s. record s { children = 0 }) (λ s h. (omega arith, h.1))

  handle-Within :
      (o : Result (Unit {0}) × Machine)
      → After Never (Stops T) (Within 2 T) o
      → After (Within 0 T) (Rests T) (Within 2 T) (handle o.0 o.1)
  unfolding handle
  handle-Within (ok _, s) h = elim h [ ]
  handle-Within (raised e, s) h = handled e s h
    where
      again : Between (Within 2 T) (kill_children >> (sleep >> pure false)) (Within 0 T)
      again = kill-Within then (sleep-Within then pure-Leads false)

      handled :
          (e : Exception) (s : Machine)
          → Stops T e s
          → After (Within 0 T) (Rests T) (Within 2 T) (handle (raised e) s)
      handled keyboard_interrupt s h = (kill-Within then pure-Leads true).leads s h
      handled (system_exit code) s h = elim h [ ]
      handled attribute_error s h = again.leads s h
      handled key_error s h = again.leads s h
      handled index_error s h = again.leads s h
      handled type_error s h = again.leads s h
      handled value_error s h = again.leads s h
      handled struct_error s h = again.leads s h
      handled unicode_error s h = again.leads s h
      handled runtime_error s h = again.leads s h
      handled overflow_error s h = again.leads s h
      handled assertion_error s h = again.leads s h
      handled name_error s h = again.leads s h
      handled external_error s h = again.leads s h
  handle-Within (blocked, s) h = h

  attempt-Between : (ip : Text) (t : ℕ) → t + 2 ≤ T → Between (Within 0 t) (attempt ip) (Within 0 T)
  unfolding attempt
  attempt-Between ip t h = record {
    leads = λ s h'. handle-Within ((announce ip >> main_proc) s) ((body-Never T ip t h).leads s h');
  }

-- With more threads allowed where it stops.
weaken :
    {A : Type 0} (t T : ℕ) (o : Result A × Machine)
    → t ≤ T
    → After (Within 0 t) (Rests t) (Within 2 t) o
    → After (Within 0 t) (Rests T) (Within 2 T) o
weaken t T (ok a, s) ht h = h
weaken t T (raised e, s) ht (h, h') = (h, omega arith)
weaken t T (blocked, s) ht (h, h') = (h, omega arith)

-- A round, and the rounds after it.
round-Between :
    (ip : Text) (rest : Step) (t T : ℕ)
    → t + 2 ≤ T
    → Between T (Within 0 (t + 2)) rest (Within 0 T)
    → Between T
        (Within 0 t)
        (attempt ip >>= λ ends. elim ends [ true ↦ pure tt | false ↦ rest ])
        (Within 0 T)
round-Between ip rest t T h hr = >>=-Leads first goes_on
  where
    first : Between T (Within 0 t) (attempt ip) (Within 0 (t + 2))
    first = record {
      leads = λ s h'.
          weaken (t + 2) T (attempt ip s) h
            ((attempt-Between (t + 2) ip t (omega arith)).leads s h');
    }

    goes_on :
        (ends : Bool)
        → Between T (Within 0 (t + 2)) (elim ends [ true ↦ pure tt | false ↦ rest ]) (Within 0 T)
    goes_on true = record { leads = λ s (a, b). (a, omega (arith, h)) }
    goes_on false = hr

attempts-Between :
    (ip : Text) (rounds : List (List Event)) (t T : ℕ)
    → t + 2 * length rounds ≤ T
    → Between T (Within 0 t) (attempts ip rounds) (Within 0 T)
unfolding attempts
attempts-Between ip [] t T h = record { leads = λ s (a, b). (omega arith, omega arith) }
attempts-Between ip (es ∷ ess) t T h =
    let next = attempts-Between ip ess (t + 2) T (omega (arith, h)) in
    record {
      leads = λ s h'.
          (round-Between ip (attempts ip ess) t T (omega (arith, h)) next).leads
            (record s { events = es }) h';
    }

bind-Between :
    (ip : Text) (port t T : ℕ) → t ≤ T → Between T (Within 0 t) (bind ip port) (Within 0 t)
bind-Between ip port t T ht =
    record { leads = λ s h. opened s.events s h }
    then (record { leads = λ s h. opened s.events s h }
        then modify-Leads (λ s. record s { sockets = s.sockets ++ (ip, port) ∷ [] }) (λ s h. h))
  where
    opened :
        (es : List Event) (s : Machine)
        → Within 0 t s
        → After
            (Within 0 t)
            (Rests T)
            (Within 2 T)
            (let (r, rest) = called es in (r, record s { events = rest }))
    opened [] s (h, h') = (omega arith, omega arith)
    opened (succeeds ∷ es) s h = h
    opened (fails ∷ es) s (h, h') = (h, omega arith)
    opened (interrupts ∷ es) s (h, h') = (h, omega arith)

main-Between :
    (ip : Text) (rounds : List (List Event)) (t T : ℕ)
    → t + 2 * length rounds ≤ T
    → Between T (Within 0 t) (main ip rounds) (Within 0 T)
unfolding main
main-Between ip rounds t T h =
    bind-Between ip registration_port t T (omega arith)
    then bind-Between ip matchmaking_port t T (omega arith)
    then bind-Between ip session_port t T (omega arith)
    then attempts-Between ip rounds t T h

-- What holds at the end, however it ends.
ended :
    {A : Type 0} (T : ℕ) (o : Result A × Machine)
    → After (Within 0 T) (Rests T) (Within 2 T) o
    → ((o.0 ≡ blocked) ⊎ (o.1.children ≡ 0)) × (o.1.children ≤ 2) × (o.1.threads ≤ T)
ended T (ok a, s) (h, h') = (inr (omega arith), omega arith, h')
ended T (raised e, s) (h, h') = (inr (omega arith), omega arith, h')
ended T (blocked, s) (h, h') = (inl refl, h, h')

-- From a machine without child processes, `main` comes to a halt with none, whether it returns or
-- raises; while it waits there are at most two, the manager's and that of matchmaking. It has
-- started at most two threads for each round of its loop.
pub main-children :
    (ip : Text) (rounds : List (List Event)) (s : Machine)
    → s.children ≡ 0
    → (((main ip rounds s).0 ≡ blocked) ⊎ ((main ip rounds s).1.children ≡ 0))
      × ((main ip rounds s).1.children ≤ 2)
      × ((main ip rounds s).1.threads ≤ s.threads + 2 * length rounds)
main-children ip rounds s h = ended (s.threads + 2 * length rounds) (main ip rounds s) (
    (main-Between ip rounds s.threads (s.threads + 2 * length rounds) (omega arith)).leads s
      (omega arith, omega arith))
