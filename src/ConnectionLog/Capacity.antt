-- ===== src/ConnectionLog/Capacity.antt =====
-- The size of a connection log (common.py), and what follows once it is full.
use meet_your_match.Prelude.{
  ℕ, ◌+◌, ◌≤◌, ◌≡◌, sym, ap, ◌∙◌, Bool-cases, inl, inr, List, [], ◌∷◌, none, arith, length,
}
use native.Mathlib.Nat.{le_trans}
use meet_your_match.Python.{
  ok, Address, same_address, same_address_iff, lookup, length-insert_new, length-insert_known,
  Floats,
}
use meet_your_match.Constants.{sv_error_ip_log_maxed}
use meet_your_match.ConnectionLog.{ConnectionLog, init, strike, note, log_ip}
use meet_your_match.ConnectionLog.Cases.{log_ip_ind}
use meet_your_match.ConnectionLog.Bans.{
  HasTextBans, init-HasTextBans, log_ip-HasTextBans, not-is_listed,
}
use meet_your_match.ConnectionLog.Rate.{lookup-log_ip_ne}

module _ (fl : Floats) where
  open fl use {Float}

  abbrev Log : Type 0
  Log = ConnectionLog Float

  -- A log with no more entries than it may have, whose ban list holds texts.
  pub record IsValid (log : Log) : Type 0 where
    pub bounded : length log.ip_log ≤ log.max_ips
    pub text_bans : HasTextBans log

  -- What a call does to the size, and to the limit.
  abbrev pub Grows : Log → Log → Type 0
  Grows log log' =
      (length log.ip_log ≤ length log'.ip_log)
      × (length log'.ip_log ≤ length log.ip_log + 1)
      × (log'.max_ips ≡ log.max_ips)
      × (length log.ip_log ≤ log.max_ips → length log'.ip_log ≤ log.max_ips)

  pub log_ip-Grows : (t : Float) (a : Address) (log : Log) → Grows log (log_ip fl t a log).1
  unfolding strike note
  log_ip-Grows t a log =
      log_ip_ind fl t a log (λ o. Grows log o.1) (λ _. omega arith)
        (λ e known _. omega (arith, length-insert_known a _ e log.ip_log known))
        (λ e known _. omega (arith, length-insert_known a _ e log.ip_log known))
        (λ _ _. omega arith) (λ new room. omega (arith, length-insert_new a _ log.ip_log new))

  pub init-IsValid : (rate turn : Float) (n : ℕ) → IsValid (init fl rate turn n)
  unfolding init
  init-IsValid rate turn n = record {
    bounded = omega arith;
    text_bans = init-HasTextBans fl rate turn n;
  }

  -- `log_ip` keeps a log valid.
  pub log_ip-IsValid :
      (t : Float) (a : Address) (log : Log) → IsValid log → IsValid (log_ip fl t a log).1
  log_ip-IsValid t a log v = record {
    bounded = let (_, _, same, keeps) = log_ip-Grows t a log in rw same (keeps v.bounded);
    text_bans = log_ip-HasTextBans fl t a log v.text_bans;
  }

  -- a run of polls, each with its time and address
  unfoldable pub run_polls : List (Float × Address) → Log → Log
  run_polls [] log = log
  run_polls ((t, a) ∷ ps) log = run_polls ps (log_ip fl t a log).1

  -- A valid log stays valid under every run of polls: it has at most `max_ips` entries, and its ban
  -- list holds texts.
  run_polls-IsValid :
      (ps : List (Float × Address)) (log : Log) → IsValid log → IsValid (run_polls ps log)
  unfolding run_polls
  run_polls-IsValid [] log v = v
  run_polls-IsValid ((t, a) ∷ ps) log v =
      run_polls-IsValid ps (log_ip fl t a log).1 (log_ip-IsValid t a log v)

  full_poll :
      (t : Float) (a : Address) (log : Log)
      → IsValid log
      → lookup a log.ip_log ≡ none
      → log.max_ips ≤ length log.ip_log
      → log_ip fl t a log ≡ (ok sv_error_ip_log_maxed, log)
  unfolding log_ip
  full_poll t a log v new full = ground (arith, not-is_listed a log.ban_list v.text_bans)

  -- A poll at a full log leaves it full, and makes no address known.
  full_stays :
      (t : Float) (a b : Address) (log : Log)
      → IsValid log
      → lookup b log.ip_log ≡ none
      → log.max_ips ≤ length log.ip_log
      → (lookup b (log_ip fl t a log).1.ip_log ≡ none)
        × ((log_ip fl t a log).1.max_ips ≤ length (log_ip fl t a log).1.ip_log)
  full_stays t a b log v new full = elim (Bool-cases (same_address b a)) [
    | inl self ↦
        let e : a ≡ b = sym ((same_address_iff b a).0 self) in
        rw (full_poll t a log v (rw e new) full) (new, full)
    | inr other ↦
        let (grows, _, same, _) = log_ip-Grows t a log in
        (
          lookup-log_ip_ne fl t a log b (λ e. cc (other, (same_address_iff b a).1 e)) ∙ new,
          rw same (le_trans full grows),
        )
  ]

  -- Once a valid log is full, an address that it does not know is refused, for the full log, after
  -- every run of polls, by whomever and however late.
  pub full_refuses_forever :
      (ps : List (Float × Address)) (t : Float) (b : Address) (log : Log)
      → IsValid log
      → lookup b log.ip_log ≡ none
      → log.max_ips ≤ length log.ip_log
      → (log_ip fl t b (run_polls ps log)).0 ≡ ok sv_error_ip_log_maxed
  unfolding run_polls
  full_refuses_forever [] t b log v new full = ap (λ o. o.0) (full_poll t b log v new full)
  full_refuses_forever ((u, a) ∷ ps) t b log v new full =
      let (new', full') = full_stays u a b log v new full in
      full_refuses_forever ps t b (log_ip fl u a log).1 (log_ip-IsValid u a log v) new' full'
