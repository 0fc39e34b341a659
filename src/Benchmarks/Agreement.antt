-- ===== src/Benchmarks/Agreement.antt =====
-- The list variant of the connection log (tests/basictests.py) against the log of the server
-- (common.py).
use meet_your_match.Prelude.{
  ℕ, suc, ◌+◌, ◌-◌, ◌≤◌, ◌<◌, ◌≡◌, refl, ap, ◌∙◌, true, false, some, none, List, [], ◌∷◌, ◌++◌, map,
  arith, leb, length, length-append, length-replicate, set, replicate, Bool-cases, inl, inr,
  if◌then◌else◌, Option, ◌==◌,
}
use meet_your_match.Python.{
  Result, ok, raised, index_error, Address, same_address, same_address_iff, Dict, lookup, insert,
  length-insert_new, length-insert_known, Floats,
}
use meet_your_match.Constants.{sv_error_ip_log_maxed}
use meet_your_match.ConnectionLog.{Entry, ConnectionLog, strike, note, log_ip, is_fast}
use meet_your_match.ConnectionLog.Cases.{log_ip_ind}
use meet_your_match.ConnectionLog
use meet_your_match.ConnectionLog.Limiter.{results}
use meet_your_match.ConnectionLog.Bans.{HasTextBans, not-is_listed, log_ip-HasTextBans}
use meet_your_match.Benchmarks.{ListLog, Places, scan, add, refuse, list_log_ip, new_list_log}

module _ (fl : Floats) where
  open fl use {Float}

  -- The places of the addresses that a log knows.
  abbrev known : Dict (Entry Float) → Places Address Float
  known = map (λ (a, e). some (a, e.time))

  length-known : (d : Dict (Entry Float)) → length (known d) ≡ length d
  length-known [] = refl
  length-known (x ∷ d) = ap suc (length-known d)

  scan-known :
      (d : Dict (Entry Float)) (rest : Places Address Float) (a : Address) (e : Entry Float)
      → lookup a d ≡ some e
      → (i : ℕ) × (scan fl same_address (suc (length d)) a (known d ++ rest)
          ≡ ok (some (i, e.time)))
        × ((t : Float) (n : ℕ)
            → set (known d ++ rest) i (some (a, t))
              ≡ known (insert a (record { time = t; strikes = n }) d) ++ rest)
  unfolding scan
  scan-known [] rest a e h = cc
  scan-known ((b, x) ∷ d) rest a e h = elim (Bool-cases (same_address a b)) [
    | inl y ↦
        let same : a ≡ b = (same_address_iff a b).0 y in
        let entry : x ≡ e = ground arith in (0, rw (y, entry) refl, λ t n. rw (y, same) refl)
    | inr m ↦
        let deeper : lookup a d ≡ some e = ground arith in
        let (i, found, put) = scan-known d rest a e deeper in
        (suc i, rw (m, found) refl, λ t n. rw (m, put t n) refl)
  ]

  scan-new :
      (d : Dict (Entry Float)) (r : ℕ) (a : Address)
      → lookup a d ≡ none
      → (scan fl same_address (suc (length d)) a (known d ++ replicate (suc r) none) ≡ ok none)
        × (scan fl same_address (suc (length d)) a (known d ++ []) ≡ raised index_error)
        × ((t : Float)
            → set (known d ++ replicate (suc r) none) (length d) (some (a, t))
              ≡ known (insert a (record { time = t; strikes = 0 }) d) ++ replicate r none)
  unfolding scan
  scan-new [] r a h = (refl, refl, λ t. refl)
  scan-new ((b, x) ∷ d) r a h =
      let apart : same_address a b ≡ false = ground arith in
      let deeper : lookup a d ≡ none = ground arith in
      let (found, ends, put) = scan-new d r a deeper in
      (rw (apart, found) refl, rw (apart, ends) refl, λ t. rw (apart, put t) refl)

  -- The list variant with the addresses of a log, in the order in which they came.
  abbrev pub as_list : ConnectionLog Float → ListLog Address Float → ListLog Address Float
  as_list log l = record l {
    max_ip = log.max_ips;
    ip_log = known log.ip_log ++ replicate (log.max_ips - length log.ip_log) none;
    avail_key = length log.ip_log;
    top_key = suc (length log.ip_log);
    max_poll_rate = log.max_poll_rate;
  }

  -- What the list variant makes of a result of the log: an IndexError where the log is full, and 1
  -- for the other errors.
  abbrev pub as_refusal : Result ℕ → Result ℕ
  as_refusal (ok c) =
      if c == sv_error_ip_log_maxed then raised index_error else ok (if c == 0 then 0 else 1)
  as_refusal r = r

  module _ (t : Float) (a : Address) (l : ListLog Address Float) (log : ConnectionLog Float) where
    known_poll :
        (e : Entry Float) (n : ℕ)
        → lookup a log.ip_log ≡ some e
        → list_log_ip fl same_address t a (as_list log l) ≡ (
          ok (refuse fl same_address (is_fast fl log t e.time)),
          as_list
              (record log { ip_log = insert a (record { time = t; strikes = n }) log.ip_log })
              l,
        )
    unfolding list_log_ip
    known_poll e n h =
        let (i, found, put) =
          scan-known log.ip_log (replicate (log.max_ips - length log.ip_log) none) a e h in
        rw
          (
            found,
            list_log_ip,
            put t n,
            length-insert_known a (record { time = t; strikes = n }) e log.ip_log h,
          )
          refl

    add-new :
        lookup a log.ip_log ≡ none
        → length log.ip_log < log.max_ips
        → add fl same_address t a (as_list log l) ≡ (ok 0, as_list (note fl t a log) l)
    unfolding add note
    add-new h room =
        let r = log.max_ips - (length log.ip_log + 1) in
        let more : log.max_ips - length log.ip_log ≡ suc r = omega arith in
        let places = known log.ip_log ++ replicate (suc r) none in
        let size : length places ≡ log.max_ips = omega (
          arith,
          length-append (known log.ip_log) (replicate (suc r) none),
          length-known log.ip_log,
          length-replicate {A = Option (Address × Float)} (suc r) none,
        ) in
        let free : leb log.max_ips (length log.ip_log) ≡ false = ground arith in
        let inside : leb (length places) (length log.ip_log) ≡ false = ground arith in
        let at_top : (length log.ip_log + 1 == suc (length log.ip_log)) ≡ true = ground arith in
        let top : suc (length log.ip_log) + 1 ≡ suc (length log.ip_log + 1) = omega arith in
        let (_, _, put) = scan-new log.ip_log r a h in
        rw
          (
            free,
            more,
            inside,
            at_top,
            put t,
            length-insert_new a (record { time = t; strikes = 0 }) log.ip_log h,
            top,
          )
          refl

    new_poll :
        lookup a log.ip_log ≡ none
        → length log.ip_log < log.max_ips
        → list_log_ip fl same_address t a (as_list log l) ≡ (ok 0, as_list (note fl t a log) l)
    unfolding list_log_ip note add
    new_poll h room =
        let r = log.max_ips - (length log.ip_log + 1) in
        let more : log.max_ips - length log.ip_log ≡ suc r = omega arith in
        let (found, _, put) = scan-new log.ip_log r a h in
        rw (more, found, list_log_ip) (add-new h room)

    full_poll :
        lookup a log.ip_log ≡ none
        → log.max_ips ≤ length log.ip_log
        → list_log_ip fl same_address t a (as_list log l) ≡ (raised index_error, as_list log l)
    unfolding list_log_ip
    full_poll h full =
        let none_left : log.max_ips - length log.ip_log ≡ 0 = omega arith in
        let (_, ends, _) = scan-new log.ip_log 0 a h in
        let full_scan : scan fl same_address (suc (length log.ip_log)) a
              (known log.ip_log ++ replicate (log.max_ips - length log.ip_log) none)
            ≡ raised index_error =
          rw none_left ends in
        rw (full_scan, list_log_ip) refl

    -- One poll of the list variant is one poll of the log.
    list_log_ip-as_list :
        HasTextBans log
        → list_log_ip fl same_address t a (as_list log l)
          ≡ (as_refusal (log_ip fl t a log).0, as_list (log_ip fl t a log).1 l)
    unfolding strike note
    list_log_ip-as_list bans =
        log_ip_ind fl t a log
          (λ o. list_log_ip fl same_address t a (as_list log l) ≡ (as_refusal o.0, as_list o.1 l))
          (λ listed. absurd (ground (arith, not-is_listed a log.ban_list bans)))
          (λ e k fast. known_poll e (e.strikes + 1) k ∙ rw fast refl)
          (λ e k slow. known_poll e 0 k ∙ rw slow refl) full_poll new_poll

  -- the results of a run of polls of the list variant
  unfoldable pub list_results : List (Float × Address) → ListLog Address Float → List (Result ℕ)
  list_results [] l = []
  list_results ((t, a) ∷ ps) l =
      let (r, l') = list_log_ip fl same_address t a l in r ∷ list_results ps l'

  list_results-as_list :
      (ps : List (Float × Address)) (log : ConnectionLog Float) (l : ListLog Address Float)
      → HasTextBans log
      → list_results ps (as_list log l) ≡ map as_refusal (results fl ps log)
  unfolding list_results results
  list_results-as_list [] log l bans = refl
  list_results-as_list ((t, a) ∷ ps) log l bans =
      let step = list_log_ip-as_list t a l log bans in
      let rest =
        list_results-as_list ps (log_ip fl t a log).1 l (log_ip-HasTextBans fl t a log bans) in
      ap (λ o. o.0 ∷ list_results ps o.1) step
      ∙ ap (λ rs. as_refusal (log_ip fl t a log).0 ∷ rs) rest

  -- From new logs with the same rate and size, the list variant refuses exactly the polls that the log
  -- of the server refuses, in every run, except that it raises an IndexError instead
  -- where the log of the server is full.
  pub list_results-results :
      (rate turn turn' : Float) (n : ℕ) (ps : List (Float × Address))
      → list_results ps (new_list_log fl same_address rate n turn)
        ≡ map as_refusal (results fl ps (ConnectionLog.init fl rate turn' n))
  unfolding ConnectionLog.init
  list_results-results rate turn turn' n ps =
      let l = new_list_log fl same_address rate n turn in
      let log = ConnectionLog.init fl rate turn' n in
      let all : n - 0 ≡ n = omega arith in
      let start : l ≡ as_list log l = rw all refl in
      ap (list_results ps) start ∙ list_results-as_list ps log l tt
