-- ===== src/ConnectionLog/Limiter.antt =====
-- What a client can see of a connection log (common.py): a limiter that knows, of each address, when
-- it polled last.
use mathlib.Core.Path.{fun_ext}
use mathlib.Core.Option
use meet_your_match.Prelude.{
  ℕ, ◌+◌, ◌≡◌, refl, sym, ap, ◌∙◌, true, false, Option, none, some, List, [], ◌∷◌, arith, leb,
  length, Bool-cases, inl, inr, if◌then◌else◌,
}
use meet_your_match.Python.{
  Result, ok, Address, same_address, Dict, lookup, insert, lookup-insert, length-insert_new,
  length-insert_known, Floats,
}
use meet_your_match.Constants.{sv_error_fast_poll_rate, sv_error_ip_log_maxed}
use meet_your_match.ConnectionLog.{Entry, ConnectionLog, is_fast, strike, note, log_ip, Value}
use meet_your_match.ConnectionLog.Cases.{log_ip_ind}
use meet_your_match.ConnectionLog.Bans.{HasTextBans, not-is_listed, log_ip-HasTextBans}

-- The last poll of each address, how many addresses are known, and the limits.
pub record Limiter (F : Type 0) : Type 0 where
  pub last : Address → Option F
  pub count : ℕ
  pub max_poll_rate : F
  pub max_ips : ℕ

module _ (fl : Floats) where
  open fl use {Float, minus, less}

  -- An address has polled at this time.
  abbrev pub mark : Float → Address → (Address → Option Float) → Address → Option Float
  mark t a last b = if same_address a b then some t else last b

  -- One poll: whether it comes too soon, or from an address too many, or is let through.
  abbrev after : Float → Address → Limiter Float → Option Float → Result ℕ × Limiter Float
  after t a l before = elim before [
    | some prev ↦ (
      ok (if less (minus t prev) l.max_poll_rate then sv_error_fast_poll_rate else 0),
      record l { last = mark t a l.last },
    )
    | none ↦
        if leb l.max_ips l.count
        then (ok sv_error_ip_log_maxed, l)
        else (ok 0, record l { last = mark t a l.last; count = l.count + 1 })
  ]

  abbrev pub poll : Float → Address → Limiter Float → Result ℕ × Limiter Float
  poll t a l = after t a l (l.last a)

  -- What can be seen of a log.
  abbrev pub view : ConnectionLog Float → Limiter Float
  view log = record {
    last = λ a. Option.map (λ e. e.time) (lookup a log.ip_log);
    count = length log.ip_log;
    max_poll_rate = log.max_poll_rate;
    max_ips = log.max_ips;
  }

  -- the results of a run of polls, each with its time and address
  unfoldable pub results : List (Float × Address) → ConnectionLog Float → List (Result ℕ)
  results [] log = []
  results ((t, a) ∷ ps) log = (log_ip fl t a log).0 ∷ results ps (log_ip fl t a log).1

  unfoldable pub limiter_results : List (Float × Address) → Limiter Float → List (Result ℕ)
  limiter_results [] l = []
  limiter_results ((t, a) ∷ ps) l = (poll t a l).0 ∷ limiter_results ps (poll t a l).1

  last-insert :
      (t : Float) (n : ℕ) (a : Address) (d : Dict (Entry Float)) (b : Address)
      → Option.map (λ e. e.time) (lookup b (insert a (record { time = t; strikes = n }) d))
        ≡ mark t a (λ c. Option.map (λ e. e.time) (lookup c d)) b
  last-insert t n a d b =
      rw (lookup-insert b a (record { time = t; strikes = n }) d)
        (elim (Bool-cases (same_address a b)) [ inl y ↦ rw y | inr m ↦ rw m ])

  module _ (t : Float) (a : Address) (log : ConnectionLog Float) where
    known_lem :
        (n : ℕ) (e : Entry Float) (bans : List Value)
        → lookup a log.ip_log ≡ some e
        → view (record log {
          ip_log = insert a (record { time = t; strikes = n }) log.ip_log;
          ban_list = bans;
        })
          ≡ record (view log) { last = mark t a (view log).last }
    known_lem n e bans known i = record {
      last = fun_ext (last-insert t n a log.ip_log) i;
      count = length-insert_known a (record { time = t; strikes = n }) e log.ip_log known i;
      max_poll_rate = log.max_poll_rate;
      max_ips = log.max_ips;
    }

    new_lem :
        lookup a log.ip_log ≡ none
        → view (note fl t a log)
          ≡ record (view log) { last = mark t a (view log).last; count = length log.ip_log + 1 }
    unfolding note
    new_lem new i = record {
      last = fun_ext (last-insert t 0 a log.ip_log) i;
      count = length-insert_new a (record { time = t; strikes = 0 }) log.ip_log new i;
      max_poll_rate = log.max_poll_rate;
      max_ips = log.max_ips;
    }

    known_poll :
        (e : Entry Float)
        → lookup a log.ip_log ≡ some e
        → poll t a (view log) ≡ (
          ok (if is_fast fl log t e.time then sv_error_fast_poll_rate else 0),
          record (view log) { last = mark t a (view log).last },
        )
    known_poll e known = ap (λ o. after t a (view log) (Option.map (λ e'. e'.time) o)) known

    new_poll : lookup a log.ip_log ≡ none → poll t a (view log) ≡ after t a (view log) none
    new_poll new = ap (λ o. after t a (view log) (Option.map (λ e'. e'.time) o)) new

    -- One poll of a log is one poll of what can be seen of it.
    poll-view :
        HasTextBans log → poll t a (view log) ≡ ((log_ip fl t a log).0, view (log_ip fl t a log).1)
    unfolding strike note
    poll-view bans =
        log_ip_ind fl t a log (λ o. poll t a (view log) ≡ (o.0, view o.1))
          (λ listed. absurd (ground (arith, not-is_listed a log.ban_list bans)))
          (λ e known fast. known_poll e known ∙ (λ i. (
            ok (if fast i then sv_error_fast_poll_rate else 0),
            sym (known_lem (e.strikes + 1) e (strike fl t a e log).ban_list known) i,
          )))
          (λ e known slow. known_poll e known ∙ (λ i. (
            ok (if slow i then sv_error_fast_poll_rate else 0),
            sym (known_lem 0 e log.ban_list known) i,
          )))
          (λ new full.
            let e : leb log.max_ips (length log.ip_log) ≡ true = ground arith in
            new_poll new ∙ rw e)
          (λ new room.
            let e : leb log.max_ips (length log.ip_log) ≡ false = ground arith in
            new_poll new ∙ rw e (ap (λ v. (ok 0, v)) (sym (new_lem new))))

  -- From a log whose ban list holds only texts, every run of polls gives what the limiter gives that
  -- knows no more than the time of each address's last poll: neither strikes nor bans change a result.
  pub results-view :
      (ps : List (Float × Address)) (log : ConnectionLog Float)
      → HasTextBans log
      → results ps log ≡ limiter_results ps (view log)
  unfolding results limiter_results
  results-view [] log bans = refl
  results-view ((t, a) ∷ ps) log bans =
      let step = poll-view t a log bans in
      let rest = results-view ps (log_ip fl t a log).1 (log_ip-HasTextBans fl t a log bans) in
      λ i. (sym step i).0 ∷ (rest ∙ ap (λ o. limiter_results ps o.1) (sym step)) i
