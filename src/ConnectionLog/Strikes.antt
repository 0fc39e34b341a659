-- ===== src/ConnectionLog/Strikes.antt =====
-- Runs of polls by one client, each too soon after the one before.
use meet_your_match.Prelude.{
  ℕ, suc, ◌+◌, ◌-◌, ◌≡◌, refl, ap, ◌∙◌, List, [], ◌∷◌, true, some, arith, length, length-append,
  ltb, Bool-cases, inl, inr,
}
use mathlib.Core.Path.{subst}
use meet_your_match.Python.{Address, lookup, lookup-insert_self, Floats}
use meet_your_match.ConnectionLog.{Value, Entry, ConnectionLog, strike, log_ip}
use meet_your_match.ConnectionLog.Bans.{HasTextBans, log_ip-HasTextBans, not-is_listed}

module _ (fl : Floats) where
  open fl use {Float, minus, less}

  abbrev Log : Type 0
  Log = ConnectionLog Float

  -- Each time comes too soon after the one before it.
  abbrev pub AllFast : Float → Float → List Float → Type 0
  AllFast rate prev [] = Unit
  AllFast rate prev (t ∷ ts) = (less (minus t prev) rate ≡ true) × AllFast rate t ts

  -- the polls of one client at these times
  unfoldable pub polls : Address → List Float → Log → Log
  polls a [] log = log
  polls a (t ∷ ts) log = polls a ts (log_ip fl t a log).1

  fast_poll :
      (t : Float) (a : Address) (log : Log) (e : Entry Float)
      → HasTextBans log
      → lookup a log.ip_log ≡ some e
      → less (minus t e.time) log.max_poll_rate ≡ true
      → (log_ip fl t a log).1 ≡ strike fl t a e log
  unfolding log_ip
  fast_poll t a log e bans known fast = ground (arith, not-is_listed a log.ban_list bans)

  -- What one strike does.
  strike_parts :
      (t : Float) (a : Address) (log : Log) (e : Entry Float)
      → (lookup a (strike fl t a e log).ip_log
          ≡ some (record { time = t; strikes = e.strikes + 1 }))
        × ((strike fl t a e log).max_poll_rate ≡ log.max_poll_rate)
        × (length (strike fl t a e log).ban_list
            ≡ length log.ban_list + ((e.strikes + 1 - 3) - (e.strikes - 3)))
  unfolding strike
  strike_parts t a log e = (
    lookup-insert_self a _ log.ip_log,
    refl,
    elim (Bool-cases (ltb 3 (e.strikes + 1))) [
      | inl many ↦ rw many (ground (arith, length-append log.ban_list (Value.text a.ip ∷ [])))
      | inr few ↦ rw few (ground arith)
    ],
  )

  add_assoc_suc : (n : ℕ) (ts : List Float) → n + 1 + length ts ≡ n + suc (length ts)
  add_assoc_suc n ts = omega arith

  -- After `n` polls in a row that are each too fast, a client's strikes have grown by `n`, and the
  -- ban list by one entry for each strike beyond the third.
  pub fast_polls_strikes :
      (a : Address) (ts : List Float) (log : Log) (e : Entry Float)
      → HasTextBans log
      → lookup a log.ip_log ≡ some e
      → AllFast log.max_poll_rate e.time ts
      → (t : Float) × (lookup a (polls a ts log).ip_log
          ≡ some (record { time = t; strikes = e.strikes + length ts }))
        × (length (polls a ts log).ban_list
            ≡ length log.ban_list + ((e.strikes + length ts - 3) - (e.strikes - 3)))
  unfolding polls
  fast_polls_strikes a [] log e bans known fast = (e.time, ground arith, omega arith)
  fast_polls_strikes a (t ∷ ts) log e bans known fast =
      let (known', rate, grown) = strike_parts t a log e in
      let (last, found, total) =
        fast_polls_strikes a ts (strike fl t a e log) (record { time = t; strikes = e.strikes + 1 })
          (subst HasTextBans (fast_poll t a log e bans known fast.0)
            (log_ip-HasTextBans fl t a log bans))
          known' (rw rate fast.1) in
      rw (fast_poll t a log e bans known fast.0, polls)
        (
          last,
          found ∙ ap (λ n. some (record { time = last; strikes = n })) (add_assoc_suc e.strikes ts),
          omega (arith, total, grown),
        )
