-- ===== src/ConnectionLog/Cases.antt =====
-- The five ways through `log_ip`, as a rule: what holds of each holds of the call.
use meet_your_match.Prelude.{
  ℕ, ◌≡◌, true, false, some, none, arith, leb, length, Bool-cases, Option-cases, inl, inr,
  if◌then◌else◌, ◌≤◌, ◌<◌,
}
use meet_your_match.Python.{Result, ok, Address, lookup, Floats}
use meet_your_match.Constants.{sv_error_ip_banned, sv_error_fast_poll_rate, sv_error_ip_log_maxed}
use meet_your_match.ConnectionLog.{
  Value, Entry, ConnectionLog, is_listed, is_fast, strike, note, log_ip,
}

module _ (fl : Floats) (t : fl.Float) (a : Address) (log : ConnectionLog fl.Float) where
  abbrev Outcome : Type 0
  Outcome = Result ℕ × ConnectionLog fl.Float

  known_ind {ℓ} :
      (P : Outcome → Type ℓ) (e : Entry fl.Float)
      → (is_fast fl log t e.time ≡ true → P (ok sv_error_fast_poll_rate, strike fl t a e log))
      → (is_fast fl log t e.time ≡ false → P (ok 0, note fl t a log))
      → P (
          if is_fast fl log t e.time
          then (ok sv_error_fast_poll_rate, strike fl t a e log)
          else (ok 0, note fl t a log))
  known_ind P e fast slow = elim (Bool-cases (is_fast fl log t e.time)) [
    | inl y ↦ rw y (fast y)
    | inr n ↦ rw n (slow n)
  ]

  new_ind {ℓ} :
      (P : Outcome → Type ℓ)
      → (log.max_ips ≤ length log.ip_log → P (ok sv_error_ip_log_maxed, log))
      → (length log.ip_log < log.max_ips → P (ok 0, note fl t a log))
      → P (
          if leb log.max_ips (length log.ip_log)
          then (ok sv_error_ip_log_maxed, log)
          else (ok 0, note fl t a log))
  new_ind P full room = elim (Bool-cases (leb log.max_ips (length log.ip_log))) [
    | inl y ↦ rw y (full (ground arith))
    | inr n ↦ rw n (room (ground arith))
  ]

  pub log_ip_ind {ℓ} :
      (P : Outcome → Type ℓ)
      → (is_listed (Value.address a) log.ban_list ≡ true → P (ok sv_error_ip_banned, log))
      → ((e : Entry fl.Float)
          → lookup a log.ip_log ≡ some e
          → is_fast fl log t e.time ≡ true
          → P (ok sv_error_fast_poll_rate, strike fl t a e log))
      → ((e : Entry fl.Float)
          → lookup a log.ip_log ≡ some e
          → is_fast fl log t e.time ≡ false
          → P (ok 0, note fl t a log))
      → (lookup a log.ip_log ≡ none
          → log.max_ips ≤ length log.ip_log
          → P (ok sv_error_ip_log_maxed, log))
      → (lookup a log.ip_log ≡ none → length log.ip_log < log.max_ips → P (ok 0, note fl t a log))
      → P (log_ip fl t a log)
  unfolding log_ip
  log_ip_ind P banned fast slow full room =
      elim (Bool-cases (is_listed (Value.address a) log.ban_list)) [
        | inl y ↦ rw y (banned y)
        | inr n ↦ rw n (elim (Option-cases (lookup a log.ip_log)) [
          | inl new ↦ rw new (new_ind P (full new) (room new))
          | inr (e, known) ↦ rw known (known_ind P e (fast e known) (slow e known))
        ])
      ]
