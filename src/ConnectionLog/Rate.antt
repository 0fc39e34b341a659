-- ===== src/ConnectionLog/Rate.antt =====
-- What one poll writes in a connection log (common.py).
use meet_your_match.Prelude.{ℕ, ◌+◌, ◌≡◌, refl, ◌≢◌, ◌⊎◌, inl, inr, some, arith}
use Prim.Native.Nat.{bit_and}
use meet_your_match.Python.{
  ok, Address, lookup, insert, lookup-insert_self, lookup-insert_ne, Floats,
}
use meet_your_match.Constants.{
  sv_error, sv_error_ip_banned, sv_error_fast_poll_rate, sv_error_ip_log_maxed,
}
use meet_your_match.ConnectionLog.{Entry, ConnectionLog, strike, note, log_ip}
use meet_your_match.ConnectionLog.Cases.{log_ip_ind}

-- One of the three errors of a log.
abbrev pub IsLogError : ℕ → Type 0
IsLogError c =
    (c ≡ sv_error_ip_banned) ⊎ (c ≡ sv_error_fast_poll_rate) ⊎ (c ≡ sv_error_ip_log_maxed)

-- Let through, or refused with an error that the callers' test `error & SV_ERROR` stops.
abbrev pub IsVerdict : ℕ → Type 0
IsVerdict c = ((c ≡ 0) × (bit_and c sv_error ≡ 0)) ⊎ (IsLogError c × (bit_and c sv_error ≢ 0))

module _ (fl : Floats) (t : fl.Float) (a : Address) (log : ConnectionLog fl.Float) where
  -- `log_ip` never raises and never waits. It returns 0, which the callers' test
  -- `error & SV_ERROR` lets through, or one of three errors, which that test stops.
  pub log_ip_codes : (c : ℕ) × ((log_ip fl t a log).0 ≡ ok c) × IsVerdict c
  log_ip_codes =
      log_ip_ind fl t a log (λ o. (c : ℕ) × (o.0 ≡ ok c) × IsVerdict c)
        (λ _. (sv_error_ip_banned, refl, inr (inl refl, omega arith)))
        (λ _ _ _. (sv_error_fast_poll_rate, refl, inr (inr (inl refl), omega arith)))
        (λ _ _ _. (0, refl, inl (refl, refl)))
        (λ _ _. (sv_error_ip_log_maxed, refl, inr (inr (inr refl), omega arith)))
        (λ _ _. (0, refl, inl (refl, refl)))

  pub log_ip-IsVerdict : (c : ℕ) → (log_ip fl t a log).0 ≡ ok c → IsVerdict c
  log_ip-IsVerdict c logged =
      let (c', e, kind) = log_ip_codes in let same : c' ≡ c = ground arith in rw same at kind

  -- A poll leaves the entry of every other address as it was.
  pub lookup-log_ip_ne :
      (b : Address) → b ≢ a → lookup b (log_ip fl t a log).1.ip_log ≡ lookup b log.ip_log
  unfolding strike note
  lookup-log_ip_ne b h =
      log_ip_ind fl t a log (λ o. lookup b o.1.ip_log ≡ lookup b log.ip_log) (λ _. refl)
        (λ e _ _. other _) (λ _ _ _. other _) (λ _ _. refl) (λ _ _. other _)
    where
      other : (e : Entry fl.Float) → lookup b (insert a e log.ip_log) ≡ lookup b log.ip_log
      other e = lookup-insert_ne b a e log.ip_log h

  -- A poll that is let through leaves its time and no strikes; a poll that is too fast leaves its
  -- time and one strike more.
  lookup-log_ip_self :
      ((log_ip fl t a log).0 ≡ ok 0
        → lookup a (log_ip fl t a log).1.ip_log ≡ some (record { time = t; strikes = 0 }))
      × ((log_ip fl t a log).0 ≡ ok sv_error_fast_poll_rate
          → (e : Entry fl.Float) × (lookup a log.ip_log ≡ some e)
            × (lookup a (log_ip fl t a log).1.ip_log
                ≡ some (record { time = t; strikes = e.strikes + 1 })))
  unfolding strike note
  lookup-log_ip_self =
      log_ip_ind fl t a log
        (λ o.
          (o.0 ≡ ok 0 → lookup a o.1.ip_log ≡ some (record { time = t; strikes = 0 }))
          × (o.0 ≡ ok sv_error_fast_poll_rate
              → (e : Entry fl.Float) × (lookup a log.ip_log ≡ some e)
                × (lookup a o.1.ip_log ≡ some (record { time = t; strikes = e.strikes + 1 }))))
        (λ _. (λ q. ground arith, λ q. absurd (ground arith)))
        (λ e known _. (λ q. ground arith, λ _. (e, known, mine _)))
        (λ e _ _. (λ _. mine _, λ q. absurd (ground arith)))
        (λ _ _. (λ q. ground arith, λ q. absurd (ground arith)))
        (λ _ _. (λ _. mine _, λ q. absurd (ground arith)))
    where
      mine : (e : Entry fl.Float) → lookup a (insert a e log.ip_log) ≡ some e
      mine e = lookup-insert_self a e log.ip_log
