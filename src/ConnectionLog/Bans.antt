-- ===== src/ConnectionLog/Bans.antt =====
-- The ban list of a connection log: it is filled with ips and searched for addresses.
use meet_your_match.Prelude.{
  ℕ, ◌+◌, ◌≡◌, refl, ◌≢◌, false, List, [], ◌∷◌, arith, All, All-snoc, ltb, Bool-cases, inl, inr,
}
use meet_your_match.ConnectionLog.Cases.{log_ip_ind}
use meet_your_match.Python.{ok, Address, Floats}
use meet_your_match.Constants.{sv_error_ip_banned}
use meet_your_match.ConnectionLog.{
  Value, Entry, ConnectionLog, is_listed, init, strike, note, log_ip,
}

-- Every banned value is a text.
abbrev pub IsText : Value → Type 0
IsText (Value.text _) = Unit
IsText (Value.address _) = ⊥

abbrev pub HasTextBans : {F : Type 0} → ConnectionLog F → Type 0
HasTextBans log = All IsText log.ban_list

pub not-is_listed :
    (a : Address) (vs : List Value) → All IsText vs → is_listed (Value.address a) vs ≡ false
unfolding is_listed
not-is_listed a [] h = refl
not-is_listed a (Value.text t ∷ vs) h = not-is_listed a vs h.1
not-is_listed a (Value.address b ∷ vs) h = absurd h.0

module _ (fl : Floats) where
  open fl use {Float}

  pub init-HasTextBans : (rate turn : Float) (n : ℕ) → HasTextBans (init fl rate turn n)
  unfolding init
  init-HasTextBans rate turn n = tt

  strike-HasTextBans :
      (t : Float) (a : Address) (e : Entry Float) (log : ConnectionLog Float)
      → HasTextBans log
      → HasTextBans (strike fl t a e log)
  unfolding strike
  strike-HasTextBans t a e log h = elim (Bool-cases (ltb 3 (e.strikes + 1))) [
    | inl many ↦ rw many (All-snoc IsText (Value.text a.ip) log.ban_list h tt)
    | inr few ↦ rw few h
  ]

  -- A log whose ban list holds only texts still does after `log_ip`.
  pub log_ip-HasTextBans :
      (t : Float) (a : Address) (log : ConnectionLog Float)
      → HasTextBans log
      → HasTextBans (log_ip fl t a log).1
  unfolding note
  log_ip-HasTextBans t a log h =
      log_ip_ind fl t a log (λ o. HasTextBans o.1) (λ _. h)
        (λ e _ _. strike-HasTextBans t a e log h) (λ _ _ _. h) (λ _ _. h) (λ _ _. h)

  -- While the ban list holds only texts, no poll is refused as banned: `log_ip` looks for the
  -- address, a tuple, where it stored the ip.
  pub log_ip-ne-banned :
      (t : Float) (a : Address) (log : ConnectionLog Float)
      → HasTextBans log
      → (log_ip fl t a log).0 ≢ ok sv_error_ip_banned
  log_ip-ne-banned t a log h =
      log_ip_ind fl t a log (λ o. o.0 ≢ ok sv_error_ip_banned)
        (λ listed. absurd (ground (arith, not-is_listed a log.ban_list h))) (λ _ _ _. ground arith)
        (λ _ _ _. ground arith) (λ _ _. ground arith) (λ _ _. ground arith)
