-- ===== src/Tests/Logs.antt =====
-- Examples for the connection log.
use meet_your_match.Prelude.{map, none, ℕ, ◌≡◌, ◌≢◌, refl, some, List, [], ◌∷◌, arith, length}
use meet_your_match.Python.{
  index_error, runtime_error, Result, ok, raised, Address, lookup, same_address,
}
use meet_your_match.Constants.{sv_error_ip_banned, sv_error_ip_log_maxed}
use meet_your_match.Benchmarks.{
  DictLog, new_list_log, new_dict_log, list_log_ip, dict_log_ip, list_turnover, dict_turnover, scan,
  add, sweep, free_place,
}
use meet_your_match.Benchmarks.Agreement.{as_refusal, list_results, list_results-results}
use meet_your_match.ConnectionLog
use meet_your_match.ConnectionLog.{ConnectionLog, Value, log_ip, turnover}
use meet_your_match.ConnectionLog.Bans.{log_ip-ne-banned}
use meet_your_match.ConnectionLog.Rate.{IsVerdict, log_ip_codes}
use meet_your_match.ConnectionLog.Capacity.{IsValid, run_polls, full_refuses_forever}
use meet_your_match.ConnectionLog.Strikes.{polls, fast_polls_strikes}
use meet_your_match.ConnectionLog.Limiter.{results, limiter_results, view, results-view}
use meet_your_match.Tests.Samples.{seconds, at, small_log, full_log}

two_polls : List (ℕ × Address)
two_polls = (11, at 1) ∷ (12, at 2) ∷ []

full_log-IsValid : IsValid seconds full_log
full_log-IsValid = record { bounded = omega arith; text_bans = tt }

small_log-IsValid : IsValid seconds small_log
small_log-IsValid = record { bounded = omega arith; text_bans = tt }

full_refuses_forever_example :
    (log_ip seconds 13 (at 3) (run_polls seconds two_polls full_log)).0 ≡ ok sv_error_ip_log_maxed
unfolding same_address
full_refuses_forever_example =
    full_refuses_forever seconds two_polls 13 (at 3) full_log full_log-IsValid refl (omega arith)

fast_polls_strikes_example :
    (t : ℕ) × (lookup (at 1) (polls seconds (at 1) (11 ∷ 12 ∷ []) small_log).ip_log
      ≡ some (record { time = t; strikes = 4 }))
    × (length (polls seconds (at 1) (11 ∷ 12 ∷ []) small_log).ban_list ≡ 1)
unfolding same_address
fast_polls_strikes_example =
    fast_polls_strikes seconds (at 1) (11 ∷ 12 ∷ []) small_log (record { time = 10; strikes = 2 })
      tt refl (refl, (refl, tt))

log_ip-ne-banned_example : (log_ip seconds 11 (at 1) small_log).0 ≢ ok sv_error_ip_banned
log_ip-ne-banned_example = log_ip-ne-banned seconds 11 (at 1) small_log tt

log_ip_codes_example : (c : ℕ) × ((log_ip seconds 11 (at 1) small_log).0 ≡ ok c) × IsVerdict c
log_ip_codes_example = log_ip_codes seconds 11 (at 1) small_log

-- a client that is banned, and polls again in time
banned_log : ConnectionLog ℕ
banned_log = run_polls seconds ((11, at 1) ∷ (12, at 1) ∷ []) small_log

results-view_example :
    results seconds ((20, at 1) ∷ (21, at 2) ∷ []) banned_log
    ≡ limiter_results seconds ((20, at 1) ∷ (21, at 2) ∷ []) (view seconds banned_log)
unfolding run_polls log_ip same_address banned_log
results-view_example = results-view seconds ((20, at 1) ∷ (21, at 2) ∷ []) banned_log (tt, tt)

-- The fourth strike puts the ip on the ban list, and the next poll is refused as too fast only.
ban_run :
    (run_polls seconds ((11, at 1) ∷ (12, at 1) ∷ []) small_log).ban_list
    ≡ Value.text (at 1).ip ∷ []
unfolding run_polls log_ip same_address
ban_run = refl

-- Two clients fill the list; the third is refused by an IndexError.
abbrev four_polls : List (ℕ × Address)
four_polls = (10, at 1) ∷ (11, at 2) ∷ (13, at 1) ∷ (20, at 3) ∷ []

list_results-results_example :
    list_results seconds four_polls (new_list_log seconds same_address 5 2 900)
    ≡ map (as_refusal seconds) (results seconds four_polls (ConnectionLog.init seconds 5 900 2))
list_results-results_example = list_results-results seconds 5 900 900 2 four_polls

list_run :
    list_results seconds four_polls (new_list_log seconds same_address 5 2 900)
    ≡ ok 0 ∷ ok 0 ∷ ok 1 ∷ raised index_error ∷ []
unfolding list_results list_log_ip scan add same_address
list_run = refl

-- A client that polls every three seconds, with five allowed: the dict variant does not note the time
-- of a poll that it refuses, so it lets the third one through, and the list variant does not.
abbrev steady : List (ℕ × Address)
steady = (10, at 1) ∷ (13, at 1) ∷ (16, at 1) ∷ []

dict_results : List (ℕ × Address) → DictLog Address ℕ → List (Result ℕ)
dict_results [] d = []
dict_results ((t, a) ∷ ps) d =
    let (r, d') = dict_log_ip seconds same_address t a d in r ∷ dict_results ps d'

steady_dict_run :
    dict_results steady (new_dict_log seconds same_address 5 2 900) ≡ ok 0 ∷ ok 1 ∷ ok 0 ∷ []
unfolding dict_results dict_log_ip same_address
steady_dict_run = refl

steady_list_run :
    list_results seconds steady (new_list_log seconds same_address 5 2 900)
    ≡ ok 0 ∷ ok 1 ∷ ok 1 ∷ []
unfolding list_results list_log_ip scan add same_address
steady_list_run = refl

-- After the turnover of both clients, their places are free again.
turnover_run :
    (list_turnover seconds same_address
      (λ _. 2000)
      (list_log_ip seconds same_address 11
        (at 2)
        (list_log_ip seconds same_address 10
          (at 1)
          (new_list_log seconds same_address 5 2 900)).1).1).1.ip_log
    ≡ none ∷ none ∷ []
unfolding list_log_ip scan add same_address list_turnover sweep free_place
turnover_run = refl

-- The dict variant raises a RuntimeError once it has deleted an entry.
dict_turnover_run :
    (dict_turnover seconds same_address
      (λ _. 2000)
      (dict_log_ip seconds same_address 10 (at 1) (new_dict_log seconds same_address 5 2 900)).1).0
    ≡ raised runtime_error
unfolding dict_log_ip same_address dict_turnover
dict_turnover_run = refl
