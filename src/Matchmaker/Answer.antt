-- ===== src/Matchmaker/Answer.antt =====
-- The branches of `query_respond` (match.py) on the status that a client reports.
pub mod Total
use meet_your_match.Prelude.{ℕ, Option, none, some, ◌==◌, if◌then◌else◌}
use meet_your_match.Python.{Py, pure, ◌>>=◌, ◌>>◌, gets, Address}
use meet_your_match.Matching.{
  MatchingData, Action, find_client_unmatched, find_client_matched, find_host,
  reset_alive_ctr_unmatched_client, reset_alive_ctr_matched_client, reset_alive_ctr_host,
  set_client_in_match, set_host_in_match,
}
use meet_your_match.Constants.{
  cl_status_matching, cl_status_matching_host, cl_status_in_match, cl_status_in_match_host,
  sv_status_matching_ok, sv_status_in_group, sv_status_in_match, sv_error_matching_not_found,
  sv_error_not_matching,
}

-- a host that is looked for, with what is done if it is found, and the answer
unfoldable pub answer_host : (ℕ → Action (Unit {0})) → ℕ → Address → Action ℕ
answer_host act found address md = elim (find_host address md) [
  | some session_index ↦ (act session_index >> pure found) md
  | none ↦ pure sv_error_matching_not_found md
]

unfoldable pub answer_matching : Address → Action ℕ
answer_matching address md = elim (find_client_unmatched address md) [
  | some unmatched_index ↦
      (reset_alive_ctr_unmatched_client unmatched_index >> pure sv_status_matching_ok) md
  | none ↦ elim (find_client_matched address md) [
    | some (ses_i, client_i) ↦
        (reset_alive_ctr_matched_client ses_i client_i >> pure sv_status_in_group) md
    | none ↦ answer_host reset_alive_ctr_host sv_status_matching_ok address md
  ]
]

unfoldable pub answer_in_match : Address → Action ℕ
answer_in_match address md = elim (find_client_matched address md) [
  | some (ses_i, client_i) ↦ (set_client_in_match ses_i client_i >> pure sv_status_in_match) md
  | none ↦ pure sv_error_matching_not_found md
]

unfoldable pub answer : ℕ → Address → Action ℕ
answer remote_status address =
    if remote_status == cl_status_matching
    then answer_matching address
    else if remote_status == cl_status_matching_host
    then answer_host reset_alive_ctr_host sv_status_matching_ok address
    else if remote_status == cl_status_in_match
    then answer_in_match address
    else if remote_status == cl_status_in_match_host
    then answer_host set_host_in_match sv_status_in_match address
    else pure sv_error_not_matching
