-- ===== src/Tests/Starting.antt =====
-- Examples for the command line and for the program as a whole.
use meet_your_match.Prelude.{
  All, Bool, false, ◌⊎◌, ◌≤◌, length, replicate, ◌++◌, ◌+◌, ◌*◌, ℕ, ◌≡◌, ◌≢◌, refl, true, false,
  List, [], ◌∷◌,
}
use meet_your_match.Python.{same_text, blocked, ok, raised, system_exit, name_error, Text}
use meet_your_match.Text.{codes, split_dots, int}
use meet_your_match.Constants.{default_ip, max_registering}
use meet_your_match.CommandLine.{default_settings, errname_ip_malformed, script, ints, assert_bytes}
use meet_your_match.CommandLine.Loop.{interpret, script-interpret}
use meet_your_match.CommandLine.Endings.{script-ends}
use meet_your_match.CommandLine.Ips.{IsPackable, script-IsPackable}
use meet_your_match.Matchmaker.{matchmake_and_respond}
use meet_your_match.Matchmaker.Running.Thread.{matchmake_and_respond-Runs}
use meet_your_match.Sockets.{datagram, os_error, buffer_incoming}
use meet_your_match.Program.Logs.{IsWithin, logs-IsWithin}
use meet_your_match.Program.Live.{matchmaking_goes_on}
use meet_your_match.Program.{
  Turns, Program, reg_inc, reg_t, matchmake_t, done, after, max_user_ct, main_proc, receive,
  register_round,
}
use meet_your_match.Program.Refusals.{told-IsRefusal}
use meet_your_match.Packet.{unpackit, packit}
use meet_your_match.Packet.Readable.{IsRefusal}
use meet_your_match.Utf8.{decode_text, encode_text}
use meet_your_match.Struct.{pack_uint}
use meet_your_match.ConnectionLog
use meet_your_match.ConnectionLog.{log_ip}
use meet_your_match.Registration.{register_next, handle, respond, reply}
use meet_your_match.Program.Idle.{nobody_is_matched}
use meet_your_match.Tests.Samples.{bits, bits-IsDouble, seconds, ascii, at, server, member_at}
use meet_your_match.Main.{Event, Machine, main, succeeds, fails}
use meet_your_match.Main.Children.{main-children}
use meet_your_match.Main.Threads.{bound, broken, stopped, threads_are_left}

abbrev two_args : List Text
two_args = codes "mym.py" ∷ codes "-v" ∷ codes "--ip" ∷ codes "10.0.0.7" ∷ []

script-interpret_example :
    script ascii two_args default_settings
    ≡ interpret ascii (codes "-v" ∷ codes "--ip" ∷ codes "10.0.0.7" ∷ []) default_settings
script-interpret_example = script-interpret ascii two_args default_settings

script-ends_example : (script ascii two_args default_settings).0 ≢ blocked
script-ends_example = script-ends ascii two_args default_settings

script-IsPackable_example : IsPackable ascii (script ascii two_args default_settings).1.local_ip
script-IsPackable_example = script-IsPackable ascii two_args

-- The ip is taken, and the verbose mode is on.
ip_run :
    script ascii two_args default_settings
    ≡ (ok tt, record { verbose = true; local_ip = codes "10.0.0.7"; printed = [] })
unfolding script ints assert_bytes split_dots int same_text
ip_run = refl

-- An ip with a part above 255 is refused.
large_run :
    (script ascii (codes "mym.py" ∷ codes "-i" ∷ codes "10.0.0.256" ∷ []) default_settings).0
    ≡ raised (system_exit 1)
unfolding script ints assert_bytes split_dots int same_text
large_run = refl

-- Without a value, `--ip` prints its error, and the server starts with the default.
missing_run : script ascii (codes "mym.py" ∷ codes "--ip" ∷ []) default_settings ≡ (
  ok tt,
  record { verbose = false; local_ip = default_ip; printed = errname_ip_malformed ∷ [] },
)
unfolding script same_text
missing_run = refl

-- A datagram comes and is read, and then a round of matchmaking is due.
abbrev start : Program ℕ
start = main_proc seconds 1 member_at 0

abbrev heard : Program ℕ
heard = receive seconds true (datagram (b'x' ∷ [], at 1)) start

abbrev answered : Program ℕ
answered = register_round seconds 0 0 heard

abbrev matched : Program ℕ
matched = record answered {
  server = (matchmake_and_respond seconds ascii 4 4 (λ i. i) answered.server).1;
}

abbrev turns : Turns seconds ascii start matched
turns =
    after (reg_inc true (datagram (b'x' ∷ [], at 1)) start)
      (after (reg_t 0 0 heard) (after (matchmake_t 4 4 (λ i. i) answered) (done matched)))

nobody_is_matched_example :
    (matched.server.in_pipe ≡ [])
    × (matched.server.match_data.address_to_record ≡ [])
    × (matched.server.match_data.unmatched_clients ≡ [])
    × (matched.server.match_data.sessions ≡ [])
    × (matched.server.match_data.locked ≡ false)
nobody_is_matched_example = nobody_is_matched seconds ascii 1 member_at 0 matched turns

matchmaking_goes_on_example :
    (matchmake_and_respond seconds ascii 8 8 (λ i. i) matched.server).0 ≢ blocked
matchmaking_goes_on_example =
    matchmaking_goes_on seconds ascii 1 member_at 0 matched turns 8 8 (λ i. i)

logs-IsWithin_example :
    IsWithin seconds ascii max_registering matched.register.connect_log
    × IsWithin seconds ascii max_user_ct matched.server.connect_log
logs-IsWithin_example = logs-IsWithin seconds ascii 1 member_at 0 matched turns

-- A client that does not register is answered.
abbrev refused : Program Bool
refused =
    register_round bits true true
      (receive bits true (datagram (replicate 508 0, at 1)) (main_proc bits true member_at false))

abbrev refusal : Turns bits ascii (main_proc bits true member_at false) refused
refusal =
    after (reg_inc true (datagram (replicate 508 0, at 1)) (main_proc bits true member_at false)) (
      after
        (reg_t true true (
          receive bits true (datagram (replicate 508 0, at 1))
            (main_proc bits true member_at false)))
        (done refused))

told-IsRefusal_example :
    All (λ (bytes, a). IsRefusal bits bytes) refused.register.sent
    × All (λ (bytes, a). IsRefusal bits bytes) refused.server.responses.items
told-IsRefusal_example =
    told-IsRefusal bits ascii bits-IsDouble true member_at false refused refusal

one_answer_run : length refused.register.sent ≡ 1
unfolding register_round receive main_proc register_next handle respond reply unpackit packit log_ip
    buffer_incoming decode_text encode_text pack_uint ConnectionLog.init
one_answer_run = refl

-- A round with a session to inform.
matchmake_and_respond-Runs_example :
    ((matchmake_and_respond seconds ascii 4 4 (λ i. i) server).0 ≢ blocked)
    × ((matchmake_and_respond seconds ascii 4 4 (λ i. i) server).1.responses.locked ≡ false)
matchmake_and_respond-Runs_example =
    matchmake_and_respond-Runs seconds ascii 4 4 (λ i. i) server refl refl

-- An error of the socket ends the thread, unless it runs on Windows.
socket_run : buffer_incoming false os_error [] ≡ (raised name_error, [])
unfolding buffer_incoming
socket_run = refl

abbrev machine : Machine
machine = record { events = bound; sockets = []; threads = 0; children = 0; printed = [] }

-- A round in which the pipe cannot be made, and one that is waited for.
abbrev two_rounds : List (List Event)
two_rounds = (fails ∷ succeeds ∷ []) ∷ replicate 9 succeeds ∷ []

main-children_example :
    (((main default_ip two_rounds machine).0 ≡ blocked)
      ⊎ ((main default_ip two_rounds machine).1.children ≡ 0))
    × ((main default_ip two_rounds machine).1.children ≤ 2)
    × ((main default_ip two_rounds machine).1.threads ≤ 0 + 2 * length two_rounds)
main-children_example = main-children default_ip two_rounds machine refl

threads_are_left_example :
    ((main default_ip (replicate 3 broken ++ stopped ∷ []) machine).0 ≡ ok tt)
    × ((main default_ip (replicate 3 broken ++ stopped ∷ []) machine).1.children ≡ 0)
    × ((main default_ip (replicate 3 broken ++ stopped ∷ []) machine).1.threads ≡ 0 + 2 * (3 + 1))
threads_are_left_example = threads_are_left default_ip 3 machine

-- While the second round runs, the manager and the process of matchmaking are there.
two_run :
    ((main default_ip two_rounds machine).0 ≡ blocked)
    × ((main default_ip two_rounds machine).1.children ≡ 2)
    × ((main default_ip two_rounds machine).1.threads ≡ 2)
unfolding main
two_run = (refl, refl, refl)
