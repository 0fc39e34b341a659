-- ===== src/Tests/Texts.antt =====
-- Examples for what is printed.
use meet_your_match.Prelude.{◌≡◌, refl}
use meet_your_match.Matching.{acquire_lock, release_lock}
use meet_your_match.Text.{codes}
use meet_your_match.Text.Numerals.{digits_before, str_int}
use meet_your_match.Prelude.Int.{negsuc}
use meet_your_match.Printing.{str_client, str_session, str_line_count, str_matching}
use meet_your_match.Printing.Lines.{newlines, newlines-str_session}
use meet_your_match.Tests.Samples.{client_at, member_at, one_session, waiting_host, lobby}

newlines-str_session_example :
    newlines (str_session member_at one_session) ≡ str_line_count one_session
newlines-str_session_example =
    newlines-str_session member_at one_session (refl, refl) ((refl, refl), tt)

-- A session without clients has one line more than it counts.
empty_session_run : newlines (str_session member_at waiting_host) ≡ 6
unfolding str_session digits_before
empty_session_run = refl

client_run : str_client (client_at 1) ≡ codes "10.0.0.1:7777 | Ada | 0001"
unfolding str_client digits_before
client_run = refl

-- The text of the matching data is made under the lock, which is given back.
matching_run : (str_matching lobby).1 ≡ lobby
unfolding str_matching acquire_lock release_lock
matching_run = refl

large_run : str_int (negsuc 1233) ≡ codes "-1234"
unfolding digits_before
large_run = refl
