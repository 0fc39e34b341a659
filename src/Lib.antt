-- ===== src/Lib.antt =====
-- A model of the Meet Your Match server, a Python program that registers game clients over UDP and
-- groups them into sessions, with the theorems about it.
--
-- The program starts in mym.py, which reads the command line and starts two processes. Registration
-- (register.py, `register_clients`) takes datagrams, refuses clients that poll too often
-- (`ConnectionLog`, common.py), and is to send the others through a pipe. Matchmaking (match.py) has
-- three threads on one `LockedMatchingData` (common.py): one takes clients from the pipe
-- (`register_intake`), one buffers datagrams (`buffer_incoming`), and one answers them and forms
-- sessions (`matchmake_and_respond`, `query_respond`, `matchmake`).
--
-- Which file models what:
--   Prelude, Python       numbers, lists and tests; exceptions, locks, state and dicts of Python
--   Constants             constants.py
--   ConnectionLog         common.py, `ConnectionLog`: `log_ip`, `turnover`, `forget_client`; Limiter is
--                         what a client can see of it
--   Struct, Utf8, Text    what the code uses of struct, of str.encode, of int and of split
--   Packet                common.py, `PacketData`: `packit`, `unpackit`
--   Classes               which attributes the objects of each class have
--   Member                common.py, `Client`, `MatchingClient`, `MatchingHost`
--   Matching              common.py, `LockedMatchingData` and `Session`
--   LockedList            common.py, `LockedList`
--   Registration          register.py; Registration/Client: the methods of `Client` that it calls;
--                         Registration/Latencies: `unpack_host_latency_info`; Replies and Sending:
--                         what is sent back
--   Sockets               common.py, `buffer_incoming`
--   Matchmaker            match.py: Pairing is the loops of `matchmake` (Silence: rounds with no host
--                         heard), Answer is `query_respond`, Pack is `pack_session`, Threads are the
--                         threads in any order, Rounds and Updates are about whole rounds, with
--                         a client registered and with hosts alone, Running about waiting for
--                         locks, Replies about what is answered, Sending about all responses
--   CommandLine           mym.py, the script: Loop gives the arguments' meaning, for the loop over
--                         them, Ips what an ip that it accepts is good for
--   Program               mym.py, `main_proc`, and match.py, `match_clients`: both processes and the
--                         pipe between them; Idle, Live, Logs, Answering and Refusals are
--                         about all runs from the start
--   Main                  mym.py, `main` and `main_proc` once more, by what they start: the sockets, the
--                         threads, the child processes, and the loop that starts anew after an
--                         exception; Body, Children and Threads are about what is started and
--                         what is left
--   Benchmarks            tests/basictests.py, `ConnectionLogList` and `ConnectionLogDict`; Agreement
--                         sets the first against the log of the server
--   Printing              common.py, the `__str__` methods, and match.py, `print_matchmaking`
--   Tests                 the theorems at concrete inputs
--
-- A call is a function from a state to a result and a state (Python/Monad): it returns, raises an
-- exception, or waits for a lock that is held, and what it wrote before it raised stays written. Names
-- keep the spelling of the source. A method or attribute that the code names is looked up in the class
-- (Classes), and the lookup raises an AttributeError if the class lacks it, as Python does; behind it
-- stands what the code goes on to do. The attributes `alive_ctr` and `in_match` have no slot, so they
-- stand in the `__dict__` of an object (Member, `dict`): one of `MatchingHost` has it, and one of
-- `MatchingClient` has none, so that each read and each write raises an AttributeError there. Clients are objects that lists share, so they stand in a store
-- and the lists hold references. Loops run over lists and need no fuel; a loop that never ends is
-- modelled by one round, and the runs of the threads are sequences of rounds. Two loops have fuel: the
-- one over the arguments (`read_args`), which counts by hand, has the number of the arguments, and
-- takes one or two of them in each round; and the digits of a number n (`digits_before`) have n + 1,
-- and take one for each digit. Numbers of the protocol are natural numbers with the bounds of their
-- fields, and a number that does not fit raises, as struct does.
--
-- Parameters: `Floats` stands for the clock's numbers and the format d of struct (`IsDouble` says that
-- its eight bytes give the number back), and `Unicode` for Python's tables of digits and spaces beyond
-- ASCII. The readings of the clock are arguments.
--
-- Not modelled: the log file, which the script only empties; the queues for dropped clients, which
-- nothing reads; the printing of exceptions; the latency fields of clients, which nothing reads; the
-- timings of the benchmarks (tests/basictests.py); and the Unreal plugin (MYMUnreal). What `matchmake`
-- prints with the verbose mode on stands apart from it (Printing, `matchmake_prints`), since printing
-- changes nothing else. What is to happen to the calls of `main` into the operating system is given
-- as lists of events, and a loop whose events are used up waits.
-- A set is a list of its members. A packet that `unpackit` has failed on is never read.
pub mod Prelude
pub mod Python
pub mod Constants
pub mod ConnectionLog
pub mod Struct
pub mod Utf8
pub mod Text
pub mod Packet
pub mod Classes
pub mod Member
pub mod Matching
pub mod LockedList
pub mod Sockets
pub mod Registration
pub mod Matchmaker
pub mod CommandLine
pub mod Program
pub mod Printing
pub mod Main
pub mod Benchmarks
pub mod Tests
