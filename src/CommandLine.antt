-- ===== src/CommandLine.antt =====
-- The start of the program (mym.py): the arguments of the command line, up to the call of `main`.
pub mod Loop
pub mod Endings
pub mod Ips
use meet_your_match.Prelude.{
  ℕ, zero, suc, ◌+◌, Bool, true, false, ◌||◌, ◌&&◌, Option, none, some, List, [], ◌∷◌, ◌++◌, map,
  leb, ltb, length, get_elem?, any_of, ◌==◌, if◌then◌else◌,
}
use meet_your_match.Prelude.Int.{ℤ, pos, leb_ℤ}
use meet_your_match.Python.{
  Result, ok, raised, blocked, Py, pure, raise, or_raise, modify, assert, catching, ◌>>=◌, ◌>>◌,
  index_error, value_error, system_exit, Text, same_text,
}
use meet_your_match.Text.{Unicode, codes, decimal, split_dots, int}
use meet_your_match.Constants.{default_ip}

abbrev pub verbose_update_time : ℕ
verbose_update_time = 10

-- The entries of `valid_argnames`, each with that of `valid_argnames_info`.
abbrev pub help_names : List Text
help_names = codes "-h" ∷ codes "--help" ∷ []

abbrev pub ip_names : List Text
ip_names = codes "-i" ∷ codes "--ip" ∷ []

abbrev pub verbose_names : List Text
verbose_names = codes "-v" ∷ codes "--verbose" ∷ []

abbrev pub valid_argnames : List (List Text × Text)
unfolding decimal
valid_argnames =
    (help_names, codes "see names and explanations of arguments")
    ∷ (
      ip_names,
      codes "specifies the server's public ip address (default can be set in constants.py)",
    )
    ∷ (
      verbose_names,
      codes "prints out connected clients every "
          ++ (decimal verbose_update_time ++ codes " seconds"),
    )
    ∷ []

-- One line of `VALID_ARGS`.
abbrev pub describe : List Text × Text → Text
describe (short ∷ long ∷ _, info) =
    short ++ (codes ", " ++ (long ++ (codes " :\t" ++ (info ++ codes "\n"))))
describe _ = []

abbrev join : List Text → Text
join [] = []
join (s ∷ ss) = s ++ join ss

abbrev pub valid_args : Text
valid_args =
    codes "------------\n" ++ (join (map describe valid_argnames) ++ codes "------------\n")

abbrev pub errname_bad_argname : Text
errname_bad_argname =
    codes "\n------------\n"
    ++ (codes "__main__(): ERROR: malformed arg name\n"
        ++ (codes "example(1): python matchmaker.py \n"
            ++ (codes "(creates a udp matchmaking server with default settings)\n"
                ++ (codes "example(2): python3 matchmaker.py --help\n"
                    ++ (codes
                          "(see valid arguments, specifies python3, which may be necessary on linux)\n"
                        ++ codes "------------\n")))))

abbrev pub errname_ip_malformed : Text
errname_ip_malformed =
    codes "\n------------\n"
    ++ (codes "__main__(): ERROR: malformed ip arg value\n"
        ++ (codes "example(1): python3 matchmaker.py --ip 255.254.253.252\n"
            ++ (codes "(creates a udp matchmaking server listed at public ip 255.254.253.252, "
                ++ (codes "specifies python3)\n" ++ codes "------------\n"))))

-- The variables of the script, and what it has printed.
pub record Settings : Type 0 where
  pub verbose : Bool
  pub local_ip : Text
  pub printed : List Text

abbrev pub default_settings : Settings
default_settings = record { verbose = false; local_ip = default_ip; printed = [] }

abbrev pub Script : Type 0 → Type 0
Script A = Py Settings A

abbrev pub print : Text → Script (Unit {0})
print text = modify (λ s. record s { printed = s.printed ++ text ∷ [] })

abbrev pub set_verbose : Script (Unit {0})
set_verbose = modify (λ s. record s { verbose = true })

abbrev pub set_ip : Text → Script (Unit {0})
set_ip ip = modify (λ s. record s { local_ip = ip })

-- `argv[i] in …`
abbrev pub is_one_of : Text → List Text → Bool
is_one_of arg = any_of (same_text arg)

abbrev pub exit : ℕ → Script (Unit {0})
exit code = raise (system_exit code)

-- `[int(val) for val in …]`
unfoldable pub ints : Unicode → List Text → Script (List ℤ)
ints u [] = pure []
ints u (s ∷ ss) = do n ← or_raise (int u s) value_error; ns ← ints u ss; pure (n ∷ ns)

-- `for j in range(4): assert 0 <= ip_list[j] <= 255`, from the list's first item on
unfoldable pub assert_bytes : List ℤ → Script (Unit {0})
assert_bytes [] = pure tt
assert_bytes (n ∷ ns) = do assert (leb_ℤ (pos 0) n && leb_ℤ n (pos 255)); assert_bytes ns

-- The body of the `try`.
unfoldable pub check_ip : Unicode → Text → Script (Unit {0})
check_ip u ip = do
  ip_list ← ints u (split_dots ip)
  assert (length ip_list == 4)
  assert_bytes ip_list

-- `if i >= arg_ct: break`, at the end of a round: the next `i`, or none after a `break`.
abbrev pub next : List Text → ℕ → Script (Option ℕ)
next argv i = pure (if leb (length argv) i then none else some i)

-- The value of an `--ip`, which stands at `i`.
unfoldable pub use_ip : Unicode → List Text → ℕ → Text → Script (Option ℕ)
unfolding check_ip
use_ip u argv i ip =
    catching (check_ip u ip >> set_ip ip) (print errname_ip_malformed >> exit 1)
    >> next argv (suc i)

unfoldable pub read_ip : Unicode → List Text → ℕ → Script (Option ℕ)
unfolding use_ip
read_ip u argv i =
    if i == length argv
    then print errname_ip_malformed >> pure none
    else or_raise (get_elem? argv i) index_error >>= use_ip u argv i

-- The branches of a round, for the argument at `i`.
unfoldable pub use_arg : Unicode → List Text → ℕ → Text → Script (Option ℕ)
unfolding read_ip
use_arg u argv i arg =
    if is_one_of arg ip_names
    then read_ip u argv (suc i)
    else if is_one_of arg verbose_names
    then set_verbose >> next argv (suc i)
    else if is_one_of arg help_names
    then print valid_args >> (exit 0 >> pure none)
    else print errname_bad_argname >> (exit 1 >> pure none)

-- One round of the loop.
unfoldable pub read_arg : Unicode → List Text → ℕ → Script (Option ℕ)
unfolding use_arg
read_arg u argv i = or_raise (get_elem? argv i) index_error >>= use_arg u argv i

-- The loop, for at most `fuel` rounds; `blocked` stands for a loop that goes on beyond them.
unfoldable pub read_args : Unicode → ℕ → List Text → ℕ → Script (Unit {0})
unfolding read_arg
read_args u zero argv i = λ s. (blocked, s)
read_args u (suc fuel) argv i = read_arg u argv i >>= λ next_i. elim next_i [
  | some i' ↦ read_args u fuel argv i'
  | none ↦ pure tt
]

-- The script: if it returns, `main(verbose, local_ip)` is called.
unfoldable pub script : Unicode → List Text → Script (Unit {0})
unfolding read_args
script u argv = if ltb 1 (length argv) then read_args u (length argv) argv 1 else pure tt
