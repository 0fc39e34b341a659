-- ===== src/CommandLine/Loop.antt =====
-- The loop over the arguments (mym.py), and what the arguments mean, read from left to right.
use meet_your_match.Prelude.{
  ℕ, zero, suc, ◌+◌, ◌≤◌, ◌<◌, ◌≡◌, refl, sym, ap, ◌∙◌, inl, inr, true, false, Option, none, some,
  List, [], ◌∷◌, arith, length, get_elem?, drop, leb, lt→ltb, ◌==◌, Bool-cases, if◌then◌else◌,
}
use meet_your_match.Python.{
  ok, pure, or_raise, catching, index_error, ◌>>=◌, ◌>>◌, >>=_assoc, >>=_cong, >>=-ok, Text,
}
use meet_your_match.Text.{Unicode}
use meet_your_match.CommandLine.{
  Settings, Script, print, exit, set_ip, set_verbose, is_one_of, ip_names, verbose_names,
  help_names, valid_args, errname_bad_argname, errname_ip_malformed, check_ip, next, use_ip,
  read_ip, use_arg, read_arg, read_args, script,
}

-- The value of an `--ip` that is there.
abbrev pub accept : Unicode → Text → Script (Unit {0})
accept u ip = catching (check_ip u ip >> set_ip ip) (print errname_ip_malformed >> exit 1)

-- An argument that is no `--ip`, and what follows it.
abbrev pub flag : Text → Script (Unit {0}) → Script (Unit {0})
flag arg rest =
    if is_one_of arg verbose_names
    then set_verbose >> rest
    else if is_one_of arg help_names
    then print valid_args >> exit 0
    else print errname_bad_argname >> exit 1

-- The arguments behind the program's name, from left to right: an `--ip` takes the next one, and
-- ends the reading if there is none.
unfoldable pub interpret : Unicode → List Text → Script (Unit {0})
interpret u [] = pure tt
interpret u (arg ∷ []) =
    if is_one_of arg ip_names then print errname_ip_malformed else flag arg (pure tt)
interpret u (arg ∷ value ∷ rest) = elim (is_one_of arg ip_names) [
  | true ↦ accept u value >> interpret u rest
  | false ↦ flag arg (interpret u (value ∷ rest))
]

drop-lt :
    (xs : List Text) (i : ℕ)
    → i < length xs
    → (x : Text) × (get_elem? xs i ≡ some x) × (drop i xs ≡ x ∷ drop (suc i) xs)
drop-lt [] i h = absurd (omega arith)
drop-lt (x ∷ xs) zero h = (x, refl, refl)
drop-lt (x ∷ xs) (suc i) h = drop-lt xs i (omega arith)

drop_all : (xs : List Text) (i : ℕ) → length xs ≤ i → drop i xs ≡ []
drop_all [] zero h = refl
drop_all [] (suc i) h = refl
drop_all (x ∷ xs) zero h = absurd (omega arith)
drop_all (x ∷ xs) (suc i) h = drop_all xs i (omega arith)

module _ (u : Unicode) (argv : List Text) where
  -- How the loop goes on after a round.
  go_on : ℕ → Option ℕ → Script (Unit {0})
  go_on fuel next_i = elim next_i [ some i' ↦ read_args u fuel argv i' | none ↦ pure tt ]

  -- With fuel for the arguments from the `i`-th on, the loop reads them as they stand.
  Reads : ℕ → ℕ → Type 0
  Reads fuel i = (s : Settings) → read_args u fuel argv i s ≡ interpret u (drop i argv) s

  next_lem :
      (fuel i : ℕ) (s : Settings)
      → (i < length argv → Reads fuel i)
      → (next argv i >>= go_on fuel) s ≡ interpret u (drop i argv) s
  unfolding go_on interpret Reads
  next_lem fuel i s ih = elim (Bool-cases (leb (length argv) i)) [
    | inl past ↦ rw (past, drop_all argv i (ground arith))
    | inr before ↦ rw before (ih (ground arith) s)
  ]

  flag_lem :
      (fuel i : ℕ) (s : Settings) (arg : Text)
      → is_one_of arg ip_names ≡ false
      → (suc i < length argv → Reads fuel (suc i))
      → (use_arg u argv i arg >>= go_on fuel) s ≡ flag arg (interpret u (drop (suc i) argv)) s
  unfolding use_arg
  flag_lem fuel i s arg other ih = elim (Bool-cases (is_one_of arg verbose_names)) [
    | inl y ↦ rw (other, y) (next_lem fuel (suc i) _ ih)
    | inr n ↦ elim (Bool-cases (is_one_of arg help_names)) [
      | inl y ↦ rw (other, n, y)
      | inr n' ↦ rw (other, n, n')
    ]
  ]

  interpret_ip :
      (arg value : Text) (rest : List Text) (s : Settings)
      → is_one_of arg ip_names ≡ true
      → interpret u (arg ∷ value ∷ rest) s ≡ (accept u value >> interpret u rest) s
  unfolding interpret
  interpret_ip arg value rest s is_ip = rw (is_ip, interpret)

  item_lem :
      (i : ℕ) (s : Settings) (arg : Text)
      → get_elem? argv i ≡ some arg
      → or_raise (get_elem? argv i) index_error s ≡ (ok arg, s)
  item_lem i s arg at = rw at

  -- The round of an `--ip` at `i`, with a value behind it.
  value_lem :
      (fuel i : ℕ) (s : Settings) (arg value : Text)
      → (suc i == length argv) ≡ false
      → get_elem? argv (suc i) ≡ some value
      → is_one_of arg ip_names ≡ true
      → (suc (suc i) < length argv → Reads fuel (suc (suc i)))
      → (read_ip u argv (suc i) >>= go_on fuel) s
        ≡ interpret u (arg ∷ value ∷ drop (suc (suc i)) argv) s
  unfolding read_ip use_ip
  value_lem fuel i s arg value more at is_ip ih =
      let rest = drop (suc (suc i)) argv in
      let item = or_raise (get_elem? argv (suc i)) index_error in
      let back = next argv (suc (suc i)) in
      rw more (
        >>=_assoc item (use_ip u argv (suc i)) (go_on fuel) s
        ∙ >>=-ok item (λ ip. use_ip u argv (suc i) ip >>= go_on fuel) (item_lem (suc i) s value at)
        ∙ >>=_assoc (accept u value) (λ _. back) (go_on fuel) s
        ∙ >>=_cong (accept u value) (λ _. back >>= go_on fuel) (λ _. interpret u rest) s
            (λ _ t. next_lem fuel (suc (suc i)) t ih)
        ∙ sym (interpret_ip arg value rest s is_ip))

  no_value_lem :
      (fuel i : ℕ) (s : Settings) (arg : Text)
      → (suc i == length argv) ≡ true
      → is_one_of arg ip_names ≡ true
      → (read_ip u argv (suc i) >>= go_on fuel) s ≡ interpret u (arg ∷ []) s
  unfolding read_ip interpret go_on
  no_value_lem fuel i s arg last is_ip = rw (last, is_ip)

  ip_lem :
      (fuel i : ℕ) (s : Settings) (arg : Text)
      → i < length argv
      → is_one_of arg ip_names ≡ true
      → ((j : ℕ) → j < length argv → i < j → Reads fuel j)
      → (read_ip u argv (suc i) >>= go_on fuel) s ≡ interpret u (arg ∷ drop (suc i) argv) s
  ip_lem fuel i s arg here is_ip ih = elim (Bool-cases (suc i == length argv)) [
    | inl last ↦
        no_value_lem fuel i s arg last is_ip
        ∙ ap (λ r. interpret u (arg ∷ r) s) (sym (drop_all argv (suc i) (ground arith)))
    | inr more ↦
        let (value, at, rest) = drop-lt argv (suc i) (ground arith) in
        value_lem fuel i s arg value more at is_ip (λ h. ih (suc (suc i)) h (omega arith))
        ∙ ap (λ r. interpret u (arg ∷ r) s) (sym rest)
  ]

  -- A round for another argument.
  other_lem :
      (arg : Text) (rest : List Text) (s : Settings)
      → is_one_of arg ip_names ≡ false
      → interpret u (arg ∷ rest) s ≡ flag arg (interpret u rest) s
  unfolding interpret
  other_lem arg [] s other = rw (other, interpret)
  other_lem arg (value ∷ rest) s other = rw (other, interpret)

  use_arg_lem :
      (fuel i : ℕ) (s : Settings) (arg : Text)
      → i < length argv
      → ((j : ℕ) → j < length argv → i < j → Reads fuel j)
      → (use_arg u argv i arg >>= go_on fuel) s ≡ interpret u (arg ∷ drop (suc i) argv) s
  unfolding use_arg
  use_arg_lem fuel i s arg here ih = elim (Bool-cases (is_one_of arg ip_names)) [
    | inl is_ip ↦ rw is_ip (ip_lem fuel i s arg here is_ip ih)
    | inr other ↦
        flag_lem fuel i s arg other (λ h. ih (suc i) h (omega arith))
        ∙ sym (other_lem arg (drop (suc i) argv) s other)
  ]

  round_lem :
      (fuel i : ℕ) (s : Settings)
      → i < length argv
      → ((j : ℕ) → j < length argv → i < j → Reads fuel j)
      → (read_arg u argv i >>= go_on fuel) s ≡ interpret u (drop i argv) s
  unfolding read_arg
  round_lem fuel i s here ih =
      let (arg, at, rest) = drop-lt argv i here in
      let item = or_raise (get_elem? argv i) index_error in
      >>=_assoc item (use_arg u argv i) (go_on fuel) s
      ∙ >>=-ok item (λ a. use_arg u argv i a >>= go_on fuel) (item_lem i s arg at)
      ∙ use_arg_lem fuel i s arg here ih
      ∙ ap (λ r. interpret u r s) (sym rest)

  read_args-Reads : (fuel i : ℕ) → i < length argv → length argv ≤ i + fuel → Reads fuel i
  unfolding read_args go_on Reads
  read_args-Reads zero i here enough = absurd (omega arith)
  read_args-Reads (suc fuel) i here enough =
      λ s. round_lem fuel i s here (λ j h lt. read_args-Reads fuel j h (omega arith))

-- What the script does is what the arguments behind the program's name mean, read from left to
-- right; in particular its loop ends.
pub script-interpret :
    (u : Unicode) (argv : List Text) (s : Settings) → script u argv s ≡ interpret u (drop 1 argv) s
unfolding script interpret Reads
script-interpret u [] s = refl
script-interpret u (name ∷ []) s = refl
script-interpret u (name ∷ arg ∷ args) s =
    let argv = name ∷ arg ∷ args in
    rw (lt→ltb 1 (length argv) (omega arith))
      (read_args-Reads u argv (length argv) 1 (omega arith) (omega arith) s)
