-- ===== src/CommandLine/Endings.antt =====
-- How the script (mym.py) may end.
use meet_your_match.Prelude.{
  ◌≡◌, ◌≢◌, ap, Bool, true, false, none, some, List, [], ◌∷◌, ◌&&◌, length, drop, ◌==◌, Option, inl,
  inr, Bool-cases, if◌then◌else◌,
}
use meet_your_match.Prelude.Int.{ℤ, pos, leb_ℤ}
use meet_your_match.Python.{
  ok, blocked, pure, or_raise, assert, value_error, ◌>>=◌, ◌>>◌, Runs, pure-Runs, >>=-Runs,
  catching-Runs, if-Runs, Result-cases, Text,
}
use meet_your_match.Text.{Unicode, int, split_dots}
use meet_your_match.CommandLine.{
  Settings, Script, print, exit, set_ip, set_verbose, is_one_of, ip_names, verbose_names,
  help_names, valid_args, errname_bad_argname, errname_ip_malformed, ints, assert_bytes, check_ip,
  script,
}
use meet_your_match.CommandLine.Loop.{accept, flag, interpret, script-interpret}

module _ (u : Unicode) (Q : Text → Type 0) where
  -- The ip that is set has this property.
  abbrev pub HasIp : Settings → Type 0
  HasIp s = Q s.local_ip

  or_raise-Runs : {A : Type 0} (o : Option A) → Runs HasIp (or_raise o value_error)
  or_raise-Runs none s h = (λ q. cc, h)
  or_raise-Runs (some a) s h = (λ q. cc, h)

  assert-Runs : (b : Bool) → Runs HasIp (assert b)
  assert-Runs true s h = (λ q. cc, h)
  assert-Runs false s h = (λ q. cc, h)

  ints-Runs : (ss : List Text) → Runs HasIp (ints u ss)
  unfolding ints
  ints-Runs [] = pure-Runs HasIp []
  ints-Runs (s ∷ ss) =
      >>=-Runs HasIp (or_raise (int u s) value_error) (λ n. ints u ss >>= λ ns. pure (n ∷ ns))
        (or_raise-Runs (int u s))
        (λ n.
          >>=-Runs HasIp (ints u ss) (λ ns. pure (n ∷ ns)) (ints-Runs ss)
            (λ ns. pure-Runs HasIp (n ∷ ns)))

  assert_bytes-Runs : (ns : List ℤ) → Runs HasIp (assert_bytes ns)
  unfolding assert_bytes
  assert_bytes-Runs [] = pure-Runs HasIp tt
  assert_bytes-Runs (n ∷ ns) =
      let test = leb_ℤ (pos 0) n && leb_ℤ n (pos 255) in
      >>=-Runs HasIp (assert test) (λ _. assert_bytes ns) (assert-Runs test)
        (λ _. assert_bytes-Runs ns)

  check_ip-Runs : (ip : Text) → Runs HasIp (check_ip u ip)
  unfolding check_ip
  check_ip-Runs ip =
      >>=-Runs HasIp (ints u (split_dots ip)) (λ ns. assert (length ns == 4) >> assert_bytes ns)
        (ints-Runs (split_dots ip))
        (λ ns.
          >>=-Runs HasIp (assert (length ns == 4)) (λ _. assert_bytes ns)
            (assert-Runs (length ns == 4)) (λ _. assert_bytes-Runs ns))

  module _ (accepts : (ip : Text) (s t : Settings) → check_ip u ip s ≡ (ok tt, t) → Q ip) where
    set_checked-Runs : (ip : Text) → Runs HasIp (check_ip u ip >> set_ip ip)
    set_checked-Runs ip s h = elim (Result-cases (check_ip u ip s).0) [
      | inl (a, e) ↦
          rw (e, ◌>>=◌)
            (λ q. cc, accepts ip s (check_ip u ip s).1 (ap (λ r. (r, (check_ip u ip s).1)) e))
      | inr (inl (x, e)) ↦ rw (e, ◌>>=◌) (λ q. cc, (check_ip-Runs ip s h).1)
      | inr (inr e) ↦ absurd ((check_ip-Runs ip s h).0 e)
    ]

    accept-Runs : (ip : Text) → Runs HasIp (accept u ip)
    accept-Runs ip =
        catching-Runs HasIp (check_ip u ip >> set_ip ip) (print errname_ip_malformed >> exit 1)
          (set_checked-Runs ip) (λ s h. (λ q. cc, h))

    flag-Runs :
        (arg : Text) (rest : Script (Unit {0})) → Runs HasIp rest → Runs HasIp (flag arg rest)
    flag-Runs arg rest h =
        if-Runs HasIp (is_one_of arg verbose_names) (set_verbose >> rest)
          (if is_one_of arg help_names
            then print valid_args >> exit 0
            else print errname_bad_argname >> exit 1)
          (λ s g. h (set_verbose s).1 g)
          (if-Runs HasIp (is_one_of arg help_names) (print valid_args >> exit 0)
            (print errname_bad_argname >> exit 1) (λ s g. (λ q. cc, g)) (λ s g. (λ q. cc, g)))

    pub interpret-Runs : (args : List Text) → Runs HasIp (interpret u args)
    unfolding interpret
    interpret-Runs [] = pure-Runs HasIp tt
    interpret-Runs (arg ∷ []) =
        if-Runs HasIp (is_one_of arg ip_names) (print errname_ip_malformed) (flag arg (pure tt))
          (λ s h. (λ q. cc, h)) (flag-Runs arg (pure tt) (pure-Runs HasIp tt))
    interpret-Runs (arg ∷ value ∷ rest) = elim (Bool-cases (is_one_of arg ip_names)) [
      | inl y ↦
          rw (y, interpret)
            (>>=-Runs HasIp (accept u value) (λ _. interpret u rest) (accept-Runs value)
              (λ _. interpret-Runs rest))
      | inr n ↦
          rw (n, interpret)
            (flag-Runs arg (interpret u (value ∷ rest)) (interpret-Runs (value ∷ rest)))
    ]

-- Whatever the arguments, the script calls `main`, or exits, or raises: its loop does not go on for
-- ever, since a round never leaves `i` where it was.
pub script-ends : (u : Unicode) (argv : List Text) (s : Settings) → (script u argv s).0 ≢ blocked
script-ends u argv s =
    rw (script-interpret u argv s)
      (interpret-Runs u (λ _. Unit {0}) (λ _ _ _ _. tt) (drop 1 argv) s tt).0
