-- ===== src/Printing/Lines.antt =====
-- How many lines the text of a session has (common.py, `str_line_count`).
use meet_your_match.Prelude.{
  ℕ, zero, suc, ◌+◌, ◌-◌, ◌≡◌, refl, List, [], ◌∷◌, ◌++◌, map, length, arith, All, All-zip,
  All-trivial, ◌==◌, replicate, if◌then◌else◌,
}
use meet_your_match.Prelude.Int.{ℤ, pos, negsuc}
use meet_your_match.Python.{Text}
use meet_your_match.Text.{codes}
use meet_your_match.Text.Numerals.{digit_char, digits_of, str_int, hex4}
use meet_your_match.Member.{Client}
use meet_your_match.Matching.{Ref, Store, Session}
use meet_your_match.Printing.{join_lines, str_client, str_ref, str_session, str_line_count}

-- how many lines a text ends
abbrev pub newlines : Text → ℕ
newlines [] = 0
newlines (c ∷ s) = if c == 10 then suc (newlines s) else newlines s

newlines-append : (s t : Text) → newlines (s ++ t) ≡ newlines s + newlines t
newlines-append [] t = omega arith
newlines-append (c ∷ s) t = ground (arith, newlines-append s t)

newlines-digits : (ds : List ℕ) → newlines (map digit_char ds) ≡ 0
newlines-digits [] = refl
newlines-digits (d ∷ ds) = ground (arith, newlines-digits ds)

newlines-replicate : (k : ℕ) → newlines (replicate k b'0') ≡ 0
newlines-replicate zero = refl
newlines-replicate (suc k) = newlines-replicate k

newlines-str_int : (n : ℤ) → newlines (str_int n) ≡ 0
newlines-str_int (pos n) = newlines-digits (digits_of 10 n)
newlines-str_int (negsuc n) = newlines-digits (digits_of 10 (suc n))

newlines-hex4 : (n : ℕ) → newlines (hex4 n) ≡ 0
newlines-hex4 n =
    let digits = map digit_char (digits_of 16 n) in
    let all = newlines-append (replicate (4 - length digits) b'0') digits in
    let padding = newlines-replicate (4 - length digits) in
    let rest = newlines-digits (digits_of 16 n) in omega arith

-- Neither the name nor the ip of the client has a line break.
abbrev pub IsOneLine : Client → Type 0
IsOneLine c = (newlines c.name ≡ 0) × (newlines c.address.ip ≡ 0)

newlines-str_client : (c : Client) → IsOneLine c → newlines (str_client c) ≡ 0
unfolding str_client
newlines-str_client c (name, ip) =
    simp (newlines-append, newlines-replicate, newlines-digits, name, ip)

newlines-join_lines :
    (f : Ref → Text) (rs : List Ref)
    → All (λ r. newlines (f r) ≡ 0) rs
    → newlines (join_lines (map f rs)) ≡ length rs - 1
unfolding join_lines
newlines-join_lines f [] h = refl
newlines-join_lines f (r ∷ []) (here, h) = omega arith
newlines-join_lines f (r ∷ q ∷ rs) (here, h) =
    let all = newlines-append (f r) (codes "\n" ++ join_lines (map f (q ∷ rs))) in
    let rest = newlines-join_lines f (q ∷ rs) h in omega arith

-- the lines of a session's text, besides those of its clients
around_clients :
    (objects : Store) (s : Session)
    → IsOneLine (objects s.host).client
    → newlines (str_session objects s) ≡ 6 + newlines (join_lines (map (str_ref objects) s.clients))
unfolding str_session
around_clients objects s (name, ip) =
    simp (newlines-append, newlines-replicate, newlines-digits, newlines-str_int, name, ip)
      (omega arith)

client_lines :
    (objects : Store) (rs : List Ref)
    → All (λ r. IsOneLine (objects r).client) rs
    → All (λ r. newlines (str_ref objects r) ≡ 0) rs
client_lines objects rs h =
    All-zip (λ r. IsOneLine (objects r).client) (λ _. Unit {0})
      (λ r. newlines (str_ref objects r) ≡ 0)
      (λ r one _. newlines-str_client (objects r).client one) rs h (All-trivial rs)

-- The text of a session whose clients and host have no line break in their names and ips has as many
-- line breaks as `str_line_count` says, if the session has a client, and one more if it has none.
pub newlines-str_session :
    (objects : Store) (s : Session)
    → IsOneLine (objects s.host).client
    → All (λ r. IsOneLine (objects r).client) s.clients
    → newlines (str_session objects s)
      ≡ (if length s.clients == 0 then str_line_count s + 1 else str_line_count s)
unfolding str_session str_line_count
newlines-str_session objects s host clients =
    let all = around_clients objects s host in
    let joined =
      newlines-join_lines (str_ref objects) s.clients (client_lines objects s.clients clients) in
    ground arith
