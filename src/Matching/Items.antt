-- ===== src/Matching/Items.antt =====
-- Indexing that succeeds, and a write behind it.
use meet_your_match.Prelude.{ℕ, ◌≡◌, ◌∙◌, ap, some, none, List, get_elem?}
use meet_your_match.Python.{ok, raised, index_error, ◌>>=◌, >>=-ok}
use meet_your_match.Member.{Attributes}
use meet_your_match.Matching.{Ref, Session, MatchingData, item, session_client, write}

item_ok :
    {A : Type 0} (f : MatchingData → List A) (i : ℕ) (md : MatchingData) {x : A}
    → get_elem? (f md) i ≡ some x
    → item f i md ≡ (ok x, md)
item_ok f i md at = ap (λ o. (elim o [ none ↦ raised index_error | some y ↦ ok y ], md)) at

pub unmatched_write :
    (i : ℕ) (g : Attributes → Attributes) (md : MatchingData) {r : Ref}
    → get_elem? md.unmatched_clients i ≡ some r
    → (item (λ md. md.unmatched_clients) i >>= write g) md ≡ write g r md
unmatched_write i g md at =
    >>=-ok (item (λ md. md.unmatched_clients) i) (write g)
      (item_ok (λ md. md.unmatched_clients) i md at)

pub host_write :
    (i : ℕ) (g : Attributes → Attributes) (md : MatchingData) {s : Session}
    → get_elem? md.sessions i ≡ some s
    → (item (λ md. md.sessions) i >>= λ s. write g s.host) md ≡ write g s.host md
host_write i g md at =
    >>=-ok (item (λ md. md.sessions) i) (λ (s : Session). write g s.host)
      (item_ok (λ md. md.sessions) i md at)

pub client_write :
    (i j : ℕ) (g : Attributes → Attributes) (md : MatchingData) {s : Session} {r : Ref}
    → get_elem? md.sessions i ≡ some s
    → get_elem? s.clients j ≡ some r
    → (session_client i j >>= write g) md ≡ write g r md
client_write i j g md {s} at in_s = >>=-ok (session_client i j) (write g) (
    >>=-ok (item (λ md. md.sessions) i) (λ (s : Session). item (λ md. s.clients) j)
      (item_ok (λ md. md.sessions) i md at)
    ∙ item_ok (λ md. s.clients) j md in_s)
