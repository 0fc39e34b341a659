-- ===== src/Matchmaker/Intake.antt =====
-- A client that comes through the pipe, in the intake thread (match.py).
use meet_your_match.Prelude.{◌≡◌, ◌∙◌, true, false, List, ◌∷◌}
use meet_your_match.Python.{ok, raised, blocked, attribute_error, Floats, >>=-ok}
use meet_your_match.Text.{Unicode}
use meet_your_match.Member.{Client}
use meet_your_match.Matching.{acquire_lock}
use meet_your_match.Matchmaker.{Server, next_client, intake, register_intake}

-- With the lock free, the intake of any client raises an AttributeError, with which the thread ends;
-- the client is in no list, and the lock stays held. With the lock held, the thread waits, with the
-- client taken from the pipe.
pub register_intake_lem :
    (fl : Floats) (u : Unicode) (time : fl.Float) (client : Client) (rest : List Client)
    (s : Server fl.Float)
    → s.in_pipe ≡ client ∷ rest
    → (s.match_data.locked ≡ false
        → register_intake fl u time s ≡ (
          raised attribute_error,
          record s { in_pipe = rest; match_data = record (s.match_data) { locked = true } },
        ))
      × (s.match_data.locked ≡ true
          → register_intake fl u time s ≡ (blocked, record s { in_pipe = rest }))
unfolding register_intake intake acquire_lock
register_intake_lem fl u time client rest s pipe =
    let taken : next_client s ≡ (ok client, record s { in_pipe = rest }) = rw pipe in
    (
      λ h. >>=-ok next_client (intake fl u time) taken ∙ rw h,
      λ h. >>=-ok next_client (intake fl u time) taken ∙ rw h,
    )
