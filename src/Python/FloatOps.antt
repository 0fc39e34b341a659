-- ===== src/Python/FloatOps.antt =====
-- Python's floats, which the server gets from `time()` and only subtracts, adds and compares: a
-- parameter of the model. `encode` and `decode` are the `d` format of `struct`.
use meet_your_match.Prelude.{ℕ, Bool, List}

pub record Floats : Type 1 where
  pub Float : Type 0
  pub of_nat : ℕ → Float
  pub plus : Float → Float → Float
  pub minus : Float → Float → Float
  pub less : Float → Float → Bool
  pub encode : Float → List ℕ
  pub decode : List ℕ → Float
