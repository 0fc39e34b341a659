-- ===== src/Python.antt =====
-- The part of Python that the server uses: exceptions, state, locks, addresses, dictionaries and
-- floats.
mod Monad
mod Addresses
mod Dicts
mod FloatOps
mod Sequences
mod Progress
mod Triples
pub use Monad.*
unfoldable pub use Addresses.*
pub use Dicts.*
pub use FloatOps.*
pub use Sequences.*
pub use Progress.*
pub use Triples.*
