-- ===== src/World.antt =====
-- The state of one server: the tables of the database, the cache, the clock, the session of the
-- request, and what leaves the process. `Monad` has the actions on it, `Laws` the laws of `atomic`,
-- `Frame` what an action leaves alone.
use django_boilderplate.Prelude.{◌*◌}
pub mod Monad
pub mod Frame
pub mod Laws
pub use Monad.*
pub use Laws.*
pub use Frame.*
