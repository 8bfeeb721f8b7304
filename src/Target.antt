-- ===== src/Target.antt =====
-- The programmer's context `stlink_t` (inc/stlink.h), the target behind the backend table
-- (inc/backend.h), and the monad of code that talks to it.
mod Types
mod Backend
mod Monad
pub mod Chipid
pub mod Keeps
pub mod Ends
pub mod Ensures
pub mod Returns
pub mod Leads
pub use Types.*
pub use Backend.*
pub use Monad.*
unfoldable pub use Monad.{◌>>=◌, pure, gets, skip, uninitialised, on_success}
