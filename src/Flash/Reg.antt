-- ===== src/Flash/Reg.antt =====
-- The registers and bits of inc/stm32flash.h that the flash code uses, by series.
mod Common
mod Fx
mod Gx
mod H7
mod Lx
pub use Common.*
pub use Fx.*
pub use Gx.*
pub use H7.*
pub use Lx.*
