-- ===== src/Js.antt =====
-- The JavaScript values and operations that the source's TypeScript uses on `any` and `unknown`.
mod Data
mod Completion
mod Operators
pub mod Example
pub mod Effects
pub mod Map
unfoldable pub use Data.*
unfoldable pub use Completion.*
unfoldable pub use Operators.*
