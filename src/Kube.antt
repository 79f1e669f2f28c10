-- ===== src/Kube.antt =====
-- The controller's view of Kubernetes, and the actions that its methods are made of.
mod Objects
mod Server
mod Monad
mod Laws
mod Effects
mod Writes
mod Success
mod Held
mod Refusal
pub use Objects.*
pub use Server.*
pub use Monad.*
pub use Laws.*
pub use Effects.*
pub use Writes.*
pub use Success.*
unfoldable pub use Held.*
unfoldable pub use Refusal.*
