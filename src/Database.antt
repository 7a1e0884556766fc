-- ===== src/Database.antt =====
-- The PostgreSQL tables that the protocol server reads and writes, and the effects of a request.
mod Rows
mod FlowRows
mod Store
mod Externals
mod Effect
mod Quietness
mod Steadiness
mod Inversion
pub use Rows.*
pub use FlowRows.*
pub use Store.*
pub use Externals.*
unfoldable pub use Effect.*
pub use Quietness.*
pub use Inversion.*
pub use Steadiness.*
