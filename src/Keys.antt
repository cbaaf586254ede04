-- ===== src/Keys.antt =====
-- internal/keys: the ring of master keys (keys.go and local.go). The operating system, the random
-- source and SHA-256 are parameters: the files in Keys/Files, the rest as arguments of the calls.
mod Names
mod Files
mod Ring
pub mod Naming
pub mod Rotation
unfoldable pub use Names.*
unfoldable pub use Files.*
unfoldable pub use Ring.*
