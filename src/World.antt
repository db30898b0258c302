-- ===== src/World.antt =====
-- The state of the running application (src/app_components.h) and the commands that act on it.
mod Members
mod Machine
mod Commands
unfoldable pub use Members.*
unfoldable pub use Machine.*
unfoldable pub use Commands.*
