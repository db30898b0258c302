-- ===== src/Services/Autonomous.antt =====
-- src/services/autonomous_service.cpp: the waypoint controller.
mod Control
mod Handlers
unfoldable pub use Control.*
unfoldable pub use Handlers.*
