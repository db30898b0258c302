-- ===== src/Services.antt =====
-- The message handlers of src/services/*.cpp, one module for each service. A handler takes the
-- `publish` of the bus, as the code holds a reference to the bus.
pub mod Log
pub mod Motor
pub mod State
pub mod Kinematics
pub mod Power
pub mod Thermal
pub mod Environment
pub mod Autonomous
