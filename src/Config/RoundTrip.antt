-- ===== src/Config/RoundTrip.antt =====
-- What `write_config` wrote is what `read_config` finds at the next start.
pub mod Scenes
pub mod Table
pub mod Sensors
pub mod Restart
pub mod Lookups
