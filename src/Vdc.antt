-- ===== src/Vdc.antt =====
-- The callbacks of venta/vdsd.c.
pub mod CallScene
pub mod SceneSafety
pub mod Leading
pub mod Steady
pub mod Unlocking
pub mod FromStart
pub mod FanSteps
pub mod Ping
pub mod SetProp
pub mod Zone
pub mod GetProp
pub mod Requests
