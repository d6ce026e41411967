-- ===== src/Tests.antt =====
-- Runs of the definitions, and the theorems at concrete inputs.
mod Fixtures
mod Scenes
mod Network
mod Config
mod Vdc
mod Report
mod GetProp
mod Start
mod Restart
mod Main
mod System
mod Accesses
