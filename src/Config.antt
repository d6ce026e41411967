-- ===== src/Config.antt =====
-- venta/configuration.c: reading and writing venta.cfg.
pub mod Libconfig
pub mod Read
pub mod Write
pub mod RoundTrip
pub mod Lawful
